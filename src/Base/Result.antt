-- ===== src/Base/Result.antt =====
-- Rust's `Result`, with the bind that `?` stands for, and what options and results share.
use mathlib.Core.Path.{◌≡◌, refl}
use mathlib.Core.Option.{Option, none, some}

pub data Result {ℓ κ} (A : Type ℓ) (E : Type κ) : Type (ℓ ⊔ κ) where
  ok : A → Result A E
  err : E → Result A E

infixl 5 ◌>>=◌ ◌>>◌
abbrev pub ◌>>=◌ {ℓ κ μ} :
    {A : Type ℓ} {B : Type κ} {E : Type μ} → Result A E → (A → Result B E) → Result B E
ok a >>= f = f a
err e >>= f = err e

abbrev pub ◌>>◌ {ℓ κ μ} :
    {A : Type ℓ} {B : Type κ} {E : Type μ} → Result A E → Result B E → Result B E
m >> k = m >>= λ _. k

-- `r.map_err(f)`
abbrev pub map_err {ℓ κ μ} :
    {A : Type ℓ} {E : Type κ} {F : Type μ} → (E → F) → Result A E → Result A F
map_err f (ok a) = ok a
map_err f (err e) = err (f e)

-- `r.or_else(f)`
abbrev pub or_else {ℓ κ μ} :
    {A : Type ℓ} {E : Type κ} {F : Type μ} → (E → Result A F) → Result A E → Result A F
or_else f (ok a) = ok a
or_else f (err e) = f e

-- `r.unwrap_or_else(f)`
abbrev pub unwrap_or_else {ℓ κ} : {A : Type ℓ} {E : Type κ} → (E → A) → Result A E → A
unwrap_or_else f (ok a) = a
unwrap_or_else f (err e) = f e

-- `o.unwrap_or(a)` on an option.
abbrev pub unwrap_or {ℓ} : {A : Type ℓ} → A → Option A → A
unwrap_or a none = a
unwrap_or a (some b) = b

-- A chain that succeeds does so at each step.
pub ok_of_bind {ℓ κ μ} :
    {A : Type ℓ} {B : Type κ} {E : Type μ} (m : Result A E) (f : A → Result B E) (b : B)
    → (m >>= f) ≡ ok b
    → (a : A) × (m ≡ ok a) × (f a ≡ ok b)
ok_of_bind (ok a) f b h = (a, refl, h)
ok_of_bind (err e) f b h = cc

pub ok_of_map_err {ℓ κ μ} :
    {A : Type ℓ} {E : Type κ} {F : Type μ} (f : E → F) (m : Result A E) (a : A)
    → map_err f m ≡ ok a
    → m ≡ ok a
ok_of_map_err f (ok b) a h = cc
ok_of_map_err f (err e) a h = cc

pub ok_inj {ℓ κ} : {A : Type ℓ} {E : Type κ} {a b : A} → ◌≡◌ {A = Result A E} (ok a) (ok b) → a ≡ b
ok_inj h = cc
