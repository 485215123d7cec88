-- ===== src/Base/Lists.antt =====
-- Lists measured by native numbers, predicates over their items, and Boolean search.
use Prim.Native.Nat.{ℕ, zero, suc, ◌+◌, ◌<◌}
use mathlib.Core.Path.{◌≡◌, refl, ap, sym, ◌∙◌, subst}
use mathlib.Core.Logic.{◌⊎◌, inl, inr, ◌↔◌, ◌≢◌}
use mathlib.Core.Option.{Option, none, some}
use mathlib.Core.Bool.{Bool, true, false, ◌||◌, false≢true}
use mathlib.Core.List.{List, [], ◌∷◌, ◌++◌, append_assoc}
use Prim.Native.String.{String}
use native.Mathlib.Omega.{arith}
use text.Mathlib.Text.{◌==◌}
use app_gate.Base.Tests.{Bool-cases, if◌then◌else◌}
use text.Mathlib.TextEquality.{eq_iff}

-- Every item, and some item, satisfies `P`.
abbrev pub All {ℓ κ} : {A : Type ℓ} → (A → Type κ) → List A → Type κ
All P [] = Unit
All P (x ∷ xs) = P x × All P xs

abbrev pub Any {ℓ} : {A : Type ℓ} → (A → Type 0) → List A → Type 0
Any P [] = ⊥
Any P (x ∷ xs) = P x ⊎ Any P xs

pub All-append {ℓ κ} :
    {A : Type ℓ} (P : A → Type κ) (xs ys : List A) → All P xs → All P ys → All P (xs ++ ys)
All-append P [] ys h k = k
All-append P (x ∷ xs) ys (p, h) k = (p, All-append P xs ys h k)

pub Any-mono {ℓ} :
    {A : Type ℓ} (P Q : A → Type 0) → ((a : A) → P a → Q a) → (xs : List A) → Any P xs → Any Q xs
Any-mono P Q f [] h = h
Any-mono P Q f (x ∷ xs) h = ground (arith, f x, Any-mono P Q f xs)

pub Any-middle {ℓ} :
    {A : Type ℓ} (P : A → Type 0) (a : A) (xs ys : List A) → P a → Any P (xs ++ a ∷ ys)
Any-middle P a [] ys h = inl h
Any-middle P a (x ∷ xs) ys h = inr (Any-middle P a xs ys h)

pub All-not-Any {ℓ} :
    {A : Type ℓ} (P : A → Type 0) (xs : List A) → All (λ a. ¬ P a) xs → Any P xs → ⊥
All-not-Any P [] h k = k
All-not-Any P (x ∷ xs) (h, hs) (inl k) = h k
All-not-Any P (x ∷ xs) (h, hs) (inr k) = All-not-Any P xs hs k

pub Any-sole : {A : Type 0} (x a : A) → Any (λ y. y ≡ a) (x ∷ []) → a ≡ x
Any-sole x a (inl h) = sym h
Any-sole x a (inr h) = absurd h

pub Any-sole_of : {A : Type 0} (x a : A) (xs : List A) → xs ≡ x ∷ [] → Any (λ y. y ≡ a) xs → a ≡ x
Any-sole_of x a xs e h = Any-sole x a (subst (λ l. Any (λ y. y ≡ a) l) e h)

module _ {ℓ} {A : Type ℓ} where
  abbrev pub length : List A → ℕ
  length [] = 0
  length (x ∷ xs) = suc (length xs)

  unfoldable pub replicate : ℕ → A → List A
  replicate zero a = []
  replicate (suc n) a = a ∷ replicate n a

  -- `iter().any(p)`
  unfoldable pub any : (A → Bool) → List A → Bool
  any p [] = false
  any p (x ∷ xs) = p x || any p xs

  -- `iter().filter(p)`, for a Boolean test.
  unfoldable pub filter : (A → Bool) → List A → List A
  filter p [] = []
  filter p (x ∷ xs) = elim (p x) [ true ↦ x ∷ filter p xs | false ↦ filter p xs ]

  unfoldable pub flatten : List (List A) → List A
  flatten [] = []
  flatten (xs ∷ rest) = xs ++ flatten rest

module _ {ℓ} {A : Type ℓ} where
  pub length-append : (xs ys : List A) → length (xs ++ ys) ≡ length xs + length ys
  length-append [] ys = omega arith
  length-append (x ∷ xs) ys = omega (arith, length-append xs ys)

  pub length-replicate : (n : ℕ) (a : A) → length (replicate n a) ≡ n
  unfolding replicate
  length-replicate zero a = refl
  length-replicate (suc n) a = ap suc (length-replicate n a)

  -- `any` finds an item that passes the test, and only such an item.
  pub any_iff : (p : A → Bool) (xs : List A) → (any p xs ≡ true) ↔ Any (λ a. p a ≡ true) xs
  unfolding any
  any_iff p [] = ground arith
  any_iff p (x ∷ xs) = ground (arith, any_iff p xs)

  pub flatten-append : (xss yss : List (List A)) → flatten (xss ++ yss) ≡ flatten xss ++ flatten yss
  unfolding flatten
  flatten-append [] yss = refl
  flatten-append (xs ∷ xss) yss = simp (flatten-append xss yss, append_assoc)

-- Reads and writes by index; a write out of bounds changes nothing.
module _ {ℓ} {A : Type ℓ} where
  abbrev pub get_elem? : List A → ℕ → Option A
  get_elem? [] i = none
  get_elem? (x ∷ xs) zero = some x
  get_elem? (x ∷ xs) (suc i) = get_elem? xs i

  unfoldable pub modify_at : ℕ → (A → A) → List A → List A
  modify_at i f [] = []
  modify_at zero f (x ∷ xs) = f x ∷ xs
  modify_at (suc i) f (x ∷ xs) = x ∷ modify_at i f xs

  pub length-modify_at : (i : ℕ) (f : A → A) (xs : List A) → length (modify_at i f xs) ≡ length xs
  unfolding modify_at
  length-modify_at i f [] = refl
  length-modify_at zero f (x ∷ xs) = refl
  length-modify_at (suc i) f (x ∷ xs) = ap suc (length-modify_at i f xs)

  pub get_elem?-modify_at_ne :
      (i j : ℕ) (f : A → A) (xs : List A) → i ≢ j → get_elem? (modify_at i f xs) j ≡ get_elem? xs j
  unfolding modify_at
  get_elem?-modify_at_ne i j f [] h = refl
  get_elem?-modify_at_ne zero zero f (x ∷ xs) h = absurd (h refl)
  get_elem?-modify_at_ne zero (suc j) f (x ∷ xs) h = refl
  get_elem?-modify_at_ne (suc i) zero f (x ∷ xs) h = refl
  get_elem?-modify_at_ne (suc i) (suc j) f (x ∷ xs) h =
      get_elem?-modify_at_ne i j f xs (λ e. h (ap suc e))

  pub get_elem?-modify_at_self :
      (i : ℕ) (f : A → A) (xs : List A) (a : A)
      → get_elem? xs i ≡ some a
      → get_elem? (modify_at i f xs) i ≡ some (f a)
  unfolding modify_at
  get_elem?-modify_at_self i f [] a h = cc
  get_elem?-modify_at_self zero f (x ∷ xs) a h = cc
  get_elem?-modify_at_self (suc i) f (x ∷ xs) a h = get_elem?-modify_at_self i f xs a h

  pub get_elem?-append_left :
      (xs ys : List A) (i : ℕ) → i < length xs → get_elem? (xs ++ ys) i ≡ get_elem? xs i
  get_elem?-append_left [] ys i h = absurd (omega arith)
  get_elem?-append_left (x ∷ xs) ys zero h = refl
  get_elem?-append_left (x ∷ xs) ys (suc i) h = get_elem?-append_left xs ys i (omega arith)

  pub get_elem?-append_last : (xs : List A) (a : A) → get_elem? (xs ++ a ∷ []) (length xs) ≡ some a
  get_elem?-append_last [] a = refl
  get_elem?-append_last (x ∷ xs) a = get_elem?-append_last xs a

-- `contains` on a `Vec<String>` or a `HashSet<String>`
unfoldable pub contains : List String → String → Bool
unfolding any
contains xs a = any (λ x. x == a) xs

pub contains_iff : (xs : List String) (a : String) → (contains xs a ≡ true) ↔ Any (λ x. x ≡ a) xs
unfolding contains
contains_iff [] a = ground arith
contains_iff (x ∷ xs) a = ground (arith, contains_iff xs a, eq_iff x a)

-- `a` is the first item of the list that satisfies `P`.
pub record IsFirst {ℓ} {A : Type ℓ} (P : A → Type 0) (xs : List A) (a : A) : Type ℓ where
  pub before : List A
  pub after : List A
  pub cut : xs ≡ before ++ a ∷ after
  pub skipped : All (λ x. ¬ P x) before
  pub satisfied : P a

module _ {ℓ} {A : Type ℓ} (P : A → Type 0) where
  pub IsFirst-head : (x : A) (xs : List A) → P x → IsFirst P (x ∷ xs) x
  IsFirst-head x xs p = record { before = []; after = xs; cut = refl; skipped = tt; satisfied = p }

  pub IsFirst-tail : (x a : A) (xs : List A) → ¬ P x → IsFirst P xs a → IsFirst P (x ∷ xs) a
  IsFirst-tail x a xs h f = record {
    before = x ∷ f.before;
    after = f.after;
    cut = ap (λ l. x ∷ l) f.cut;
    skipped = (h, f.skipped);
    satisfied = f.satisfied;
  }

-- The first item that passes a test, which the search loops of the source are compared with.
unfoldable pub find_first {ℓ} : {A : Type ℓ} → (A → Bool) → List A → Option A
find_first p [] = none
find_first p (x ∷ xs) = if p x then some x else find_first p xs

module _ {ℓ} {A : Type ℓ} (P : A → Type 0) (p : A → Bool)
    (sound : (a : A) → (p a ≡ true) ↔ P a) where
  pub find_first_cases :
      (xs : List A)
      → ((a : A) × IsFirst P xs a × (find_first p xs ≡ some a))
        ⊎ (All (λ a. ¬ P a) xs × (find_first p xs ≡ none))
  unfolding find_first
  find_first_cases [] = inr (tt, refl)
  find_first_cases (x ∷ xs) = elim (Bool-cases (p x)) [
    | inl h ↦ inl (x, IsFirst-head P x xs ((sound x).0 h), rw h)
    | inr h ↦
        let refuted : ¬ P x = λ k. false≢true (sym h ∙ (sound x).1 k) in
        elim (find_first_cases xs) [
          | inl (a, first, e) ↦ inl (a, IsFirst-tail P x a xs refuted first, rw h e)
          | inr (all_refuted, e) ↦ inr ((refuted, all_refuted), rw h e)
        ]
  ]
