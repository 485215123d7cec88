-- ===== src/RustGateway/Cache/Origin.antt =====
-- The entries of a table that the operations of the response cache write, and where each comes from.
use app_gate.Base.{
  ℕ, eq_iff, ◌≢◌, String, ◌≡◌, ap, ◌⊎◌, inl, inr, false, Bool-cases, Option, none, some, List, [],
  ◌∷◌, ◌++◌, ◌==◌, All, arith,
}
use app_gate.Base.Moka.{Table, put}
use app_gate.RustGateway.Cache.{CachedResponse}

pub data Op : Type 0 where
  got : ℕ → String → Op
  stored : ℕ → String → CachedResponse → Op
  dropped : String → Op
  cleared : Op

-- The operation does not change what is stored under the key.
abbrev pub IsUntouched : String → Op → Type 0
IsUntouched key (got now k) = Unit {0}
IsUntouched key (stored now k r) = (k == key) ≡ false
IsUntouched key (dropped k) = (k == key) ≡ false
IsUntouched key cleared = ⊥

-- The last operation that touched the key stored this response at this time.
pub record WasStored (key : String) (at : ℕ) (response : CachedResponse) (ops : List Op)
    : Type 0 where
  pub before : List Op
  pub after : List Op
  pub split : ops ≡ before ++ stored at key response ∷ after
  pub untouched : All (IsUntouched key) after

abbrev pub step_table : Op → Table CachedResponse → Table CachedResponse
step_table (got now k) table = table
step_table (stored now k r) table = put k (some (now, r)) table
step_table (dropped k) table = put k none table
step_table cleared table = λ key. none

abbrev pub run_table : List Op → Table CachedResponse → Table CachedResponse
run_table [] table = table
run_table (op ∷ ops) table = run_table ops (step_table op table)

later :
    (key : String) (at : ℕ) (r : CachedResponse) (op : Op) (ops : List Op)
    → WasStored key at r ops
    → WasStored key at r (op ∷ ops)
later key at r op ops w = record {
  before = op ∷ w.before;
  after = w.after;
  split = ap (λ rest. op ∷ rest) w.split;
  untouched = w.untouched;
}

-- Where an entry of a table comes from.
Origin : String → ℕ → CachedResponse → Table CachedResponse → Op → Type 0
Origin key at r table op =
    (op ≡ stored at key r) ⊎ ((table key ≡ some (at, r)) × IsUntouched key op)

put-origin :
    (key k : String) (at : ℕ) (r : CachedResponse) (entry : Option (ℕ × CachedResponse))
    (table : Table CachedResponse)
    → put k entry table key ≡ some (at, r)
    → ((k ≡ key) × (entry ≡ some (at, r))) ⊎ ((table key ≡ some (at, r)) × ((k == key) ≡ false))
put-origin key k at r entry table h = elim (Bool-cases (k == key)) [
  | inl same ↦ inl ((eq_iff k key).0 same, ground arith)
  | inr other ↦ inr (ground arith, other)
]

pub none-ne-some : {A : Type 0} {a : A} → ◌≢◌ {A = Option A} none (some a)
none-ne-some h = cc

step-Origin :
    (key : String) (at : ℕ) (r : CachedResponse) (op : Op) (table : Table CachedResponse)
    → step_table op table key ≡ some (at, r)
    → Origin key at r table op
unfolding Origin
step-Origin key at r (got now k) table h = inr (h, tt)
step-Origin key at r (stored now k q) table h =
    elim (put-origin key k at r (some (now, q)) table h) [
      | inl (same, e) ↦ inl (cc)
      | inr (old, other) ↦ inr (old, other)
    ]
step-Origin key at r (dropped k) table h = elim (put-origin key k at r none table h) [
  | inl (same, e) ↦ absurd (none-ne-some e)
  | inr (old, other) ↦ inr (old, other)
]
step-Origin key at r cleared table h = absurd (none-ne-some h)

origin :
    (key : String) (at : ℕ) (r : CachedResponse) (op : Op) (ops : List Op)
    (table : Table CachedResponse)
    → Origin key at r table op
    → All (IsUntouched key) ops
    → WasStored key at r (op ∷ ops)
      ⊎ ((table key ≡ some (at, r)) × All (IsUntouched key) (op ∷ ops))
unfolding Origin
origin key at r op ops table (inl same) untouched =
    inl (record { before = []; after = ops; split = ap (λ o. o ∷ ops) same; untouched = untouched })
origin key at r op ops table (inr (found, kept)) untouched = inr (found, (kept, untouched))

pub run_origin :
    (key : String) (at : ℕ) (r : CachedResponse) (ops : List Op) (table : Table CachedResponse)
    → run_table ops table key ≡ some (at, r)
    → WasStored key at r ops ⊎ ((table key ≡ some (at, r)) × All (IsUntouched key) ops)
run_origin key at r [] table h = inr (h, tt)
run_origin key at r (op ∷ ops) table h = elim (run_origin key at r ops (step_table op table) h) [
  | inl w ↦ inl (later key at r op ops w)
  | inr (found, untouched) ↦
      origin key at r op ops table (step-Origin key at r op table found) untouched
]
