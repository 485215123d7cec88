-- ===== src/Base/Moka/Sample.antt =====
-- A concrete cache for tests, which drops nothing before its time.
use Prim.Native.Nat.{ℕ, ◌+◌, ◌<◌}
use mathlib.Core.Option.{Option, none, some}
use mathlib.Core.Path.{◌≡◌, refl}
use native.Mathlib.Omega.{arith}
use app_gate.Base.Moka.{Moka, Table, put, MokaLaws}
use app_gate.Base.Tests.{ltb, if◌then◌else◌}

-- The time to live, and the table.
abbrev pub Store : Type 0 → Type 0
Store V = ℕ × Table V

abbrev alive : {V : Type 0} → ℕ → ℕ → Option (ℕ × V) → Option V
alive ttl now none = none
alive ttl now (some (t, v)) = if ltb now (t + ttl) then some v else none

abbrev pub sample : {V : Type 0} → Moka (Store V) V
sample = record {
  build = λ ttl capacity weigher. (ttl, λ key. none);
  get = λ now key m. (alive m.0 now (m.1 key), m);
  insert = λ now key v m. (m.0, put key (some (now, v)) m.1);
  invalidate = λ key m. (m.0, put key none m.1);
  invalidate_all = λ m. (m.0, λ key. none);
  entry_count = λ m. 0;
}

alive-some :
    {V : Type 0} (ttl now : ℕ) (o : Option (ℕ × V)) (v : V)
    → alive ttl now o ≡ some v
    → (t : ℕ) × (o ≡ some (t, v)) × (now < t + ttl)
alive-some ttl now none v h = cc
alive-some ttl now (some (t, w)) v h = (t, ground arith, ground arith)

pub sample-MokaLaws : {V : Type 0} → MokaLaws (sample {V = V})
sample-MokaLaws = record {
  Holds = λ ttl m table. (m.0 ≡ ttl) × (m.1 ≡ table);
  builds = λ ttl capacity weigher. (refl, refl);
  gets = λ ttl now key v m table h got. alive-some ttl now (table key) v (cc);
  keeps = λ ttl now key m table h. h;
  inserts = λ ttl now key v m table h. (h.0, cc);
  invalidates = λ ttl key m table h. (h.0, cc);
  clears = λ ttl m table h. (h.0, refl);
}
