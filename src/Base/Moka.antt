-- ===== src/Base/Moka.antt =====
-- The third-party cache `moka`: what a client calls of it, and its documentation as laws. A cache
-- may drop an entry at any time; what it answers was inserted last under the key, after the last
-- invalidation, and less than its time to live ago.
pub mod Sample
use Prim.Native.Nat.{ℕ, ◌+◌, ◌<◌}
use Prim.Native.String.{String}
use mathlib.Core.Option.{Option, none, some}
use mathlib.Core.Path.{◌≡◌}
use text.Mathlib.Text.{◌==◌}
use app_gate.Base.Tests.{if◌then◌else◌}

-- A cache of type `M` from texts to `V`. Time is in seconds.
pub record Moka (M V : Type 0) : Type 0 where
  -- The time to live, the capacity, and the weight of an entry.
  pub build : ℕ → ℕ → (String → V → ℕ) → M
  pub get : ℕ → String → M → Option V × M
  pub insert : ℕ → String → V → M → M
  pub invalidate : String → M → M
  pub invalidate_all : M → M
  pub entry_count : M → ℕ

-- What was inserted last under each key, with its time.
abbrev pub Table : Type 0 → Type 0
Table V = String → Option (ℕ × V)

abbrev pub put : {V : Type 0} → String → Option (ℕ × V) → Table V → Table V
put key entry table asked = if key == asked then entry else table asked

-- `Holds ttl cache table`: whatever `cache` still has is in `table`, and lives for `ttl`.
pub record MokaLaws {M V : Type 0} (moka : Moka M V) : Type 1 where
  pub Holds : ℕ → M → Table V → Type 0
  pub builds :
      (ttl capacity : ℕ) (weigher : String → V → ℕ)
      → Holds ttl (moka.build ttl capacity weigher) (λ key. none)
  pub gets :
      (ttl now : ℕ) (key : String) (v : V) (m : M) (table : Table V)
      → Holds ttl m table
      → (moka.get now key m).0 ≡ some v
      → (t : ℕ) × (table key ≡ some (t, v)) × (now < t + ttl)
  pub keeps :
      (ttl now : ℕ) (key : String) (m : M) (table : Table V)
      → Holds ttl m table
      → Holds ttl (moka.get now key m).1 table
  pub inserts :
      (ttl now : ℕ) (key : String) (v : V) (m : M) (table : Table V)
      → Holds ttl m table
      → Holds ttl (moka.insert now key v m) (put key (some (now, v)) table)
  pub invalidates :
      (ttl : ℕ) (key : String) (m : M) (table : Table V)
      → Holds ttl m table
      → Holds ttl (moka.invalidate key m) (put key none table)
  pub clears :
      (ttl : ℕ) (m : M) (table : Table V)
      → Holds ttl m table
      → Holds ttl (moka.invalidate_all m) (λ key. none)
