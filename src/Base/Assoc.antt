-- ===== src/Base/Assoc.antt =====
-- `HashMap<String, V>` as an association list with the entry of each key once. The order of the
-- entries stands for the unspecified order of iteration.
use Prim.Native.String.{String}
use mathlib.Core.Path.{◌≡◌, refl}
use mathlib.Core.Option
use mathlib.Core.Option.{Option, none, some}
use mathlib.Core.List.{List, [], ◌∷◌, map}
use native.Mathlib.Omega.{arith}
use text.Mathlib.Text.{◌==◌}
use text.Mathlib.TextEquality.{eq_iff}
use app_gate.Base.Tests.{if◌then◌else◌}

module _ {ℓ} {V : Type ℓ} where
  -- `map.keys()`
  unfoldable pub keys : List (String × V) → List String
  keys entries = map (λ entry. entry.0) entries

  -- `if let Some(v) = map.get_mut(key) { … }`: nothing happens at an absent key.
  unfoldable pub modify : String → (V → V) → List (String × V) → List (String × V)
  modify key change [] = []
  modify key change ((name, old) ∷ rest) =
      if name == key then (name, change old) ∷ rest else (name, old) ∷ modify key change rest

  -- `map.get(key)`
  unfoldable pub lookup : String → List (String × V) → Option V
  lookup key [] = none
  lookup key ((name, found) ∷ rest) = if name == key then some found else lookup key rest

  pub lookup-modify :
      (key asked : String) (change : V → V) (entries : List (String × V))
      → lookup asked (modify key change entries)
        ≡ (if key == asked then Option.map change (lookup asked entries) else lookup asked entries)
  unfolding lookup modify
  lookup-modify key asked change [] = ground arith
  lookup-modify key asked change ((name, old) ∷ rest) =
      let later = lookup-modify key asked change rest in
      ground (arith, later, eq_iff name key, eq_iff name asked, eq_iff key asked)

  -- `map.insert(key, new)`: a present key keeps its place.
  unfoldable pub insert : String → V → List (String × V) → List (String × V)
  insert key new [] = (key, new) ∷ []
  insert key new ((name, old) ∷ rest) =
      if name == key then (key, new) ∷ rest else (name, old) ∷ insert key new rest

  pub lookup-insert :
      (key asked : String) (new : V) (entries : List (String × V))
      → lookup asked (insert key new entries)
        ≡ (if key == asked then some new else lookup asked entries)
  unfolding insert lookup
  lookup-insert key asked new [] = refl
  lookup-insert key asked new ((name, old) ∷ rest) =
      let later = lookup-insert key asked new rest in
      ground (arith, later, eq_iff name key, eq_iff name asked, eq_iff key asked)
