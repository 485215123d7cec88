-- ===== src/Base/Json.antt =====
-- JSON objects as far as the claims of a token need them, and how serde reads the fields of a
-- derived structure: a field of an `Option` type may be missing or null, another may not, and an
-- unknown one is ignored. An object is taken to have each field once.
use Prim.Native.Nat.{ℕ}
use Prim.Native.String.{String}
use mathlib.Core.Option.{Option, none, some}
use mathlib.Core.List.{List}
use mathlib.Core.Path.{◌≡◌, refl, ap, ◌∙◌}
use app_gate.Base.Assoc.{lookup}
use app_gate.Base.Result.{Result, ok, err, ◌>>=◌}

-- `texts` is an array of strings, and `other` every value that no claim can have.
pub data Value : Type 0 where
  null other : Value
  number : ℕ → Value
  text : String → Value
  texts : List String → Value

abbrev pub Object : Type 0
Object = List (String × Value)

abbrev pub Reader : Type 0 → Type 0
Reader A = Value → Result A String

abbrev pub read_number : Reader ℕ
read_number (number n) = ok n
read_number null = err "invalid type"
read_number other = err "invalid type"
read_number (text s) = err "invalid type"
read_number (texts ss) = err "invalid type"

abbrev pub read_text : Reader String
read_text (text s) = ok s
read_text null = err "invalid type"
read_text other = err "invalid type"
read_text (number n) = err "invalid type"
read_text (texts ss) = err "invalid type"

abbrev pub read_texts : Reader (List String)
read_texts (texts ss) = ok ss
read_texts null = err "invalid type"
read_texts other = err "invalid type"
read_texts (number n) = err "invalid type"
read_texts (text s) = err "invalid type"

-- A field of an `Option` type.
abbrev pub read_option : {A : Type 0} → Reader A → Reader (Option A)
read_option read null = ok none
read_option read other = read other >>= λ a. ok (some a)
read_option read (number n) = read (number n) >>= λ a. ok (some a)
read_option read (text s) = read (text s) >>= λ a. ok (some a)
read_option read (texts ss) = read (texts ss) >>= λ a. ok (some a)

abbrev pub present : {A : Type 0} → Reader A → Option Value → Result A String
present read none = err "missing field"
present read (some v) = read v

abbrev pub present_or_none : {A : Type 0} → Reader A → Option Value → Result (Option A) String
present_or_none read none = ok none
present_or_none read (some v) = read_option read v

unfoldable pub required : {A : Type 0} → Reader A → String → Object → Result A String
required read name object = present read (lookup name object)

unfoldable pub optional : {A : Type 0} → Reader A → String → Object → Result (Option A) String
optional read name object = present_or_none read (lookup name object)

present-some :
    {A : Type 0} (read : Reader A) (o : Option Value) (a : A)
    → present read o ≡ ok a
    → (v : Value) × (o ≡ some v) × (read v ≡ ok a)
present-some read none a h = cc
present-some read (some v) a h = (v, refl, h)

-- A field that was read is there, with the value it was read from.
pub required-lookup :
    {A : Type 0} (read : Reader A) (name : String) (object : Object) (a : A)
    → required read name object ≡ ok a
    → (v : Value) × (lookup name object ≡ some v) × (read v ≡ ok a)
unfolding required
required-lookup read name object a h = present-some read (lookup name object) a h

read_text-text : (v : Value) (s : String) → read_text v ≡ ok s → v ≡ text s
read_text-text (text t) s h = cc
read_text-text null s h = cc
read_text-text other s h = cc
read_text-text (number n) s h = cc
read_text-text (texts ss) s h = cc

read_number-number : (v : Value) (n : ℕ) → read_number v ≡ ok n → v ≡ number n
read_number-number (number m) n h = cc
read_number-number null n h = cc
read_number-number other n h = cc
read_number-number (text s) n h = cc
read_number-number (texts ss) n h = cc

pub required-text :
    (name : String) (object : Object) (s : String)
    → required read_text name object ≡ ok s
    → lookup name object ≡ some (text s)
required-text name object s h =
    let (v, found, read) = required-lookup read_text name object s h in
    found ∙ ap some (read_text-text v s read)

pub required-number :
    (name : String) (object : Object) (n : ℕ)
    → required read_number name object ≡ ok n
    → lookup name object ≡ some (number n)
required-number name object n h =
    let (v, found, read) = required-lookup read_number name object n h in
    found ∙ ap some (read_number-number v n read)
