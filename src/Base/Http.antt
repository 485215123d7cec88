-- ===== src/Base/Http.antt =====
-- HTTP messages as values, and the third-party crates that build and send them as parameters.
-- A body is its bytes. A builder is the list of the pieces it was given, in order; what the crate
-- accepts of them is the interface `HttpCrate`, with its documented behaviour in `HttpLaws`.
pub mod Strict
use Prim.Native.Char.{code}
use Prim.Native.Nat.{ℕ, ◌+◌, ◌/◌, ◌%◌, ◌≤◌, ◌<◌}
use Prim.Native.String
use Prim.Native.String.{String}
use mathlib.Core.Path.{◌≡◌}
use mathlib.Core.Bool.{Bool, true, false, ◌&&◌, ◌||◌}
use mathlib.Core.Option.{Option, none, some}
use mathlib.Core.List.{List, [], ◌∷◌, ◌++◌}
use app_gate.Base.Tests.{ltb, leb, nat_eq, if◌then◌else◌}
use app_gate.Base.Result.{Result, ok}

abbrev pub Bytes : Type 0
Bytes = List ℕ

-- The UTF-8 encoding of one code point.
abbrev encode : ℕ → Bytes
encode c =
    if ltb c 0x80
    then c ∷ []
    else if ltb c 0x800
    then (0xc0 + c / 64) ∷ (0x80 + c % 64) ∷ []
    else if ltb c 0x10000
    then (0xe0 + c / 4096) ∷ (0x80 + c / 64 % 64) ∷ (0x80 + c % 64) ∷ []
    else (0xf0 + c / 262144) ∷ (0x80 + c / 4096 % 64) ∷ (0x80 + c / 64 % 64) ∷ (0x80 + c % 64) ∷ []

-- `Bytes::from` of a text.
unfoldable pub bytes_of : String → Bytes
bytes_of String.[] = []
bytes_of (String.◌∷◌ c s) = encode (code c) ++ bytes_of s

abbrev pub Headers : Type 0
Headers = List (String × String)

pub record Response : Type 0 where
  pub status : ℕ
  pub headers : Headers
  pub body : Bytes

-- A request as a handler receives it: reading the body can fail.
pub record Request : Type 0 where
  pub method : String
  pub path : String
  pub query : Option String
  pub headers : Headers
  pub body : Result Bytes String

-- A request that a handler builds: `Request<Full<Bytes>>`.
pub record FullRequest : Type 0 where
  pub method : String
  pub uri : String
  pub headers : Headers
  pub body : Bytes

-- What is sent upstream, and what comes back.
pub record UpstreamRequest : Type 0 where
  pub method : String
  pub url : String
  pub headers : Headers
  pub body : Bytes

pub record UpstreamResponse : Type 0 where
  pub status : ℕ
  pub headers : Headers
  pub body : Result Bytes String

-- `client.execute`: the transport, with the text of its error.
abbrev pub Send : Type 0
Send = UpstreamRequest → Result UpstreamResponse String

pub record HttpCrate : Type 0 where
  -- A header's name and value are accepted by a builder.
  pub header_ok : String → String → Bool
  -- `to_str` of a header's value succeeds.
  pub to_str : String → Bool
  -- `Method::from_bytes`, with the text of its error.
  pub from_bytes : String → Result String String
  -- `Uri` accepts the text.
  pub uri_ok : String → Bool
  pub from_u16 : ℕ → Option ℕ

-- A letter, a digit or a dash of a name in lower case.
abbrev token_code : ℕ → Bool
token_code c = leb b'a' c && leb c b'z' || leb b'0' c && leb c b'9' || nat_eq c b'-'

abbrev token_rest : String → Bool
token_rest String.[] = true
token_rest (String.◌∷◌ c s) = token_code (code c) && token_rest s

-- A token in lower case, which is not empty, and visible ASCII.
unfoldable pub is_token : String → Bool
is_token String.[] = false
is_token (String.◌∷◌ c s) = token_code (code c) && token_rest s

unfoldable pub is_visible : String → Bool
is_visible String.[] = true
is_visible (String.◌∷◌ c s) = (leb 32 (code c) && ltb (code c) 127) && is_visible s

pub record HttpLaws (http : HttpCrate) : Type 0 where
  pub plain_header :
      (name value : String)
      → is_token name ≡ true
      → is_visible value ≡ true
      → http.header_ok name value ≡ true
  -- A builder takes what `to_str` could read.
  pub readable_header :
      (name value : String)
      → is_token name ≡ true
      → http.to_str value ≡ true
      → http.header_ok name value ≡ true
  pub method_text : (m n : String) → http.from_bytes m ≡ ok n → n ≡ m
  pub valid_status : (n : ℕ) → 100 ≤ n → n < 1000 → http.from_u16 n ≡ some n

-- `StatusCode::from_u16(…).unwrap_or(StatusCode::BAD_GATEWAY)`
abbrev pub status_or_bad_gateway : Option ℕ → ℕ
status_or_bad_gateway none = 502
status_or_bad_gateway (some status) = status

-- `Response::builder()` and its methods.
pub record Builder : Type 0 where
  pub status : ℕ
  pub headers : Headers

abbrev pub builder : Builder
builder = record { status = 200; headers = [] }

abbrev pub with_status : ℕ → Builder → Builder
with_status status b = record b { status = status }

abbrev pub with_header : String → String → Builder → Builder
with_header name value b = record b { headers = b.headers ++ (name, value) ∷ [] }

abbrev pub headers_ok : HttpCrate → Headers → Bool
headers_ok http [] = true
headers_ok http ((name, value) ∷ rest) = http.header_ok name value && headers_ok http rest

-- `.body(…)`: nothing if a piece was refused, which `.unwrap()` turns into a panic.
unfoldable pub with_body : HttpCrate → Bytes → Builder → Option Response
with_body http body b =
    if headers_ok http b.headers
    then some (record { status = b.status; headers = b.headers; body = body })
    else none

-- `.body(…).unwrap_or_else(…)` of the proxies: a refused piece gives a bare 500.
abbrev pub or_bare_500 : Option Response → Response
or_bare_500 (some r) = r
or_bare_500 none = record { status = 500; headers = []; body = bytes_of "{}" }
