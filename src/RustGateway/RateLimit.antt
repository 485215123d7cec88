-- ===== src/RustGateway/RateLimit.antt =====
-- rust-gateway/src/rate_limit.rs: the check against Redis. The server is a parameter: its four
-- commands, and what its documentation says of them in `RedisLaws`. The time and the identifier
-- `uuid` are arguments. The local limiter is a third-party one that ignores the identity. An error
-- ends the check, and what the store holds then is not looked at.
pub mod Window
pub mod Interleaving
pub mod Bound
pub mod Sequential
pub mod Service
pub mod Local
mod Tests
use app_gate.Base.{
  ℕ, ◌+◌, ◌-◌, ◌*◌, ◌%◌, ◌<◌, String, ◌≡◌, ◌≢◌, Bool, true, false, Option, none, some, List, [],
  ◌∷◌, ◌++◌, ◌+++◌, All, length, filter, leb, ltb, if◌then◌else◌,
}
use app_gate.Base.Result.{Result, ok, err, ◌>>=◌}
use app_gate.Base.Words.{u64}

-- A store of type `S`, and the connection to it: each command can fail.
pub record Redis (S : Type 0) : Type 0 where
  pub zremrangebyscore : String → ℕ → ℕ → S → Result S String
  pub zcard : String → S → Result ℕ String
  pub zadd : String → ℕ → String → S → Result S String
  pub expire : String → ℕ → S → Result S String

abbrev pub Entries : Type 0
Entries = List (ℕ × String)

-- A member that the set does not have.
abbrev pub IsFresh : String → Entries → Type 0
IsFresh member entries = All (λ e. e.1 ≢ member) entries

-- EXPIRE deletes the key at a number of seconds, a signed one of 64 bits, that is not positive.
abbrev pub lives : ℕ → Bool
lives secs = if ltb 0 secs then ltb secs 9223372036854775808 else false

-- `entries` shows the sorted set at a key: its scores and members.
pub record RedisLaws {S : Type 0} (redis : Redis S) : Type 0 where
  pub entries : S → String → Entries
  pub removes :
      (key : String) (max : ℕ) (s t : S)
      → redis.zremrangebyscore key 0 max s ≡ ok t
      → entries t key ≡ filter (λ e. ltb max e.0) (entries s key)
  pub counts :
      (key : String) (n : ℕ) (s : S) → redis.zcard key s ≡ ok n → n ≡ length (entries s key)
  pub adds :
      (key member : String) (score : ℕ) (s t : S)
      → IsFresh member (entries s key)
      → redis.zadd key score member s ≡ ok t
      → entries t key ≡ entries s key ++ (score, member) ∷ []
  pub expires :
      (key : String) (secs : ℕ) (s t : S)
      → redis.expire key secs s ≡ ok t
      → entries t key ≡ (if lives secs then entries s key else [])

abbrev pub key_of : String → String
key_of identity = "ratelimit:" +++ identity

-- `now.saturating_sub(window * 1000)`
abbrev pub window_start : ℕ → ℕ → ℕ
window_start now window = now - u64 (window * 1000)

-- `count >= limit as i64`: a limit of 2 ^ 63 or more becomes a negative number.
abbrev pub reaches : ℕ → ℕ → Bool
reaches count limit = if ltb limit 9223372036854775808 then leb limit count else true

module _ {S : Type 0} (redis : Redis S) where
  -- The commands that add a request.
  abbrev add : String → String → ℕ → ℕ → S → Result (Bool × S) String
  add identity member now window s = redis.zadd (key_of identity) now member s >>= λ t.
      redis.expire (key_of identity) window t >>= λ u. ok (true, u)

  -- What the check does once it has counted.
  abbrev admit : String → String → ℕ → ℕ → ℕ → ℕ → S → Result (Bool × S) String
  admit identity member now limit window count s =
      if reaches count limit then ok (false, s) else add identity member now window s

  -- `check_redis`, with the member that it would add and the store that it leaves.
  unfoldable pub check_redis : String → String → ℕ → ℕ → ℕ → S → Result (Bool × S) String
  check_redis identity member now limit window s =
      redis.zremrangebyscore (key_of identity) 0 (window_start now window) s >>= λ t.
      redis.zcard (key_of identity) t >>= λ count. admit identity member now limit window count t
