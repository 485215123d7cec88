-- ===== src/RustGateway/RateLimit/Interleaving.antt =====
-- The checks of rust-gateway/src/rate_limit.rs as several workers make them at once: each command
-- is one step, and the commands of the workers follow each other in any order.
use app_gate.Base.{ℕ, String, ◌≡◌, List, [], ◌∷◌, ◌++◌, if◌then◌else◌}
use app_gate.Base.Result.{ok}
use app_gate.RustGateway.RateLimit.{Redis, IsFresh, RedisLaws, key_of, window_start, reaches}

-- What one check is told: the member that it would add, its time and its window.
pub record Attempt : Type 0 where
  pub member : String
  pub now : ℕ
  pub window : ℕ

-- Where a worker stands: between two checks, before ZCARD, before ZADD, before EXPIRE.
pub data Stage : Type 0 where
  idle : Stage
  trimmed passed added : Attempt → Stage

pub record World (S : Type 0) : Type 0 where
  pub store : S
  pub workers : List Stage

-- After the count: the check ends at the limit, and goes on below it.
abbrev pub counted : ℕ → ℕ → Attempt → Stage
counted limit n r = if reaches n limit then idle else passed r

module _ {S : Type 0} (redis : Redis S) (laws : RedisLaws redis) (identity : String)
    (limit : ℕ) where
  -- One command of one worker, which stands behind `before`. A worker may fail at any point, also
  -- after a command that was carried out; the commands for other keys leave this one alone, and
  -- the server drops the key when its time is over.
  pub data Step (w u : World S) : Type 0 where
    trim :
        (before after : List Stage) (r : Attempt) (t : S)
        → w.workers ≡ before ++ idle ∷ after
        → redis.zremrangebyscore (key_of identity) 0 (window_start r.now r.window) w.store ≡ ok t
        → u ≡ record { store = t; workers = before ++ trimmed r ∷ after }
        → Step w u
    count :
        (before after : List Stage) (r : Attempt) (n : ℕ)
        → w.workers ≡ before ++ trimmed r ∷ after
        → redis.zcard (key_of identity) w.store ≡ ok n
        → u ≡ record { store = w.store; workers = before ++ counted limit n r ∷ after }
        → Step w u
    add :
        (before after : List Stage) (r : Attempt) (t : S)
        → w.workers ≡ before ++ passed r ∷ after
        → IsFresh r.member (laws.entries w.store (key_of identity))
        → redis.zadd (key_of identity) r.now r.member w.store ≡ ok t
        → u ≡ record { store = t; workers = before ++ added r ∷ after }
        → Step w u
    expire :
        (before after : List Stage) (r : Attempt) (t : S)
        → w.workers ≡ before ++ added r ∷ after
        → redis.expire (key_of identity) r.window w.store ≡ ok t
        → u ≡ record { store = t; workers = before ++ idle ∷ after }
        → Step w u
    fail :
        (before after : List Stage) (p : Stage)
        → w.workers ≡ before ++ p ∷ after
        → u ≡ record { store = w.store; workers = before ++ idle ∷ after }
        → Step w u
    elsewhere :
        (t : S)
        → laws.entries t (key_of identity) ≡ laws.entries w.store (key_of identity)
        → u ≡ record { store = t; workers = w.workers }
        → Step w u
    lapse :
        (t : S)
        → laws.entries t (key_of identity) ≡ []
        → u ≡ record { store = t; workers = w.workers }
        → Step w u

  pub data Reach (w : World S) : World S → Type 0 where
    here : Reach w w
    next : {u v : World S} → Reach w u → Step u v → Reach w v
