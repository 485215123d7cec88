-- ===== src/RustGateway/RateLimit/Sequential.antt =====
-- `check_redis` as a sequence of the commands of one worker.
use mathlib.Core.Path.{subst}
use app_gate.Base.{
  ℕ, String, ◌≡◌, refl, sym, ap, Bool, true, false, List, ◌∷◌, ◌++◌, ltb, if◌then◌else◌,
}
use app_gate.Base.Result.{Result, ok, ◌>>=◌, ok_of_bind, ok_inj}
use app_gate.RustGateway.RateLimit.{
  Redis, IsFresh, RedisLaws, key_of, window_start, reaches, check_redis,
}
use app_gate.RustGateway.RateLimit.Interleaving.{
  Attempt, Stage, idle, passed, World, trim, count, add, expire, Reach, here, next,
}
use app_gate.RustGateway.RateLimit.Window.{filter-IsFresh}

module _ {S : Type 0} (redis : Redis S) (laws : RedisLaws redis) (identity : String) (limit : ℕ)
    (before after : List Stage) (r : Attempt) where
  abbrev at : S → Stage → World S
  at s p = record { store = s; workers = before ++ p ∷ after }

  abbrev PathTo : S → S → Stage → Type 0
  PathTo s t p = Reach redis laws identity limit (at s idle) (at t p)

  -- The commands after the count.
  after_count :
      (s u t : S) (full admitted : Bool)
      → IsFresh r.member (laws.entries u (key_of identity))
      → if◌then◌else◌ {A = Result (Bool × S) String} full (ok (false, u)) (
          redis.zadd (key_of identity) r.now r.member u >>= λ v.
          redis.expire (key_of identity) r.window v >>= λ w. ok (true, w))
        ≡ ok (admitted, t)
      → PathTo s u (if full then idle else passed r)
      → PathTo s t idle
  after_count s u t true admitted fresh h path =
      subst (λ v. PathTo s v idle) (ap (λ p. p.1) (ok_inj h)) path
  after_count s u t false admitted fresh h path =
      let (v, stored, rest) =
        ok_of_bind (redis.zadd (key_of identity) r.now r.member u) _ (admitted, t) h in
      let (w, kept, last) =
        ok_of_bind (redis.expire (key_of identity) r.window v) _ (admitted, t) rest in
      subst (λ x. PathTo s x idle) (ap (λ p. p.1) (ok_inj last))
        (next (next path (add before after r v refl fresh stored refl))
          (expire before after r w refl kept refl))

  -- A check that is answered is a sequence of steps of its worker, from one rest to the next.
  pub check_redis-Reach :
      (s t : S) (admitted : Bool)
      → IsFresh r.member (laws.entries s (key_of identity))
      → check_redis redis identity r.member r.now limit r.window s ≡ ok (admitted, t)
      → PathTo s t idle
  unfolding check_redis
  check_redis-Reach s t admitted fresh h =
      let key = key_of identity in
      let (u, removed, rest) =
        ok_of_bind (redis.zremrangebyscore key 0 (window_start r.now r.window) s) _ (admitted, t)
          h in
      let (n, seen, last) = ok_of_bind (redis.zcard key u) _ (admitted, t) rest in
      let kept = laws.removes key (window_start r.now r.window) s u removed in
      let fresh_kept =
        filter-IsFresh r.member (λ e. ltb (window_start r.now r.window) e.0) (laws.entries s key)
          fresh in
      after_count s u t (reaches n limit) admitted (subst (IsFresh r.member) (sym kept) fresh_kept)
        last
        (next (next here (trim before after r u refl removed refl))
          (count before after r n refl seen refl))
