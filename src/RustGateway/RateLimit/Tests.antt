-- ===== src/RustGateway/RateLimit/Tests.antt =====
-- A server with one sorted set, and the theorems at it.
use mathlib.Core.Bool.{false≢true}
use app_gate.Base.{
  String, List, some, inr, ◌==◌, replicate, eq_iff, sym, ◌∙◌, false, ◌≢◌, ◌+◌, ◌<◌, ◌≡◌, refl, [],
  ◌∷◌, ◌++◌, arith, length, filter, ltb, if◌then◌else◌,
}
use app_gate.Base.Governor.{countdown, grants, per_second}
use app_gate.Base.Result.{ok, err, ◌>>=◌}
use app_gate.RustGateway.RateLimit.{Redis, Entries, RedisLaws, lives}
use app_gate.RustGateway.RateLimit.Interleaving.{
  Attempt, Stage, idle, trimmed, passed, added, World, Step, trim, count, add, Reach, here, next,
}
use app_gate.RustGateway.RateLimit.Bound.{Reach-bounded}
use app_gate.RustGateway.RateLimit.Local.{answers, new-answers}
use app_gate.RustGateway.RateLimit.Service.{Check, new}

abbrev redis : Redis Entries
redis = record {
  zremrangebyscore = λ key min max s. ok (filter (λ e. ltb max e.0) s);
  zcard = λ key s. ok (length s);
  zadd = λ key score member s. ok (s ++ (score, member) ∷ []);
  expire = λ key secs s. ok (if lives secs then s else []);
}

redis-RedisLaws : RedisLaws redis
redis-RedisLaws = record {
  entries = λ s key. s;
  removes = λ key max s t h. cc;
  counts = λ key n s h. cc;
  adds = λ key member score s t fresh h. cc;
  expires = λ key secs s t h. cc;
}

-- Of the two requests of the last ten seconds one is older than the window.
abbrev stored : Entries
stored = (1000, "a") ∷ (9000, "b") ∷ []

differ : (x y : String) → (x == y) ≡ false → x ≢ y
differ x y h e = false≢true (sym h ∙ (eq_iff x y).1 e)

abbrev checked : Entries
checked = (9000, "b") ∷ (10000, "c") ∷ []

-- One worker adds its request, and the other has counted before that and adds its own.
abbrev by_c : Attempt
by_c = record { member = "c"; now = 10000; window = 5 }

abbrev by_d : Attempt
by_d = record { member = "d"; now = 10001; window = 5 }

abbrev trimmed_both : Entries
trimmed_both = (9000, "b") ∷ []

abbrev three : Entries
three = (9000, "b") ∷ (10000, "c") ∷ (10001, "d") ∷ []

abbrev world : Entries → Stage → Stage → World Entries
world s p q = record { store = s; workers = p ∷ q ∷ [] }

abbrev LeadsTo : World Entries → World Entries → Type 0
LeadsTo w u = Step redis redis-RedisLaws "u" 2 w u

first_trim : LeadsTo (world stored idle idle) (world trimmed_both (trimmed by_c) idle)
unfolding filter
first_trim = trim [] (idle ∷ []) by_c trimmed_both refl refl refl

first_count :
    LeadsTo (world trimmed_both (trimmed by_c) idle) (world trimmed_both (passed by_c) idle)
first_count = count [] (idle ∷ []) by_c 1 refl refl refl

second_trim :
    LeadsTo
      (world trimmed_both (passed by_c) idle)
      (world trimmed_both (passed by_c) (trimmed by_d))
unfolding filter
second_trim = trim (passed by_c ∷ []) [] by_d trimmed_both refl refl refl

second_count :
    LeadsTo
      (world trimmed_both (passed by_c) (trimmed by_d))
      (world trimmed_both (passed by_c) (passed by_d))
second_count = count (passed by_c ∷ []) [] by_d 1 refl refl refl

first_add :
    LeadsTo
      (world trimmed_both (passed by_c) (passed by_d))
      (world checked (added by_c) (passed by_d))
unfolding redis-RedisLaws
first_add = add [] (passed by_d ∷ []) by_c checked refl (differ "b" "c" refl, tt) refl refl

second_add :
    LeadsTo (world checked (added by_c) (passed by_d)) (world three (added by_c) (added by_d))
unfolding redis-RedisLaws
second_add =
    add (added by_c ∷ []) [] by_d three refl (differ "b" "d" refl, (differ "c" "d" refl, tt)) refl
      refl

both_added :
    Reach redis redis-RedisLaws "u" 2
      (world stored idle idle)
      (world three (added by_c) (added by_d))
both_added =
    next
      (next (next (next (next (next here first_trim) first_count) second_trim) second_count)
        first_add)
      second_add

Reach-bounded_example : length three < 2 + 2
unfolding redis-RedisLaws replicate
Reach-bounded_example =
    Reach-bounded redis redis-RedisLaws "u" 2 2 (world stored idle idle)
      (world three (added by_c) (added by_d)) (omega arith) (omega arith) refl (omega arith)
      both_added

abbrev checks : List Check
checks =
    record { identity = "u"; limit = 0; window = 1; now = 5; member = "m" }
    ∷ record { identity = "v"; limit = 9; window = 1; now = 6; member = "n" }
    ∷ []

new-answers_example :
    (new redis countdown (λ url. err "no server") (some "") >>= answers redis countdown checks)
    ≡ ok (grants countdown (5 ∷ 6 ∷ []) (countdown.direct (per_second 1000)))
new-answers_example =
    new-answers redis countdown (λ url. err "no server") (some "") checks (inr refl)
