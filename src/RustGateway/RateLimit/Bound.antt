-- ===== src/RustGateway/RateLimit/Bound.antt =====
-- How many requests of one identity several workers can let in together.
use mathlib.Core.Path.{subst}
use app_gate.Base.{
  replicate, length-replicate, Bool-cases, inl, inr, ℕ, zero, suc, ◌+◌, ◌≤◌, ◌<◌, String, ◌≡◌, refl,
  sym, ap, ◌∙◌, Bool, true, false, List, [], ◌∷◌, ◌++◌, arith, length, length-append, filter, ltb,
  if◌then◌else◌,
}
use app_gate.RustGateway.RateLimit.{Redis, Entries, RedisLaws, lives, key_of, window_start, reaches}
use app_gate.RustGateway.RateLimit.Interleaving.{
  Attempt, Stage, idle, trimmed, passed, added, World, counted, Step, trim, count, add, expire,
  fail, elsewhere, lapse, Reach, here, next,
}

-- The workers that were let through and have not added their request yet.
abbrev weight : Stage → ℕ
weight idle = 0
weight (trimmed r) = 0
weight (passed r) = 1
weight (added r) = 0

abbrev pending : List Stage → ℕ
pending [] = 0
pending (p ∷ ps) = weight p + pending ps

weight_le : (p : Stage) → weight p ≤ 1
weight_le idle = omega arith
weight_le (trimmed r) = omega arith
weight_le (passed r) = omega arith
weight_le (added r) = omega arith

pending-le-length : (ps : List Stage) → pending ps ≤ length ps
pending-le-length [] = omega arith
pending-le-length (p ∷ ps) = omega (arith, weight_le p, pending-le-length ps)

pending-replicate : (k : ℕ) → pending (replicate k idle) ≡ 0
unfolding replicate
pending-replicate zero = refl
pending-replicate (suc k) = omega (arith, pending-replicate k)

pending-middle :
    (before : List Stage) (p : Stage) (after : List Stage)
    → pending (before ++ p ∷ after) ≡ weight p + pending (before ++ after)
pending-middle [] p after = refl
pending-middle (q ∷ before) p after = omega (arith, pending-middle before p after)

length-middle :
    (before : List Stage) (p : Stage) (after : List Stage)
    → length (before ++ p ∷ after) ≡ suc (length (before ++ after))
length-middle [] p after = refl
length-middle (q ∷ before) p after = ap suc (length-middle before p after)

length-filter_le : (f : ℕ × String → Bool) (es : Entries) → length (filter f es) ≤ length es
unfolding filter
length-filter_le f [] = omega arith
length-filter_le f (e ∷ es) = ground (arith, length-filter_le f es)

if_kept : (b : Bool) (es : Entries) → length (if b then es else []) ≤ length es
if_kept true es = omega arith
if_kept false es = omega arith

-- `k` workers, and room for what they may still add.
record IsBounded (k limit size : ℕ) (workers : List Stage) : Type 0 where
  crew : length workers ≡ k
  room : size + pending workers + 1 ≤ limit + k

-- One worker moves to a phase with no more weight than the room that its command leaves.
moved :
    (k limit size size_after : ℕ) (before after : List Stage) (p q : Stage)
    → size_after + weight q ≤ size + weight p
    → IsBounded k limit size (before ++ p ∷ after)
    → IsBounded k limit size_after (before ++ q ∷ after)
moved k limit size size_after before after p q h b =
    let was = pending-middle before p after in
    let is = pending-middle before q after in
    record {
      crew = omega (arith, b.crew, length-middle before p after, length-middle before q after);
      room = omega (arith, b.room, was, is, h);
    }

-- A worker is let through only below the limit, and then there is room for all of them.
counted-IsBounded :
    (k limit size : ℕ) (before after : List Stage) (r : Attempt)
    → limit < 9223372036854775808
    → IsBounded k limit size (before ++ trimmed r ∷ after)
    → IsBounded k limit size (before ++ counted limit size r ∷ after)
counted-IsBounded k limit size before after r small b = elim (Bool-cases (reaches size limit)) [
  | inl full ↦
      subst (λ c. IsBounded k limit size (before ++ (if c then idle else passed r) ∷ after))
        (sym full) (moved k limit size size before after (trimmed r) idle (omega arith) b)
  | inr free ↦
      let below : size < limit = ground (arith, small, free) in
      let crew : length (before ++ passed r ∷ after) ≡ k = omega (
        arith,
        b.crew,
        length-middle before (trimmed r) after,
        length-middle before (passed r) after,
      ) in
      subst (λ c. IsBounded k limit size (before ++ (if c then idle else passed r) ∷ after))
        (sym free)
        (record {
          crew = crew;
          room = omega (arith, below, crew, pending-le-length (before ++ passed r ∷ after));
        })
]

module _ {S : Type 0} (redis : Redis S) (laws : RedisLaws redis) (identity : String)
    (limit : ℕ) where
  abbrev pub size : S → ℕ
  size s = length (laws.entries s (key_of identity))

  abbrev Fits : ℕ → World S → Type 0
  Fits k w = IsBounded k limit (size w.store) w.workers

  -- What a step leaves, once its worker and its command are known.
  lands :
      (k : ℕ) (w u : World S) (t : S) (workers : List Stage)
      → u ≡ record { store = t; workers = workers }
      → IsBounded k limit (size t) workers
      → Fits k u
  lands k w u t workers e b = subst (Fits k) (sym e) b

  Step-Fits :
      (k : ℕ) (w u : World S)
      → limit < 9223372036854775808
      → Step redis laws identity limit w u
      → Fits k w
      → Fits k u
  Step-Fits k w u small (trim before after r t from done to) b =
      let kept = laws.removes (key_of identity) (window_start r.now r.window) w.store t done in
      let fewer : size t ≤ size w.store = omega (
        arith,
        ap length kept,
        length-filter_le (λ e. ltb (window_start r.now r.window) e.0)
            (laws.entries w.store (key_of identity)),
      ) in
      lands k w u t (before ++ trimmed r ∷ after) to (
        moved k limit (size w.store) (size t) before after idle (trimmed r) (omega (arith, fewer))
          (subst (IsBounded k limit (size w.store)) from b))
  Step-Fits k w u small (count before after r n from done to) b =
      let seen : n ≡ size w.store = laws.counts (key_of identity) n w.store done in
      lands k w u w.store (before ++ counted limit n r ∷ after) to (
        subst (λ m. IsBounded k limit (size w.store) (before ++ counted limit m r ∷ after))
          (sym seen)
          (counted-IsBounded k limit (size w.store) before after r small
            (subst (IsBounded k limit (size w.store)) from b)))
  Step-Fits k w u small (add before after r t from fresh done to) b =
      let grown : size t ≡ size w.store + 1 =
        ap length (laws.adds (key_of identity) r.member r.now w.store t fresh done)
        ∙ length-append (laws.entries w.store (key_of identity)) ((r.now, r.member) ∷ []) in
      lands k w u t (before ++ added r ∷ after) to (
        moved k limit (size w.store) (size t) before after (passed r) (added r)
          (omega (arith, grown)) (subst (IsBounded k limit (size w.store)) from b))
  Step-Fits k w u small (expire before after r t from done to) b =
      let fewer : size t ≤ size w.store =
        rw (laws.expires (key_of identity) r.window w.store t done)
          (if_kept (lives r.window) (laws.entries w.store (key_of identity))) in
      lands k w u t (before ++ idle ∷ after) to (
        moved k limit (size w.store) (size t) before after (added r) idle (omega (arith, fewer))
          (subst (IsBounded k limit (size w.store)) from b))
  Step-Fits k w u small (fail before after p from to) b =
      lands k w u w.store (before ++ idle ∷ after) to (
        moved k limit (size w.store) (size w.store) before after p idle (omega arith)
          (subst (IsBounded k limit (size w.store)) from b))
  Step-Fits k w u small (elsewhere t same to) b =
      lands k w u t w.workers to
        (subst (λ n. IsBounded k limit n w.workers) (sym (ap length same)) b)
  Step-Fits k w u small (lapse t gone to) b =
      let none_left : size t ≡ 0 = ap length gone in
      lands k w u t w.workers to (record { crew = b.crew; room = omega (arith, none_left, b.room) })

  Reach-Fits :
      (k : ℕ) (w u : World S)
      → limit < 9223372036854775808
      → Fits k w
      → Reach redis laws identity limit w u
      → Fits k u
  Reach-Fits k w u small b (here) = b
  Reach-Fits k w u small b (next {u = v} r st) =
      Step-Fits k v u small st (Reach-Fits k w v small b r)

  -- If `k` workers are between their checks and no more entries than the limit are stored, then
  -- whatever the workers do, in any order of their commands, fewer than limit + k entries are
  -- stored at any time, for a limit below 2 ^ 63.
  pub Reach-bounded :
      (k : ℕ) (w u : World S)
      → limit < 9223372036854775808
      → 0 < k
      → w.workers ≡ replicate k idle
      → size w.store ≤ limit
      → Reach redis laws identity limit w u
      → size u.store < limit + k
  Reach-bounded k w u small some_worker quiet start r =
      let crew : length w.workers ≡ k = ap length quiet ∙ length-replicate k idle in
      let none_yet : pending w.workers ≡ 0 = ap pending quiet ∙ pending-replicate k in
      let fits : Fits k w = record {
        crew = crew;
        room = omega (arith, some_worker, none_yet, start);
      } in
      omega (arith, (Reach-Fits k w u small fits r).room)
