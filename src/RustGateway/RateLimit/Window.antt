-- ===== src/RustGateway/RateLimit/Window.antt =====
-- How many requests of one identity a window of rust-gateway/src/rate_limit.rs admits.
use app_gate.Base.{
  ℕ, ◌+◌, ◌≤◌, ◌<◌, String, ◌≡◌, refl, sym, ap, ◌∙◌, Bool, true, false, not, [], ◌∷◌, ◌++◌, arith,
  length, length-append, filter, ltb, if◌then◌else◌,
}
use app_gate.Base.Result.{Result, ok, ok_of_bind}
use app_gate.RustGateway.RateLimit.{
  Redis, Entries, IsFresh, RedisLaws, lives, key_of, window_start, reaches, add, admit, check_redis,
}

-- The entries that are younger than the window.
abbrev pub recent : ℕ → ℕ → Entries → Entries
recent now window entries = filter (λ e. ltb (window_start now window) e.0) entries

pub filter-IsFresh :
    (member : String) (p : ℕ × String → Bool) (entries : Entries)
    → IsFresh member entries
    → IsFresh member (filter p entries)
unfolding filter
filter-IsFresh member p [] h = h
filter-IsFresh member p (e ∷ es) (h, hs) = ground (arith, filter-IsFresh member p es hs)

ok_inj :
    {A : Type 0} {a b : A} {c d : Bool}
    → Path (Result (Bool × A) String) (ok (c, a)) (ok (d, b))
    → (c ≡ d) × (a ≡ b)
ok_inj h = (cc, cc)

module _ {S : Type 0} (redis : Redis S) (laws : RedisLaws redis) where
  -- The entries of an identity after a check that saw `kept`, and whether it was admitted.
  pub record Outcome (identity member : String) (now limit window : ℕ) (kept : Entries)
      (admitted : Bool) (t : S) : Type 0 where
    pub decision : admitted ≡ not (reaches (length kept) limit)
    pub entries_after :
        laws.entries t (key_of identity)
        ≡ (if admitted then (if lives window then kept ++ (now, member) ∷ [] else []) else kept)

  refused :
      (identity member : String) (now limit window : ℕ) (s t : S) (admitted : Bool)
      → reaches (length (laws.entries s (key_of identity))) limit ≡ true
      → Path (Result (Bool × S) String) (ok (false, s)) (ok (admitted, t))
      → Outcome identity member now limit window (laws.entries s (key_of identity)) admitted t
  refused identity member now limit window s t admitted full h =
      let (is_no, same) = ok_inj h in
      record {
        decision = sym is_no ∙ ap not (sym full);
        entries_after =
            ap (λ u. laws.entries u (key_of identity)) (sym same)
            ∙ ap
                (λ b.
                  if b
                  then (if lives window
                      then laws.entries s (key_of identity) ++ (now, member) ∷ []
                      else [])
                  else laws.entries s (key_of identity))
                is_no;
      }

  granted :
      (identity member : String) (now limit window : ℕ) (s t : S) (admitted : Bool)
      → IsFresh member (laws.entries s (key_of identity))
      → reaches (length (laws.entries s (key_of identity))) limit ≡ false
      → add redis identity member now window s ≡ ok (admitted, t)
      → Outcome identity member now limit window (laws.entries s (key_of identity)) admitted t
  granted identity member now limit window s t admitted fresh free h =
      let key = key_of identity in
      let (u, added, rest) = ok_of_bind (redis.zadd key now member s) _ (admitted, t) h in
      let (v, expired, last) = ok_of_bind (redis.expire key window u) _ (admitted, t) rest in
      let (is_yes, same) = ok_inj last in
      record {
        decision = sym is_yes ∙ ap not (sym free);
        entries_after =
            ap (λ w. laws.entries w key) (sym same)
            ∙ (laws.expires key window u v expired
                ∙ (ap (λ es. if lives window then es else [])
                      (laws.adds key member now s u fresh added)
                    ∙ ap
                        (λ b.
                          if b
                          then (if lives window
                              then laws.entries s key ++ (now, member) ∷ []
                              else [])
                          else laws.entries s key)
                        is_yes));
      }

  by_count :
      (identity member : String) (now limit window : ℕ) (s t : S) (admitted : Bool)
      → IsFresh member (laws.entries s (key_of identity))
      → (full : Bool) → reaches (length (laws.entries s (key_of identity))) limit ≡ full
      → (if full then ok (false, s) else add redis identity member now window s) ≡ ok (admitted, t)
      → Outcome identity member now limit window (laws.entries s (key_of identity)) admitted t
  by_count identity member now limit window s t admitted fresh true full h =
      refused identity member now limit window s t admitted full h
  by_count identity member now limit window s t admitted fresh false full h =
      granted identity member now limit window s t admitted fresh full h

  admit-Outcome :
      (identity member : String) (now limit window : ℕ) (s t : S) (admitted : Bool)
      → IsFresh member (laws.entries s (key_of identity))
      → admit redis identity member now limit window (length (laws.entries s (key_of identity))) s
        ≡ ok (admitted, t)
      → Outcome identity member now limit window (laws.entries s (key_of identity)) admitted t
  admit-Outcome identity member now limit window s t admitted fresh h =
      by_count identity member now limit window s t admitted fresh _ refl h

  pub check_redis-Outcome :
      (identity member : String) (now limit window : ℕ) (s t : S) (admitted : Bool)
      → IsFresh member (laws.entries s (key_of identity))
      → check_redis redis identity member now limit window s ≡ ok (admitted, t)
      → Outcome identity member now limit window
          (recent now window (laws.entries s (key_of identity)))
          admitted
          t
  unfolding check_redis
  check_redis-Outcome identity member now limit window s t admitted fresh h =
      let key = key_of identity in
      let (u, removed, rest) =
        ok_of_bind (redis.zremrangebyscore key 0 (window_start now window) s) _ (admitted, t) h in
      let (count, counted, last) = ok_of_bind (redis.zcard key u) _ (admitted, t) rest in
      let kept : laws.entries u key ≡ recent now window (laws.entries s key) =
        laws.removes key (window_start now window) s u removed in
      let fresh_kept =
        filter-IsFresh member (λ e. ltb (window_start now window) e.0) (laws.entries s key) fresh in
      let seen =
        sym (
          ap (λ n. admit redis identity member now limit window n u)
            (laws.counts key count u counted))
        ∙ last in
      rw (sym kept)
        (admit-Outcome identity member now limit window u t admitted (rw kept fresh_kept) seen)

  bounded :
      (kept : Entries) (identity member : String) (now limit window : ℕ) (t : S) (admitted : Bool)
      → limit < 9223372036854775808
      → admitted ≡ true
      → Outcome identity member now limit window kept admitted t
      → length (laws.entries t (key_of identity)) ≤ limit
  bounded kept identity member now limit window t admitted h passed o =
      let below : reaches (length kept) limit ≡ false = ground (arith, o.decision) in
      let size = length-append kept ((now, member) ∷ []) in
      rw (o.entries_after, passed)
        (elim (lives window)
          as (λ b. length (if b then kept ++ (now, member) ∷ [] else []) ≤ limit) [
            | true ↦ ground (arith, size, below)
            | false ↦ omega arith
          ])

  -- An admitted request leaves no more entries than the limit, for a limit below 2 ^ 63.
  pub check_redis-bounded :
      (identity member : String) (now limit window : ℕ) (s t : S)
      → limit < 9223372036854775808
      → IsFresh member (laws.entries s (key_of identity))
      → check_redis redis identity member now limit window s ≡ ok (true, t)
      → length (laws.entries t (key_of identity)) ≤ limit
  check_redis-bounded identity member now limit window s t h fresh e =
      bounded (recent now window (laws.entries s (key_of identity))) identity member now limit
        window t true h refl (check_redis-Outcome identity member now limit window s t true fresh e)

  add_entries :
      (identity member : String) (now window : ℕ) (s t : S) (admitted : Bool)
      → lives window ≡ true
      → IsFresh member (laws.entries s (key_of identity))
      → add redis identity member now window s ≡ ok (admitted, t)
      → (admitted ≡ true)
        × (length (laws.entries t (key_of identity))
            ≡ length (laws.entries s (key_of identity)) + 1)
  add_entries identity member now window s t admitted alive fresh h =
      let key = key_of identity in
      let (u, added, rest) = ok_of_bind (redis.zadd key now member s) _ (admitted, t) h in
      let (v, expired, last) = ok_of_bind (redis.expire key window u) _ (admitted, t) rest in
      let (is_yes, same) = ok_inj last in
      (
        sym is_yes,
        ap (λ w. length (laws.entries w key)) (sym same)
            ∙ (ap length (
                  laws.expires key window u v expired
                  ∙ ap (λ b. if b then laws.entries u key else []) alive
                  ∙ laws.adds key member now s u fresh added)
                ∙ length-append (laws.entries s key) ((now, member) ∷ [])),
      )

  -- Two checks with a window that lasts that both count one free place before either adds its
  -- request are both admitted, and leave one entry more than the limit, which is below 2 ^ 63.
  pub admit_race :
      (identity first second : String) (now later limit window : ℕ) (s t u : S) (a b : Bool)
      → limit < 9223372036854775808
      → lives window ≡ true
      → length (laws.entries s (key_of identity)) + 1 ≡ limit
      → IsFresh first (laws.entries s (key_of identity))
      → IsFresh second (laws.entries t (key_of identity))
      → admit redis identity first now limit window (length (laws.entries s (key_of identity))) s
        ≡ ok (a, t)
      → admit redis identity second later limit window (length (laws.entries s (key_of identity))) t
        ≡ ok (b, u)
      → (a ≡ true) × (b ≡ true) × (length (laws.entries u (key_of identity)) ≡ limit + 1)
  admit_race identity first second now later limit window s t u a b h alive free fresh fresh_too one
        two =
      let below : reaches (length (laws.entries s (key_of identity))) limit ≡ false =
        ground (arith, free, h) in
      let (is_a, grown) =
        add_entries identity first now window s t a alive fresh (simp below at one) in
      let (is_b, grown_too) =
        add_entries identity second later window t u b alive fresh_too (simp below at two) in
      (is_a, is_b, omega (arith, grown, grown_too, free))
