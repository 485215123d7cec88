-- ===== src/RustGateway/Audit/Delivery.antt =====
-- The way of the events of rust-gateway/src/audit.rs through channel, batch and posts.
use mathlib.Core.List.{append_assoc, append-nil}
use app_gate.Base.{
  ◌≤◌, ◌<◌, ◌≡◌, refl, sym, ap, ◌∙◌, true, List, [], ◌∷◌, ◌++◌, arith, All, All-append, length,
  length-append, flatten, flatten-append, leb, Bool-cases, inl, inr,
}
use app_gate.RustGateway.Audit.{AuditLogger, record_event, send_batch, received, receive, tick, new}

-- What the tasks of the gateway and the audit task do, in any interleaving.
pub data Action (A : Type 0) : Type 0 where
  report : A → Action A
  take : Action A
  elapse : Action A

module _ {A : Type 0} where
  unfoldable pub step : AuditLogger A → Action A → AuditLogger A
  step l (report event) = record_event event l
  step l take = receive l
  step l elapse = tick l

  unfoldable pub run : AuditLogger A → List (Action A) → AuditLogger A
  run l [] = l
  run l (action ∷ actions) = run (step l action) actions

  -- The events of a run, in order.
  unfoldable pub reported : List (Action A) → List A
  reported [] = []
  reported (report event ∷ actions) = event ∷ reported actions
  reported (take ∷ actions) = reported actions
  reported (elapse ∷ actions) = reported actions

  -- All the events of a logger, the oldest first.
  unfoldable pub events : AuditLogger A → List A
  events l = flatten l.posted ++ (l.batch ++ l.channel)

  pub record IsValid (l : AuditLogger A) : Type 0 where
    pub open_channel : l.is_open ≡ true
    pub short_batch : length l.batch < 100
    pub posted_sizes : All (λ b. (1 ≤ length b) × (length b ≤ 100)) l.posted

  flatten-send_batch :
      (batch : List A) (posted : List (List A))
      → flatten (send_batch batch posted) ≡ flatten posted ++ batch
  unfolding send_batch flatten
  flatten-send_batch [] posted = sym (append-nil (flatten posted))
  flatten-send_batch (e ∷ es) posted =
      flatten-append posted ((e ∷ es) ∷ []) ∙ ap (λ l. flatten posted ++ e ∷ l) (append-nil es)

  events-tick : (l : AuditLogger A) → events (tick l) ≡ events l
  unfolding events tick
  events-tick l =
      ap (λ f. f ++ l.channel) (flatten-send_batch l.batch l.posted)
      ∙ append_assoc (flatten l.posted) l.batch l.channel

  snoc : (p b c : List A) (e : A) → p ++ ((b ++ e ∷ []) ++ c) ≡ p ++ (b ++ e ∷ c)
  snoc p b c e = ap (λ k. p ++ k) (append_assoc b (e ∷ []) c)

  events-received :
      (c : List A) (l : AuditLogger A) → l.channel ≡ c → events (received c l) ≡ events l
  unfolding events
  events-received [] l h = refl
  events-received (e ∷ rest) l h =
      let b = l.batch ++ e ∷ [] in
      let goal : flatten l.posted ++ (b ++ rest) ≡ flatten l.posted ++ (l.batch ++ l.channel) =
        rw h (snoc (flatten l.posted) l.batch rest e) in
      elim (Bool-cases (leb 100 (length b))) [
        | inl k ↦ simp k (
            ap (λ f. f ++ rest) (flatten-send_batch b l.posted)
            ∙ (append_assoc (flatten l.posted) b rest ∙ goal))
        | inr k ↦ simp k goal
      ]

  -- The events after a step are those before it and the one that the step reported.
  events-step :
      (l : AuditLogger A) (a : Action A)
      → l.is_open ≡ true
      → events (step l a) ≡ events l ++ reported (a ∷ [])
  unfolding step record_event receive reported
  events-step l (report event) h = simp h (
      unfold events in
      (ap (λ k. flatten l.posted ++ k) (sym (append_assoc l.batch l.channel (event ∷ [])))
        ∙ sym (append_assoc (flatten l.posted) (l.batch ++ l.channel) (event ∷ []))))
  events-step l take h = events-received l.channel l refl ∙ sym (append-nil (events l))
  events-step l elapse h = events-tick l ∙ sym (append-nil (events l))

  sizes-send_batch :
      (batch : List A) (posted : List (List A))
      → length batch ≤ 100
      → All (λ b. (1 ≤ length b) × (length b ≤ 100)) posted
      → All (λ b. (1 ≤ length b) × (length b ≤ 100)) (send_batch batch posted)
  unfolding send_batch
  sizes-send_batch [] posted h k = k
  sizes-send_batch (e ∷ es) posted h k =
      All-append _ posted ((e ∷ es) ∷ []) k ((omega arith, h), tt)

  received-IsValid : (c : List A) (l : AuditLogger A) → IsValid l → IsValid (received c l)
  received-IsValid [] l v = v
  received-IsValid (e ∷ rest) l v =
      let b = l.batch ++ e ∷ [] in
      let size = length-append l.batch (e ∷ []) in
      elim (Bool-cases (leb 100 (length b))) [
        | inl k ↦ simp k (record {
          open_channel = v.open_channel;
          short_batch = omega arith;
          posted_sizes =
              sizes-send_batch b l.posted (omega (arith, size, v.short_batch)) v.posted_sizes;
        })
        | inr k ↦ simp k (record {
          open_channel = v.open_channel;
          short_batch = ground arith;
          posted_sizes = v.posted_sizes;
        })
      ]

  step-IsValid : (l : AuditLogger A) (a : Action A) → IsValid l → IsValid (step l a)
  unfolding step record_event receive tick
  step-IsValid l (report event) v =
      simp v.open_channel
        (record { open_channel = refl; short_batch = v.short_batch; posted_sizes = v.posted_sizes })
  step-IsValid l take v = received-IsValid l.channel l v
  step-IsValid l elapse v = record {
    open_channel = v.open_channel;
    short_batch = omega arith;
    posted_sizes = sizes-send_batch l.batch l.posted (omega (arith, v.short_batch)) v.posted_sizes;
  }

  reported-cons :
      (a : Action A) (rest : List (Action A))
      → reported (a ∷ rest) ≡ reported (a ∷ []) ++ reported rest
  unfolding reported
  reported-cons (report e) rest = refl
  reported-cons take rest = refl
  reported-cons elapse rest = refl

  pub run_from :
      (l : AuditLogger A) (rest : List (Action A))
      → IsValid l
      → IsValid (run l rest) × (events (run l rest) ≡ events l ++ reported rest)
  unfolding run
  run_from l [] v = (v, sym (unfold reported in append-nil (events l)))
  run_from l (a ∷ rest) v =
      let (valid, e) = run_from (step l a) rest (step-IsValid l a v) in
      (
        valid,
        e
            ∙ (ap (λ k. k ++ reported rest) (events-step l a v.open_channel)
                ∙ (append_assoc (events l) (reported (a ∷ [])) (reported rest)
                    ∙ ap (λ k. events l ++ k) (sym (reported-cons a rest)))),
      )

  new-IsValid : IsValid (new {A = A})
  new-IsValid = record { open_channel = refl; short_batch = omega arith; posted_sizes = tt }

  -- In any interleaving, the posted batches, the batch and the channel are together the reported
  -- events: each of them once, and in their order. Every posted batch has from one to a hundred
  -- events, and the batch that is being filled has fewer than a hundred.
  pub run_conserves :
      (actions : List (Action A))
      → IsValid (run new actions) × (events (run new actions) ≡ reported actions)
  run_conserves actions =
      let (v, e) = run_from new actions new-IsValid in (v, e ∙ (unfold events flatten in refl))
