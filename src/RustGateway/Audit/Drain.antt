-- ===== src/RustGateway/Audit/Drain.antt =====
-- What becomes of the events that wait, in rust-gateway/src/audit.rs.
use mathlib.Core.List.{append-nil}
use app_gate.Base.{
  ℕ, zero, suc, ◌≡◌, refl, sym, ap, ◌∙◌, List, [], ◌∷◌, ◌++◌, arith, length, flatten, leb,
  Bool-cases, inl, inr,
}
use app_gate.RustGateway.Audit.{AuditLogger, received, receive, tick}
use app_gate.RustGateway.Audit.Delivery.{
  Action, take, elapse, step, run, reported, events, IsValid, run_from,
}

module _ {A : Type 0} where
  -- The task takes what the channel holds, and then its interval ends.
  pub drain : ℕ → List (Action A)
  drain zero = elapse ∷ []
  drain (suc n) = take ∷ drain n

  no_items : (c : List A) → length c ≡ 0 → c ≡ []
  no_items [] h = refl
  no_items (e ∷ rest) h = absurd (omega (arith, h))

  channel-received :
      (e : A) (rest : List A) (l : AuditLogger A) → (received (e ∷ rest) l).channel ≡ rest
  channel-received e rest l = elim (Bool-cases (leb 100 (length (l.batch ++ e ∷ [])))) [
    | inl k ↦ simp k refl
    | inr k ↦ simp k refl
  ]

  length-receive :
      (n : ℕ) (c : List A) (l : AuditLogger A)
      → length c ≡ suc n
      → length (received c l).channel ≡ n
  length-receive n [] l h = omega (arith, h)
  length-receive n (e ∷ rest) l h = rw (channel-received e rest l) (omega (arith, h))

  emptied :
      (n : ℕ) (l : AuditLogger A)
      → length l.channel ≡ n
      → ((run l (drain n)).channel ≡ []) × ((run l (drain n)).batch ≡ [])
  unfolding run drain step tick receive
  emptied zero l h = (no_items l.channel h, refl)
  emptied (suc n) l h = emptied n (receive l) (length-receive n l.channel l h)

  reported-drain : (n : ℕ) → reported (drain n) ≡ []
  unfolding reported drain
  reported-drain zero = refl
  reported-drain (suc n) = reported-drain n

  -- Once the task has taken every event of the channel and its interval has ended, every event
  -- has been posted, in order, whatever the state it started from.
  pub drain_posts :
      (l : AuditLogger A) → IsValid l → flatten (run l (drain (length l.channel))).posted ≡ events l
  unfolding events
  drain_posts l v =
      let (channel, batch) = emptied (length l.channel) l refl in
      let (_, e) = run_from l (drain (length l.channel)) v in
      sym (append-nil _)
      ∙ (ap (λ k. flatten (run l (drain (length l.channel))).posted ++ k) (rw (batch, channel) refl)
          ∙ (e
              ∙ (ap (λ k. events l ++ k) (reported-drain (length l.channel))
                  ∙ append-nil (events l))))
