-- ===== src/RustGateway/Accept/Drain.antt =====
-- The drain of rust-gateway/src/server.rs: how and when it ends.
use app_gate.Base.{
  ℕ, zero, suc, ◌+◌, ◌*◌, ◌≤◌, ◌<◌, ◌≡◌, refl, inl, inr, some, arith, ltb, Bool-cases, Option, none,
  if◌then◌else◌,
}
use app_gate.RustGateway.Accept.{Drained, drained, forced, shutdown_max_wait_ms, drain}

module _ (active elapsed : ℕ → ℕ) (paced : (i : ℕ) → elapsed i + 100 ≤ elapsed (suc i)) where
  -- How the loop can end, and when.
  abbrev pub Outcome : Drained → Type 0
  Outcome drained = (i : ℕ) × (active i ≡ 0)
  Outcome forced = (i : ℕ) × (0 < active i) × (shutdown_max_wait_ms < elapsed i)

  Answer : Option Drained → Type 0
  Answer r = (o : Drained) × (r ≡ some o) × Outcome o

  -- One turn, with the answer of the turns after it.
  turn :
      (i : ℕ) (rest : Option Drained)
      → (elapsed i ≤ shutdown_max_wait_ms → Answer rest)
      → Answer (
          if ltb 0 (active i)
          then if ltb shutdown_max_wait_ms (elapsed i) then some forced else rest
          else some drained)
  unfolding Answer
  turn i rest later = elim (Bool-cases (ltb 0 (active i))) [
    | inr idle ↦ (drained, simp idle refl, (i, ground arith))
    | inl busy ↦ elim (Bool-cases (ltb shutdown_max_wait_ms (elapsed i))) [
      | inl late ↦ (forced, simp (busy, late) refl, (i, ground arith, ground arith))
      | inr early ↦ simp (busy, early) (later (ground arith))
    ]
  ]

  ends :
      (fuel i : ℕ)
      → shutdown_max_wait_ms < elapsed i + fuel * 100
      → Answer (drain active elapsed (suc fuel) i)
  unfolding drain
  ends zero i h = turn i none (λ early. absurd (omega (arith, h, early)))
  ends (suc n) i h =
      turn i (drain active elapsed (suc n) (suc i))
        (λ early. ends n (suc i) (omega (arith, h, paced i)))

  -- If the clock gains at least the sleep of 100 ms at every turn, the drain ends within 302
  -- turns. It then has read a counter of zero, or more than 30 seconds have passed and the counter
  -- was not zero.
  pub drain_ends : (o : Drained) × (drain active elapsed 302 0 ≡ some o) × Outcome o
  unfolding Answer
  drain_ends = ends 301 0 (omega arith)
