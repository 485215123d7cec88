-- ===== src/RustGateway/Metrics/Counted.antt =====
-- What the counter of rust-gateway/src/metrics.rs shows of a process, from its start.
use app_gate.Base.{
  ℕ, suc, ◌+◌, String, ◌≡◌, ◌≢◌, refl, ap, ◌∙◌, true, false, ◌&&◌, Bool-cases, inl, inr, Option,
  none, some, List, [], ◌∷◌, ◌==◌, eq_iff, if◌then◌else◌, arith,
}
use app_gate.Base.Decimal.{to_string}
use app_gate.Base.Prometheus.{CounterVec, CounterVecLaws, HistogramVec}
use app_gate.Base.Result.{ok}
use app_gate.RustGateway.Metrics
use app_gate.RustGateway.Metrics.{Metrics}
use app_gate.RustGateway.Metrics.Handled.{record_all}
use app_gate.RustGateway.Metrics.Registration.{
  Registering, Statics, record_each, record_each-record_all,
}

-- The requests of one path that were answered with one status.
unfoldable pub count : String → String → List (String × ℕ) → ℕ
count path status [] = 0
count path status (c ∷ cs) =
    let rest = count path status cs in
    if c.0 == path && to_string c.1 == status then suc rest else rest

same_labels : (a b x y : String) → (a == x && b == y) ≡ true → a ∷ b ∷ [] ≡ x ∷ y ∷ []
same_labels a b x y h = ground (arith, eq_iff a x, eq_iff b y)

other_labels : (a b x y : String) → (a == x && b == y) ≡ false → a ∷ b ∷ [] ≢ x ∷ y ∷ []
other_labels a b x y h e = ground (arith, eq_iff a x, eq_iff b y)

module _ {V H R F : Type 0} (registering : Registering V H R) (counters : CounterVec V)
    (histograms : HistogramVec H F) (elapsed : String × ℕ → F)
    (laws : CounterVecLaws counters) where
  -- A counter that was not registered shows nothing.
  abbrev pub series : List String → Option V → ℕ
  series labels none = 0
  series labels (some v) = counters.value labels v

  inc-counts :
      (path status : String) (c : String × ℕ) (v : V) (n : ℕ)
      → counters.value (path ∷ status ∷ []) (counters.inc (c.0 ∷ to_string c.1 ∷ []) v) + n
        ≡ counters.value (path ∷ status ∷ []) v
          + (if c.0 == path && to_string c.1 == status then suc n else n)
  inc-counts path status c v n = elim (Bool-cases (c.0 == path && to_string c.1 == status)) [
    | inl same ↦
        let asked = same_labels c.0 (to_string c.1) path status same in
        let grown =
          ap (λ l. counters.value (path ∷ status ∷ []) (counters.inc l v)) asked
          ∙ laws.own (path ∷ status ∷ []) v in
        rw same (omega (arith, grown))
    | inr different ↦
        let others =
          laws.others (c.0 ∷ to_string c.1 ∷ []) (path ∷ status ∷ []) v
            (other_labels c.0 (to_string c.1) path status different) in
        rw different (omega (arith, others))
  ]

  record_all-counts :
      (path status : String) (cs : List (String × ℕ)) (m : Metrics V H)
      → counters.value
          (path ∷ status ∷ [])
          (record_all counters histograms elapsed cs m).requests_total
        ≡ counters.value (path ∷ status ∷ []) m.requests_total + count path status cs
  unfolding record_all count Metrics.record_request
  record_all-counts path status [] m = omega arith
  record_all-counts path status (c ∷ cs) m =
      record_all-counts path status cs
        (Metrics.record_request counters histograms c.0 c.1 (elapsed c) m)
      ∙ inc-counts path status c m.requests_total (count path status cs)

  -- In a process whose registry takes the two metrics, one after the other, and whose counters
  -- start at zero, no record panics, and the series of a path and a status shows how many of the
  -- completed requests had that path and that status.
  pub record_each-counts :
      (v : V) (h : H) (fresh with_total with_both : R) (path status : String)
      (completed : List (String × ℕ))
      → registering.register_counter_vec "gateway_requests_total" "Total number of HTTP requests"
          ("endpoint" ∷ "status" ∷ [])
          fresh
        ≡ ok (v, with_total)
      → registering.register_histogram_vec "gateway_request_duration_seconds"
          "Request latency in seconds"
          ("endpoint" ∷ [])
          with_total
        ≡ ok (h, with_both)
      → ((labels : List String) → counters.value labels v ≡ 0)
      → (s : Statics V H R) × (record_each registering counters histograms elapsed completed
            (record { requests_total = none; request_duration = none; registry = fresh })
          ≡ some s)
        × (series (path ∷ status ∷ []) s.requests_total ≡ count path status completed)
  unfolding record_each count
  record_each-counts v h fresh with_total with_both path status [] total duration empty =
      (_, refl, refl)
  record_each-counts v h fresh with_total with_both path status (c ∷ cs) total duration empty =
      let counted =
        record_all-counts path status (c ∷ cs)
          (record { requests_total = v; request_duration = h }) in
      (
        _,
        record_each-record_all registering counters histograms elapsed v h fresh with_total
            with_both c cs total duration,
        omega (arith, counted, empty (path ∷ status ∷ [])),
      )
