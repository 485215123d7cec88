-- ===== src/Gateway/Metrics/Requests.antt =====
-- What the counter of requests of gateway/src/metrics.rs shows after any recordings.
use mathlib.Core.Bool.{false≢true}
use mathlib.Core.Path.{subst}
use app_gate.Base.{
  if_true, if_false, ℕ, suc, ◌+◌, String, ◌≡◌, ◌≢◌, refl, sym, ap, ◌∙◌, ◌⊎◌, inl, inr, Bool, true,
  false, Bool-cases, ◌&&◌, List, [], ◌∷◌, ◌==◌, eq_iff, arith, nat_eq, if◌then◌else◌,
}
use app_gate.Base.Prometheus.{CounterVec, CounterVecLaws, HistogramVec}
use app_gate.Gateway.Metrics.{
  Metrics, status_to_string, record_request, record_tls_handshake, record_upstream_duration,
  record_auth_failure, record_rate_limit_exceeded, set_active_connections,
}

-- The number that a label stands for.
unfoldable status_of : String → ℕ
status_of label =
    if label == "200"
    then 200
    else if label == "201"
    then 201
    else if label == "204"
    then 204
    else if label == "301"
    then 301
    else if label == "302"
    then 302
    else if label == "400"
    then 400
    else if label == "401"
    then 401
    else if label == "403"
    then 403
    else if label == "404"
    then 404
    else if label == "429"
    then 429
    else if label == "500"
    then 500
    else if label == "502"
    then 502
    else if label == "503"
    then 503
    else 0

abbrev IsLabel : ℕ → String → Type 0
IsLabel status label = (status_of label ≡ status) ⊎ (label ≡ "other")

IsLabel-if :
    (n : ℕ) (label rest : String) (status : ℕ)
    → status_of label ≡ n
    → IsLabel status rest
    → IsLabel status (if nat_eq status n then label else rest)
IsLabel-if n label rest status h later = elim (Bool-cases (nat_eq status n)) [
  | inl same ↦
      let read : status_of label ≡ status = ground (arith, same, h) in
      subst (IsLabel status) (sym (if_true label rest same)) (inl read)
  | inr other ↦ subst (IsLabel status) (sym (if_false label rest other)) later
]

status_to_string-IsLabel : (status : ℕ) → IsLabel status (status_to_string status)
unfolding status_of status_to_string
status_to_string-IsLabel status = IsLabel-if 200 "200" _ status refl (
    IsLabel-if 201 "201" _ status refl (
      IsLabel-if 204 "204" _ status refl (
        IsLabel-if 301 "301" _ status refl (
          IsLabel-if 302 "302" _ status refl (
            IsLabel-if 400 "400" _ status refl (
              IsLabel-if 401 "401" _ status refl (
                IsLabel-if 403 "403" _ status refl (
                  IsLabel-if 404 "404" _ status refl (
                    IsLabel-if 429 "429" _ status refl (
                      IsLabel-if 500 "500" _ status refl (
                        IsLabel-if 502 "502" _ status refl
                          (IsLabel-if 503 "503" _ status refl (inr refl)))))))))))))

status_to_string-inj :
    (a b : ℕ) → status_to_string b ≢ "other" → status_to_string a ≡ status_to_string b → a ≡ b
status_to_string-inj a b listed h = elim (status_to_string-IsLabel a) [
  | inl x ↦ elim (status_to_string-IsLabel b) [
    | inl y ↦ sym x ∙ (ap status_of h ∙ y)
    | inr y ↦ absurd (listed y)
  ]
  | inr x ↦ absurd (listed (sym h ∙ x))
]

-- What the functions of the module record.
pub data Recording (F : Type 0) : Type 0 where
  request : String → ℕ → F → Recording F
  tls_handshake : String → F → Recording F
  upstream_duration : String → F → Recording F
  auth_failure : String → Recording F
  rate_limit_exceeded : String → Recording F
  connections : F → Recording F

-- The requests for an endpoint that were answered with a status.
unfoldable pub requests_with : {F : Type 0} → String → ℕ → List (Recording F) → ℕ
requests_with endpoint status [] = 0
requests_with endpoint status (request e s elapsed ∷ rs) =
    let later = requests_with endpoint status rs in
    if nat_eq s status && e == endpoint then suc later else later
requests_with endpoint status (tls_handshake v elapsed ∷ rs) = requests_with endpoint status rs
requests_with endpoint status (upstream_duration u elapsed ∷ rs) = requests_with endpoint status rs
requests_with endpoint status (auth_failure reason ∷ rs) = requests_with endpoint status rs
requests_with endpoint status (rate_limit_exceeded who ∷ rs) = requests_with endpoint status rs
requests_with endpoint status (connections n ∷ rs) = requests_with endpoint status rs

series-inj :
    (a b : ℕ) (x y : String)
    → status_to_string b ≢ "other"
    → ◌≡◌ {A = List String} (status_to_string a ∷ x ∷ []) (status_to_string b ∷ y ∷ [])
    → (nat_eq a b && x == y) ≡ true
series-inj a b x y listed h =
    let codes : a ≡ b = status_to_string-inj a b listed (cc) in
    let names : x ≡ y = cc in ground (arith, codes, names, eq_iff x y)

module _ {V H F : Type 0} (counters : CounterVec V) (laws : CounterVecLaws counters)
    (histograms : HistogramVec H F) where
  abbrev pub recorded : Recording F → Metrics V H F → Metrics V H F
  recorded (request e s elapsed) m = record_request counters histograms e s elapsed m
  recorded (tls_handshake v elapsed) m = record_tls_handshake counters histograms v elapsed m
  recorded (upstream_duration u elapsed) m =
      record_upstream_duration counters histograms u elapsed m
  recorded (auth_failure reason) m = record_auth_failure counters histograms reason m
  recorded (rate_limit_exceeded who) m = record_rate_limit_exceeded counters histograms who m
  recorded (connections n) m = set_active_connections counters histograms n m

  abbrev pub run : List (Recording F) → Metrics V H F → Metrics V H F
  run [] m = m
  run (r ∷ rs) m = run rs (recorded r m)

  inc-counts :
      (e endpoint : String) (s status : ℕ) (v : V)
      → status_to_string status ≢ "other"
      → counters.value
          (status_to_string status ∷ endpoint ∷ [])
          (counters.inc (status_to_string s ∷ e ∷ []) v)
        ≡ (if nat_eq s status && e == endpoint
            then suc (counters.value (status_to_string status ∷ endpoint ∷ []) v)
            else counters.value (status_to_string status ∷ endpoint ∷ []) v)
  inc-counts e endpoint s status v listed =
      let asked = status_to_string status ∷ endpoint ∷ [] in
      elim (Bool-cases (nat_eq s status && e == endpoint)) [
        | inl mine ↦
            let codes : s ≡ status = ground (arith, mine) in
            let names : e ≡ endpoint = ground (arith, mine, eq_iff e endpoint) in
            ap (λ n. counters.value asked (counters.inc (status_to_string n ∷ e ∷ []) v)) codes
            ∙ (ap (λ x. counters.value asked (counters.inc (status_to_string status ∷ x ∷ []) v))
                  names
                ∙ (laws.own asked v ∙ sym (if_true _ _ mine)))
        | inr other ↦
            laws.others (status_to_string s ∷ e ∷ []) asked v
              (λ h. false≢true (sym other ∙ series-inj s status e endpoint listed h))
            ∙ sym (if_false _ _ other)
      ]

  moved :
      (mine : Bool) (a b c : ℕ)
      → a ≡ (if mine then suc b else b)
      → c + a ≡ (if mine then suc c else c) + b
  moved true a b c h = omega (arith, h)
  moved false a b c h = omega (arith, h)

  -- The series of an endpoint and of one of the statuses that have a label of their own grows, over
  -- any recordings, by the number of requests that were recorded with just that endpoint and
  -- status.
  pub run-requests_with :
      (endpoint : String) (status : ℕ) (rs : List (Recording F)) (m : Metrics V H F)
      → status_to_string status ≢ "other"
      → counters.value (status_to_string status ∷ endpoint ∷ []) (run rs m).requests_total
        ≡ requests_with endpoint status rs
          + counters.value (status_to_string status ∷ endpoint ∷ []) m.requests_total
  unfolding requests_with record_request record_tls_handshake record_upstream_duration
      record_auth_failure record_rate_limit_exceeded
  run-requests_with endpoint status [] m listed = omega arith
  run-requests_with endpoint status (request e s elapsed ∷ rs) m listed =
      run-requests_with endpoint status rs (recorded (request e s elapsed) m) listed
      ∙ moved (nat_eq s status && e == endpoint) _ _ (requests_with endpoint status rs)
          (inc-counts e endpoint s status m.requests_total listed)
  run-requests_with endpoint status (tls_handshake v elapsed ∷ rs) m listed =
      run-requests_with endpoint status rs (recorded (tls_handshake v elapsed) m) listed
  run-requests_with endpoint status (upstream_duration u elapsed ∷ rs) m listed =
      run-requests_with endpoint status rs (recorded (upstream_duration u elapsed) m) listed
  run-requests_with endpoint status (auth_failure reason ∷ rs) m listed =
      run-requests_with endpoint status rs (recorded (auth_failure reason) m) listed
  run-requests_with endpoint status (rate_limit_exceeded who ∷ rs) m listed =
      run-requests_with endpoint status rs (recorded (rate_limit_exceeded who) m) listed
  run-requests_with endpoint status (connections n ∷ rs) m listed =
      run-requests_with endpoint status rs (recorded (connections n) m) listed
