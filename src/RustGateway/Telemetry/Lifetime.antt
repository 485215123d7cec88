-- ===== src/RustGateway/Telemetry/Lifetime.antt =====
-- The tracing of a process of rust-gateway from the first line of `main` to its end.
use mathlib.Core.Bool.{false≢true}
use app_gate.Base.{
  String, Option, none, some, List, [], ◌∷◌, ◌≡◌, ◌≢◌, ◌⊎◌, inl, inr, refl, sym, ap, ◌∙◌, ◌+++◌,
  ◌==◌, eq_iff, Bool-cases,
}
use app_gate.Base.Result.{Result, ok, err}
use app_gate.RustGateway.Telemetry.{
  Process, TracerGuard, Otel, Pipeline, filter_of, init_tracer_provider, drop, stdout_only,
  installed, endpoint_or_local, is_debug,
}

-- The level of debugging is asked for by its name, and everything else is the level of information.
abbrev pub IsFilter : Option String → String → Type 0
IsFilter level filter =
    ((level ≡ some "debug") × (filter ≡ "debug")) ⊎ ((level ≢ some "debug") × (filter ≡ "info"))

some_inj : {s t : String} → ◌≡◌ {A = Option String} (some s) (some t) → s ≡ t
some_inj h = cc

filter_of-IsFilter : (level : Option String) → IsFilter level (filter_of (is_debug level))
filter_of-IsFilter none = inr (λ h. cc, refl)
filter_of-IsFilter (some s) = elim (Bool-cases (s == "debug")) [
  | inl same ↦ inl (ap some ((eq_iff s "debug").0 same), simp same refl)
  | inr other ↦
      inr (λ h. false≢true (sym other ∙ (eq_iff s "debug").1 (some_inj h)), simp other refl)
]

-- What a pipeline is asked for, at an address that is given and without one.
abbrev pub asked_pipeline : String → Option String → Pipeline
asked_pipeline version none = record {
  endpoint = "http://localhost:4317";
  timeout_secs = 10;
  service_name = "appgate-gateway";
  service_version = version;
}
asked_pipeline version (some address) = record {
  endpoint = address;
  timeout_secs = 10;
  service_name = "appgate-gateway";
  service_version = version;
}

module _ {P : Type 0} where
  abbrev pub quiet : Process P
  quiet = record { subscriber = none; stderr = []; shut_down = [] }

  -- The guard goes when `main` returns.
  abbrev drop_optional : Option (TracerGuard P) → Process P → Process P
  drop_optional none p = p
  drop_optional (some guard) p = (drop guard p).1

  -- `main` returns once its state stands; `exit(1)` before that drops nothing.
  abbrev leave : {A E : Type 0} → Result A E → Process P × Option (TracerGuard P) → Process P
  leave (ok state) (p, guard) = drop_optional guard p
  leave (err e) (p, guard) = p

  abbrev left :
      {A E : Type 0} → Result A E → Option (Process P × Option (TracerGuard P)) → Option (Process P)
  left started none = none
  left started (some t) = some (leave started t)

  -- `main`, as far as its tracing goes; `started` is what became of its state.
  unfoldable pub traced_main :
      {A E : Type 0}
      → Otel P
      → String
      → Option String
      → Option String
      → Result A E
      → Option (Process P)
  unfolding init_tracer_provider drop
  traced_main otel version endpoint level started =
      left started
        (init_tracer_provider otel version (endpoint_or_local endpoint) (is_debug level) quiet)

  abbrev pub installed_by : Result P String → Option P
  installed_by (ok provider) = some provider
  installed_by (err e) = none

  -- The provider that a process gets.
  abbrev pub provider_of : Otel P → String → Option String → Option P
  provider_of none version endpoint = none
  provider_of (some install_batch) version endpoint =
      installed_by (install_batch (asked_pipeline version endpoint))

  -- The providers that are shut down at the end.
  abbrev pub flushed : {A E : Type 0} → Option P → Result A E → List P
  flushed none started = []
  flushed (some provider) (ok state) = provider ∷ []
  flushed (some provider) (err e) = []

  abbrev pub tracer_of : Option P → Option (P × String)
  tracer_of none = none
  tracer_of (some provider) = some (provider, "appgate-gateway")

  -- How a process ends that got a provider, or none.
  pub record IsTraced (provider : Option P) (level : Option String) (closed : List P)
      (p : Process P) : Type 0 where
    pub filter : String
    pub asked : IsFilter level filter
    pub subscribed :
        p.subscriber ≡ some (record { env_filter = filter; telemetry = tracer_of provider })
    pub shut : p.shut_down ≡ closed

  abbrev Ends :
      {A E : Type 0}
      → Option P
      → Option String
      → Result A E
      → Option (Process P × Option (TracerGuard P))
      → Type 0
  Ends provider level started outcome =
      (p : Process P) × (left started outcome ≡ some p)
      × IsTraced provider level (flushed provider started) p

  stdout-Ends :
      {A E : Type 0} (level : Option String) (started : Result A E) (stderr : List String)
      → Ends none level started (stdout_only (is_debug level) (record quiet { stderr = stderr }))
  stdout-Ends level (ok a) stderr = (
    _,
    refl,
    record { filter = _; asked = filter_of-IsFilter level; subscribed = refl; shut = refl },
  )
  stdout-Ends level (err e) stderr = (
    _,
    refl,
    record { filter = _; asked = filter_of-IsFilter level; subscribed = refl; shut = refl },
  )

  installed-Ends :
      {A E : Type 0} (level : Option String) (started : Result A E) (r : Result P String)
      → Ends (installed_by r) level started (installed (is_debug level) r quiet)
  unfolding drop
  installed-Ends level (ok a) (ok provider) = (
    _,
    refl,
    record { filter = _; asked = filter_of-IsFilter level; subscribed = refl; shut = refl },
  )
  installed-Ends level (err e) (ok provider) = (
    _,
    refl,
    record { filter = _; asked = filter_of-IsFilter level; subscribed = refl; shut = refl },
  )
  installed-Ends level started (err e) =
      stdout-Ends level started
        (("OTLP initialization failed (" +++ e +++ "), using stdout only") ∷ [])

  -- A process ends with a subscriber, whose filter is that of debugging exactly when the level is
  -- `debug`, and of information otherwise. The subscriber exports spans exactly when a pipeline to
  -- the address that is given, or else to port 4317 of this host, could be installed. The provider
  -- of the pipeline is shut down once if `main` returns, and never if the process exits at its
  -- start.
  pub traced_main-IsTraced :
      {A E : Type 0} (otel : Otel P) (version : String) (endpoint level : Option String)
      (started : Result A E)
      → (p : Process P) × (traced_main otel version endpoint level started ≡ some p)
        × IsTraced
            (provider_of otel version endpoint)
            level
            (flushed (provider_of otel version endpoint) started)
            p
  unfolding traced_main
  traced_main-IsTraced none version endpoint level started = stdout-Ends level started []
  traced_main-IsTraced (some install_batch) version none level started =
      installed-Ends level started (install_batch (asked_pipeline version none))
  traced_main-IsTraced (some install_batch) version (some address) level started =
      installed-Ends level started (install_batch (asked_pipeline version (some address)))
