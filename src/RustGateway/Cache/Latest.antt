-- ===== src/RustGateway/Cache/Latest.antt =====
-- What the response cache answers after a sequence of its operations.
use mathlib.Core.Path.{subst}
use app_gate.Base.{
  ℕ, ◌+◌, ◌<◌, String, ◌≡◌, refl, sym, inl, inr, Bool, true, false, Option, none, some, List, [],
  ◌∷◌, if◌then◌else◌,
}
use app_gate.Base.Moka.{Moka, Table, MokaLaws}
use app_gate.Base.Result.{unwrap_or}
use app_gate.RustGateway.Cache.{
  CachedResponse, ResponseCache, new, get, set, invalidate, clear, weigher,
}
use app_gate.RustGateway.Config.{GatewayConfig}
use app_gate.RustGateway.Cache.Origin.{
  Op, got, stored, dropped, cleared, WasStored, step_table, run_table, run_origin, none-ne-some,
}

module _ {M : Type 0} (moka : Moka M CachedResponse) (laws : MokaLaws moka) where
  abbrev pub step : Op → ResponseCache M → ResponseCache M
  step (got now k) s = (get moka now k s).1
  step (stored now k r) s = set moka now k r s
  step (dropped k) s = invalidate moka k s
  step cleared s = clear moka s

  abbrev pub run : List Op → ResponseCache M → ResponseCache M
  run [] s = s
  run (op ∷ ops) s = run ops (step op s)

  -- A cache that is not there holds whatever.
  abbrev Holds : ℕ → Option M → Table CachedResponse → Type 0
  Holds ttl none table = Unit {0}
  Holds ttl (some m) table = laws.Holds ttl m table

  step-Holds :
      (ttl : ℕ) (op : Op) (inner : Option M) (enabled : Bool) (table : Table CachedResponse)
      → Holds ttl inner table
      → Holds ttl
          (step op (record { inner = inner; enabled = enabled })).inner
          (step_table op table)
  unfolding get set invalidate clear
  step-Holds ttl (got now k) none enabled table h = tt
  step-Holds ttl (got now k) (some m) enabled table h = laws.keeps ttl now k m table h
  step-Holds ttl (stored now k r) none enabled table h = tt
  step-Holds ttl (stored now k r) (some m) enabled table h = laws.inserts ttl now k r m table h
  step-Holds ttl (dropped k) none enabled table h = tt
  step-Holds ttl (dropped k) (some m) enabled table h = laws.invalidates ttl k m table h
  step-Holds ttl cleared none enabled table h = tt
  step-Holds ttl cleared (some m) enabled table h = laws.clears ttl m table h

  run-Holds :
      (ttl : ℕ) (ops : List Op) (s : ResponseCache M) (table : Table CachedResponse)
      → Holds ttl s.inner table
      → Holds ttl (run ops s).inner (run_table ops table)
  run-Holds ttl [] s table h = h
  run-Holds ttl (op ∷ ops) s table h =
      run-Holds ttl ops (step op s) (step_table op table)
        (step-Holds ttl op s.inner s.enabled table h)

  get-Holds :
      (ttl now : ℕ) (key : String) (r : CachedResponse) (inner : Option M) (enabled : Bool)
      (table : Table CachedResponse)
      → Holds ttl inner table
      → (get moka now key (record { inner = inner; enabled = enabled })).0 ≡ some r
      → (at : ℕ) × (table key ≡ some (at, r)) × (now < at + ttl)
  unfolding get
  get-Holds ttl now key r none enabled table h e = absurd (none-ne-some e)
  get-Holds ttl now key r (some m) enabled table h e = laws.gets ttl now key r m table h e

  none_before :
      (key : String) (at : ℕ) (r : CachedResponse) (ops : List Op)
      → run_table ops (λ k. none) key ≡ some (at, r)
      → WasStored key at r ops
  none_before key at r ops h = elim (run_origin key at r ops (λ k. none) h) [
    | inl w ↦ w
    | inr (found, kept) ↦ absurd (none-ne-some found)
  ]

  built-Holds :
      (enabled : Bool) (ttl capacity : ℕ)
      → Holds ttl (if enabled then some (moka.build ttl capacity weigher) else none) (λ key. none)
  built-Holds true ttl capacity = laws.builds ttl capacity weigher
  built-Holds false ttl capacity = tt

  new-Holds :
      (config : GatewayConfig)
      → Holds (unwrap_or 60 config.cache.ttl_secs) (new moka config).inner (λ key. none)
  unfolding new
  new-Holds config =
      built-Holds config.cache.enabled (unwrap_or 60 config.cache.ttl_secs)
        (unwrap_or 10000 config.cache.max_size)

  -- What a new cache answers for a key, after any sequence of its operations, is the response that
  -- the last operation on that key stored, which no later one dropped, and it was stored less
  -- than the time to live ago (60 seconds if the configuration has none).
  pub run-WasStored :
      (config : GatewayConfig) (ops : List Op) (now : ℕ) (key : String) (r : CachedResponse)
      → (get moka now key (run ops (new moka config))).0 ≡ some r
      → (at : ℕ) × WasStored key at r ops × (now < at + unwrap_or 60 config.cache.ttl_secs)
  run-WasStored config ops now key r answered =
      let s = run ops (new moka config) in
      let held = run-Holds _ ops (new moka config) (λ k. none) (new-Holds config) in
      let (at, found, fresh) =
        get-Holds _ now key r s.inner s.enabled (run_table ops (λ k. none)) held answered in
      (at, none_before key at r ops found, fresh)

  disabled :
      (ops : List Op) (enabled : Bool) (now : ℕ) (key : String)
      → (get moka now key (run ops (record { inner = none; enabled = enabled }))).0 ≡ none
  unfolding get set invalidate clear
  disabled [] enabled now key = refl
  disabled (got t k ∷ ops) enabled now key = disabled ops enabled now key
  disabled (stored t k r ∷ ops) enabled now key = disabled ops enabled now key
  disabled (dropped k ∷ ops) enabled now key = disabled ops enabled now key
  disabled (cleared ∷ ops) enabled now key = disabled ops enabled now key

  -- A cache that is switched off answers nothing, after whatever operations.
  pub run-disabled :
      (config : GatewayConfig) (ops : List Op) (now : ℕ) (key : String)
      → config.cache.enabled ≡ false
      → (get moka now key (run ops (new moka config))).0 ≡ none
  unfolding new
  run-disabled config ops now key off =
      subst
        (λ e.
          (get moka now key (
            run ops (record {
              inner =
                  if e
                  then some (
                      moka.build (unwrap_or 60 config.cache.ttl_secs)
                        (unwrap_or 10000 config.cache.max_size) weigher)
                  else none;
              enabled = e;
            }))).0
          ≡ none)
        (sym off) (disabled ops false now key)
