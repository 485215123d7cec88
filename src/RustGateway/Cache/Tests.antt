-- ===== src/RustGateway/Cache/Tests.antt =====
-- A response that is stored twice, and read before and after its time.
use app_gate.Base.{ℕ, ◌+◌, ◌<◌, ◌≡◌, refl, true, none, some, List, [], ◌∷◌}
use app_gate.Base.Http.{bytes_of}
use app_gate.Base.Moka.Sample.{Store, sample, sample-MokaLaws}
use app_gate.RustGateway.Cache.{
  CachedResponse, ResponseCache, header_bytes, weigher, new, get, set, invalidate,
}
use app_gate.RustGateway.Cache.Latest.{run, run-WasStored}
use app_gate.RustGateway.Cache.Origin.{Op, got, stored, dropped, WasStored}
use app_gate.RustGateway.Config.{GatewayConfig, default_gateway}

abbrev response : ℕ → CachedResponse
response status = record { status = status; headers = ("a", "bc") ∷ []; body = 1 ∷ 2 ∷ [] }

weight : weigher "key" (response 200) ≡ 5
unfolding weigher header_bytes bytes_of
weight = refl

abbrev config : GatewayConfig
config = record default_gateway {
  cache = record { enabled = true; ttl_secs = none; max_size = none };
}

abbrev ops : List Op
ops = stored 1 "k" (response 200) ∷ stored 5 "k" (response 404) ∷ got 6 "k" ∷ dropped "j" ∷ []

abbrev cached : ResponseCache (Store CachedResponse)
cached = run sample sample-MokaLaws ops (new sample config)

fresh : (get sample 64 "k" cached).0 ≡ some (response 404)
unfolding new get set invalidate
fresh = refl

expired : (get sample 65 "k" cached).0 ≡ none
unfolding new get set invalidate
expired = refl

run-WasStored_example : (at : ℕ) × WasStored "k" at (response 404) ops × (64 < at + 60)
run-WasStored_example = run-WasStored sample sample-MokaLaws config ops 64 "k" (response 404) fresh
