-- ===== src/RustGateway/Ssrf/Ranges.antt =====
-- The guard of rust-gateway/src/ssrf.rs beside that of gateway/src/ssrf.rs.
use app_gate.Base.{String, ◌≡◌, refl, ◌↔◌, ◌⊎◌, true, Option, none, some, [], arith}
use app_gate.Base.Net.{IpAddr, v4, v6, is_private, is_link_local}
use app_gate.Base.Result.{ok, err, ◌>>◌}
use app_gate.Base.Url.{Url, Parser, host_ip}
use app_gate.Gateway.Ssrf.{SsrfDefense, validate_upstream}
use app_gate.Gateway.Ssrf
use app_gate.RustGateway.Ssrf.{
  check_ip, check_blocked, check_parsed, Verdict, check_url, validate_url,
}

-- The IPv4 ranges that only the other guard looks at.
abbrev pub IsInternal : Option IpAddr → Type 0
IsInternal none = ⊥
IsInternal (some (v6 i)) = ⊥
IsInternal (some (v4 i)) = (is_private i ≡ true) ⊎ (is_link_local i ≡ true)

some_inj : {u v : Url} → some u ≡ some v → u ≡ v
some_inj h = cc

abbrev pass : Verdict
pass = ok tt

-- Two verdicts after a common first one.
passes_differ :
    (a b c : Verdict) {P : Type 0}
    → (b ≡ pass) ↔ ((c ≡ pass) × P)
    → ((a >> (b >> pass)) ≡ pass) ↔ (((a >> c) ≡ pass) × P)
passes_differ (err e) b c h = (λ k. cc, λ k. cc (k.0))
passes_differ (ok a) (ok b) c h = (λ k. h.0 refl, λ k. refl)
passes_differ (ok a) (err e) c h = (λ k. h.0 k, λ k. h.1 k)

ips_differ :
    (o : Option IpAddr) → (Ssrf.check_ip o ≡ ok tt) ↔ ((check_ip o ≡ ok tt) × ¬ IsInternal o)
ips_differ none = ground arith
ips_differ (some (v6 i)) = ground arith
ips_differ (some (v4 i)) = ground arith

urls_differ :
    (g : SsrfDefense) (u : Url)
    → g.approved_domains ≡ []
    → (Ssrf.check_url g u ≡ ok tt) ↔ ((check_url u ≡ ok tt) × ¬ IsInternal (host_ip u.host))
unfolding check_url Ssrf.check_url
urls_differ g u e =
    let differ = ips_differ (host_ip u.host) in
    simp e (passes_differ (check_blocked u.host_str) _ _ differ)

parsed_differ :
    (g : SsrfDefense) (parsed : Option Url)
    → g.approved_domains ≡ []
    → (Ssrf.check_parsed g parsed ≡ ok tt) ↔ (
        (u : Url) × (parsed ≡ some u)
        × (check_parsed parsed ≡ ok tt)
        × ¬ IsInternal (host_ip u.host))
parsed_differ g none e = (λ h. cc, λ w. cc (w.1))
parsed_differ g (some u) e = (
  λ h. let (passed, public) = (urls_differ g u e).0 h in (u, refl, passed, public),
  λ w. (urls_differ g u e).1 (w.2, rw (some_inj w.1) w.3),
)

-- With no approved domains, the other guard accepts a URL exactly when this one does and its host
-- is no private or link-local IPv4 address.
pub guards_differ :
    (parse : Parser) (url : String) (g : SsrfDefense)
    → g.enabled ≡ true
    → g.approved_domains ≡ []
    → (validate_upstream parse url g ≡ ok tt) ↔ (
        (u : Url) × (parse url ≡ some u)
        × (validate_url parse url ≡ ok tt)
        × ¬ IsInternal (host_ip u.host))
unfolding validate_upstream validate_url
guards_differ parse url g on open_list = simp on (parsed_differ g (parse url) open_list)
