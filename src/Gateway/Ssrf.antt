-- ===== src/Gateway/Ssrf.antt =====
-- gateway/src/ssrf.rs. `Url::parse` is third-party code and a parameter.
pub mod Soundness
mod Tests
use app_gate.Base.{
  String, Bool, true, false, not, ◌&&◌, ◌||◌, Option, none, some, List, [], ◌∷◌, ◌==◌, ◌+++◌, any,
  contains, ends_with, if◌then◌else◌,
}
use app_gate.Base.Net.{
  IpAddr, v4, v6, is_loopback, is_unspecified, is_multicast, is_private, is_link_local,
}
use app_gate.Base.Result.{Result, ok, err, ◌>>=◌, ◌>>◌}
use app_gate.Base.Url.{Url, Parser, host_ip}

abbrev pub blocked_hosts : List String
blocked_hosts = "localhost" ∷ "127.0.0.1" ∷ "::1" ∷ "0.0.0.0" ∷ []

pub record SsrfDefense : Type 0 where
  pub approved_domains : List String
  pub enabled : Bool

-- `HashSet::insert`: a present item is not added again.
insert_new : String → List String → List String
insert_new domain domains = if contains domains domain then domains else domain ∷ domains

unfoldable pub new_with_defaults : SsrfDefense
unfolding insert_new contains any
new_with_defaults = record {
  approved_domains = insert_new "api.anthropic.com" (insert_new "api.openai.com" []);
  enabled = true;
}

unfoldable pub set_enabled : Bool → SsrfDefense → SsrfDefense
set_enabled enabled g = record g { enabled = enabled }

unfoldable pub approve_domain : String → SsrfDefense → SsrfDefense
unfolding insert_new
approve_domain domain g = record g { approved_domains = insert_new domain g.approved_domains }

abbrev pub Verdict : Type 0
Verdict = Result (Unit {0}) String

-- The first block of `validate_upstream`.
abbrev pub check_blocked : Option String → Verdict
check_blocked none = ok tt
check_blocked (some host) =
    if contains blocked_hosts host then err "ssrf_localhost_blocked" else ok tt

-- The IPv4 ranges of the second block.
abbrev pub check_private : IpAddr → Verdict
check_private (v6 ip) = ok tt
check_private (v4 ip) =
    if is_private ip
    then err "ssrf_private_ip_blocked"
    else if is_link_local ip
    then err "ssrf_link_local_blocked"
    else ok tt

abbrev pub check_ip : Option IpAddr → Verdict
check_ip none = ok tt
check_ip (some ip) =
    if is_loopback ip || is_unspecified ip || is_multicast ip
    then err "ssrf_internal_ip_blocked"
    else check_private ip

abbrev pub is_approved : String → String → Bool
is_approved host d = host == d || ends_with host ("." +++ d)

-- The third block: no check if no domain is approved, or the URL has no host.
abbrev pub check_approved : List String → Option String → Verdict
check_approved [] host = ok tt
check_approved (d ∷ ds) none = ok tt
check_approved (d ∷ ds) (some host) =
    if not (any (is_approved host) (d ∷ ds)) then err "ssrf_domain_not_approved" else ok tt

unfoldable pub check_url : SsrfDefense → Url → Verdict
check_url g parsed = do
  check_blocked parsed.host_str
  check_ip (host_ip parsed.host)
  check_approved g.approved_domains parsed.host_str

abbrev pub check_parsed : SsrfDefense → Option Url → Verdict
check_parsed g none = err "invalid_url"
check_parsed g (some parsed) = check_url g parsed

unfoldable pub validate_upstream : Parser → String → SsrfDefense → Verdict
validate_upstream parse url g = if not g.enabled then ok tt else check_parsed g (parse url)
