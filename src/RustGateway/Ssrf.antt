-- ===== src/RustGateway/Ssrf.antt =====
-- rust-gateway/src/ssrf.rs. `Url::parse` is third-party code and a parameter.
pub mod Soundness
pub mod Ranges
mod Tests
use app_gate.Base.{String, ◌||◌, Option, none, some, List, [], ◌∷◌, contains, if◌then◌else◌}
use app_gate.Base.Net.{IpAddr, is_loopback, is_unspecified, is_multicast}
use app_gate.Base.Result.{Result, ok, err, ◌>>=◌, ◌>>◌}
use app_gate.Base.Url.{Url, Parser, host_ip}

abbrev pub blocked_hosts : List String
blocked_hosts = "localhost" ∷ "127.0.0.1" ∷ "::1" ∷ "0.0.0.0" ∷ []

abbrev pub Verdict : Type 0
Verdict = Result (Unit {0}) String

abbrev pub check_blocked : Option String → Verdict
check_blocked none = ok tt
check_blocked (some host) =
    if contains blocked_hosts host then err "ssrf_localhost_blocked" else ok tt

abbrev pub check_ip : Option IpAddr → Verdict
check_ip none = ok tt
check_ip (some ip) =
    if is_loopback ip || is_unspecified ip || is_multicast ip
    then err "ssrf_internal_ip_blocked"
    else ok tt

unfoldable pub check_url : Url → Verdict
check_url parsed = do check_blocked parsed.host_str; check_ip (host_ip parsed.host)

abbrev pub check_parsed : Option Url → Verdict
check_parsed none = err "invalid_url"
check_parsed (some parsed) = check_url parsed

unfoldable pub validate_url : Parser → String → Verdict
validate_url parse input = check_parsed (parse input)
