-- ===== src/RustGateway/Ssrf/Tests.antt =====
-- The guards at the address of a cloud metadata service.
use app_gate.Base.{◌≡◌, refl, ◌↔◌, some, contains, any}
use app_gate.Base.Net.{is_loopback, is_unspecified, is_multicast}
use app_gate.Base.Result.{ok}
use app_gate.Base.Url.{Url, ipv4, Parser}
use app_gate.RustGateway.Ssrf.{check_url, validate_url}
use app_gate.RustGateway.Ssrf.Soundness.{IsAccepted, validate_url_iff}

abbrev metadata : Url
metadata = record {
  host = some (ipv4 (record { a = 169; b = 254; c = 169; d = 254 }));
  host_str = some "169.254.169.254";
}

abbrev parse : Parser
parse s = some metadata

validate_url_iff_example :
    (validate_url parse "http://169.254.169.254/" ≡ ok tt)
    ↔ ((u : Url) × (parse "http://169.254.169.254/" ≡ some u) × IsAccepted u)
validate_url_iff_example = validate_url_iff parse "http://169.254.169.254/"

-- Only the other guard stops this URL.
metadata_accepted : validate_url parse "http://169.254.169.254/" ≡ ok tt
unfolding validate_url check_url contains any is_loopback is_unspecified is_multicast
metadata_accepted = refl
