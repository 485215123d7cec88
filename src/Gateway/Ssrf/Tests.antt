-- ===== src/Gateway/Ssrf/Tests.antt =====
-- Runs of the guard over a parser that knows three URLs, and the theorems at them.
use app_gate.Base.{
  ◌≡◌, refl, ◌↔◌, Bool, true, false, Option, none, some, ◌==◌, contains, any, ends_with,
}
use app_gate.Base.Net.{is_loopback, is_unspecified, is_multicast, is_private, is_link_local}
use app_gate.Base.Result.{ok, err}
use app_gate.Base.Url.{Url, domain, ipv4, Parser}
use app_gate.Gateway.Ssrf.{new_with_defaults, check_url, validate_upstream}
use app_gate.Gateway.Ssrf.Soundness.{IsAccepted, validate_upstream_iff}

abbrev passwd : Url
passwd = record { host = none; host_str = none }

abbrev openai : Url
openai = record { host = some (domain "eu.api.openai.com"); host_str = some "eu.api.openai.com" }

abbrev metadata : Url
metadata = record {
  host = some (ipv4 (record { a = 169; b = 254; c = 169; d = 254 }));
  host_str = some "169.254.169.254";
}

abbrev pick : Bool → Bool → Bool → Option Url
pick true b c = some passwd
pick false true c = some openai
pick false false true = some metadata
pick false false false = none

abbrev parse : Parser
parse s =
    pick (s == "file:///etc/passwd") (s == "https://eu.api.openai.com/v1")
      (s == "http://169.254.169.254/")

some_inj : {u v : Url} → some u ≡ some v → u ≡ v
some_inj h = cc

verdicts :
    (validate_upstream parse "https://eu.api.openai.com/v1" new_with_defaults ≡ ok tt)
    × (validate_upstream parse "http://169.254.169.254/" new_with_defaults
        ≡ err "ssrf_link_local_blocked")
    × (validate_upstream parse "no url" new_with_defaults ≡ err "invalid_url")
unfolding validate_upstream check_url new_with_defaults contains any ends_with is_loopback
    is_unspecified is_multicast is_private is_link_local
verdicts = (refl, refl, refl)

defaults_on : new_with_defaults.enabled ≡ true
unfolding new_with_defaults
defaults_on = refl

validate_upstream_iff_example :
    (validate_upstream parse "https://eu.api.openai.com/v1" new_with_defaults ≡ ok tt)
    ↔ ((u : Url) × (parse "https://eu.api.openai.com/v1" ≡ some u) × IsAccepted new_with_defaults u)
validate_upstream_iff_example =
    validate_upstream_iff parse "https://eu.api.openai.com/v1" new_with_defaults defaults_on
