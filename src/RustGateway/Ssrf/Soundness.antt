-- ===== src/RustGateway/Ssrf/Soundness.antt =====
-- Which URLs the guard of rust-gateway/src/ssrf.rs accepts.
use mathlib.Core.Path.{subst}
use app_gate.Base.{
  ◌≤◌, ◌<◌, String, ◌≡◌, refl, sym, ◌↔◌, ◌⊎◌, ◌≢◌, Option, none, some, arith, contains,
  contains_iff, Any,
}
use app_gate.Base.Net.{Ipv4Addr, Ipv6Addr, v4, v6, is_loopback, is_unspecified, is_multicast}
use app_gate.Base.Result.{ok, err, ◌>>◌}
use app_gate.Base.Url.{Url, Host, domain, ipv4, ipv6, Parser, host_ip}
use app_gate.Gateway.Ssrf.Soundness.{IsAllowedV6, rejects_iff}
use app_gate.RustGateway.Ssrf.{
  blocked_hosts, Verdict, check_blocked, check_ip, check_parsed, check_url, validate_url,
}

-- An IPv4 address that is not 0.0.0.0, in 127.0.0.0/8 or in 224.0.0.0/4.
pub record IsRemote (i : Ipv4Addr) : Type 0 where
  pub not_this_host : ¬ ((i.a ≡ 0) × (i.b ≡ 0) × (i.c ≡ 0) × (i.d ≡ 0))
  pub not_loopback : i.a ≢ 127
  pub not_multicast : (i.a < 224) ⊎ (240 ≤ i.a)

abbrev pub Remote : Option Host → Type 0
Remote none = Unit
Remote (some (domain d)) = Unit
Remote (some (ipv4 i)) = IsRemote i
Remote (some (ipv6 i)) = IsAllowedV6 i

v4-IsRemote : (i : Ipv4Addr) → check_ip (some (v4 i)) ≡ ok tt → IsRemote i
unfolding is_loopback is_unspecified is_multicast
v4-IsRemote i h = record {
  not_this_host = ground arith;
  not_loopback = ground arith;
  not_multicast = ground arith;
}

v4_passes : (i : Ipv4Addr) → IsRemote i → check_ip (some (v4 i)) ≡ ok tt
unfolding is_loopback is_unspecified is_multicast
v4_passes i p = ground arith

v6-IsAllowedV6 : (i : Ipv6Addr) → check_ip (some (v6 i)) ≡ ok tt → IsAllowedV6 i
unfolding is_loopback is_unspecified is_multicast
v6-IsAllowedV6 i h = record { not_low = ground arith; not_multicast = ground arith }

v6_passes : (i : Ipv6Addr) → IsAllowedV6 i → check_ip (some (v6 i)) ≡ ok tt
unfolding is_loopback is_unspecified is_multicast
v6_passes i p = ground arith

Remote-iff : (h : Option Host) → (check_ip (host_ip h) ≡ ok tt) ↔ Remote h
Remote-iff none = (λ _. tt, λ _. refl)
Remote-iff (some (domain d)) = (λ _. tt, λ _. refl)
Remote-iff (some (ipv4 i)) = (v4-IsRemote i, v4_passes i)
Remote-iff (some (ipv6 i)) = (v6-IsAllowedV6 i, v6_passes i)

abbrev pub Unlisted : Option String → Type 0
Unlisted none = Unit
Unlisted (some h) = ¬ Any (λ x. x ≡ h) blocked_hosts

Unlisted-iff : (text : Option String) → (check_blocked text ≡ ok tt) ↔ Unlisted text
Unlisted-iff none = (λ _. tt, λ _. refl)
Unlisted-iff (some h) =
    rejects_iff (contains blocked_hosts h) "ssrf_localhost_blocked" (contains_iff blocked_hosts h)

pub record IsAccepted (u : Url) : Type 0 where
  pub unlisted : Unlisted u.host_str
  pub remote : Remote u.host

both_pass : (a b : Verdict) → ((a >> b) ≡ ok tt) ↔ ((a ≡ ok tt) × (b ≡ ok tt))
both_pass (ok a) b = (λ h. (refl, h), λ h. h.1)
both_pass (err e) b = (λ h. cc, λ h. cc (h.0))

check_url_iff : (u : Url) → (check_url u ≡ ok tt) ↔ IsAccepted u
unfolding check_url
check_url_iff u =
    let pass = both_pass (check_blocked u.host_str) (check_ip (host_ip u.host)) in
    (
      λ h. record {
        unlisted = (Unlisted-iff u.host_str).0 (pass.0 h).0;
        remote = (Remote-iff u.host).0 (pass.0 h).1;
      },
      λ a. pass.1 ((Unlisted-iff u.host_str).1 a.unlisted, (Remote-iff u.host).1 a.remote),
    )

some_inj : {u v : Url} → some u ≡ some v → u ≡ v
some_inj h = cc

check_parsed_iff :
    (parsed : Option Url)
    → (check_parsed parsed ≡ ok tt) ↔ ((u : Url) × (parsed ≡ some u) × IsAccepted u)
check_parsed_iff none = (λ h. cc, λ w. cc (w.1))
check_parsed_iff (some u) = (
  λ h. (u, refl, (check_url_iff u).0 h),
  λ w. (check_url_iff u).1 (subst IsAccepted (sym (some_inj w.1)) w.2),
)

-- A text is accepted exactly when it parses as a URL whose host text is none of the four local
-- names and whose host, where it is an address, is not unspecified, loopback or multicast.
pub validate_url_iff :
    (parse : Parser) (url : String)
    → (validate_url parse url ≡ ok tt) ↔ ((u : Url) × (parse url ≡ some u) × IsAccepted u)
unfolding validate_url
validate_url_iff parse url = check_parsed_iff (parse url)
