-- ===== src/Gateway/Ssrf/Soundness.antt =====
-- Which URLs the guard of gateway/src/ssrf.rs accepts.
use app_gate.Base.{
  ◌/◌, ◌≤◌, ◌<◌, String, ◌≡◌, refl, ◌↔◌, ◌⊎◌, ◌≢◌, inl, inr, Bool, true, false, not, ◌||◌, Option,
  none, some, List, [], ◌∷◌, arith, any, Any, contains, contains_iff, ends_with, ends_with_iff,
  ◌==◌, eq_iff, ◌+++◌, or_iff, if◌then◌else◌, sym,
}
use mathlib.Core.Bool.{false≢true}
use mathlib.Core.Path.{subst}
use app_gate.Base.Net.{
  Ipv4Addr, Ipv6Addr, v4, v6, is_loopback, is_unspecified, is_multicast, is_private, is_link_local,
}
use app_gate.Base.Result.{ok, err, ◌>>◌}
use app_gate.Base.Url.{Url, Host, domain, ipv4, ipv6, Parser, IsUrlParser, HostText, host_ip}
use app_gate.Gateway.Ssrf.{
  check_ip, check_parsed, check_blocked, check_approved, is_approved, blocked_hosts, SsrfDefense,
  Verdict, check_url, validate_upstream,
}

-- The ranges that an IPv4 address must avoid, as bounds on its octets.
pub record IsAllowedV4 (i : Ipv4Addr) : Type 0 where
  pub not_this_host : ¬ ((i.a ≡ 0) × (i.b ≡ 0) × (i.c ≡ 0) × (i.d ≡ 0))
  pub not_loopback : i.a ≢ 127
  pub not_multicast : (i.a < 224) ⊎ (240 ≤ i.a)
  pub not_ten : i.a ≢ 10
  pub not_172 : ¬ ((i.a ≡ 172) × (16 ≤ i.b) × (i.b < 32))
  pub not_192 : ¬ ((i.a ≡ 192) × (i.b ≡ 168))
  pub not_link_local : ¬ ((i.a ≡ 169) × (i.b ≡ 254))

check_ip_v4 : (i : Ipv4Addr) → check_ip (some (v4 i)) ≡ ok tt → IsAllowedV4 i
unfolding is_loopback is_unspecified is_multicast is_private is_link_local
check_ip_v4 i h = record {
  not_this_host = ground arith;
  not_loopback = ground arith;
  not_multicast = ground arith;
  not_ten = ground arith;
  not_172 = ground arith;
  not_192 = ground arith;
  not_link_local = ground arith;
}

check_ip_of_IsAllowedV4 : (i : Ipv4Addr) → IsAllowedV4 i → check_ip (some (v4 i)) ≡ ok tt
unfolding is_loopback is_unspecified is_multicast is_private is_link_local
check_ip_of_IsAllowedV4 i p = ground arith

-- Not ::, not ::1, and not in ff00::/8.
pub record IsAllowedV6 (i : Ipv6Addr) : Type 0 where
  pub not_low : ¬ (
      (i.s0 ≡ 0)
      × (i.s1 ≡ 0)
      × (i.s2 ≡ 0)
      × (i.s3 ≡ 0)
      × (i.s4 ≡ 0)
      × (i.s5 ≡ 0)
      × (i.s6 ≡ 0)
      × (i.s7 ≤ 1))
  pub not_multicast : i.s0 / 256 ≢ 255

check_ip_v6 : (i : Ipv6Addr) → check_ip (some (v6 i)) ≡ ok tt → IsAllowedV6 i
unfolding is_loopback is_unspecified is_multicast
check_ip_v6 i h = record { not_low = ground arith; not_multicast = ground arith }

check_ip_of_IsAllowedV6 : (i : Ipv6Addr) → IsAllowedV6 i → check_ip (some (v6 i)) ≡ ok tt
unfolding is_loopback is_unspecified is_multicast
check_ip_of_IsAllowedV6 i p = ground arith

abbrev pub Outside : Option Host → Type 0
Outside none = Unit
Outside (some (domain d)) = Unit
Outside (some (ipv4 i)) = IsAllowedV4 i
Outside (some (ipv6 i)) = IsAllowedV6 i

Outside-iff : (h : Option Host) → (check_ip (host_ip h) ≡ ok tt) ↔ Outside h
Outside-iff none = (λ _. tt, λ _. refl)
Outside-iff (some (domain d)) = (λ _. tt, λ _. refl)
Outside-iff (some (ipv4 i)) = (check_ip_v4 i, check_ip_of_IsAllowedV4 i)
Outside-iff (some (ipv6 i)) = (check_ip_v6 i, check_ip_of_IsAllowedV6 i)

err-ne-ok : {reason : String} → ◌≢◌ {A = Verdict} (err reason) (ok tt)
err-ne-ok h = cc

-- A test that rejects, as a verdict and as a statement.
pub rejects_iff :
    (b : Bool) (reason : String) {P : Type 0}
    → (b ≡ true) ↔ P
    → (◌≡◌ {A = Verdict} (if b then err reason else ok tt) (ok tt)) ↔ (¬ P)
rejects_iff true reason h = (λ k p. cc, λ n. absurd (n (h.0 refl)))
rejects_iff false reason h = (λ k p. false≢true (h.1 p), λ n. refl)

requires_iff :
    (b : Bool) (reason : String) {P : Type 0}
    → (b ≡ true) ↔ P
    → (◌≡◌ {A = Verdict} (if not b then err reason else ok tt) (ok tt)) ↔ P
requires_iff true reason h = (λ k. h.0 refl, λ p. refl)
requires_iff false reason h = (λ k. absurd (err-ne-ok k), λ p. absurd (false≢true (h.1 p)))

abbrev pub Unblocked : Option String → Type 0
Unblocked none = Unit
Unblocked (some h) = ¬ Any (λ x. x ≡ h) blocked_hosts

Unblocked-iff : (text : Option String) → (check_blocked text ≡ ok tt) ↔ Unblocked text
Unblocked-iff none = (λ _. tt, λ _. refl)
Unblocked-iff (some h) =
    rejects_iff (contains blocked_hosts h) "ssrf_localhost_blocked" (contains_iff blocked_hosts h)

-- The host is the domain itself, or a name under it.
abbrev pub IsWithin : String → String → Type 0
IsWithin h d = (h ≡ d) ⊎ ((p : String) × (h ≡ p +++ "." +++ d))

is_approved_iff : (h d : String) → (is_approved h d ≡ true) ↔ IsWithin h d
is_approved_iff h d = (
  λ k. elim ((or_iff (h == d) (ends_with h ("." +++ d))).0 k) [
    | inl same ↦ inl ((eq_iff h d).0 same)
    | inr under ↦ inr ((ends_with_iff h ("." +++ d)).0 under)
  ],
  λ w. elim w [
    | inl same ↦ (or_iff (h == d) (ends_with h ("." +++ d))).1 (inl ((eq_iff h d).1 same))
    | inr under ↦
        (or_iff (h == d) (ends_with h ("." +++ d))).1 (inr ((ends_with_iff h ("." +++ d)).1 under))
  ],
)

abbrev pub Approved : List String → Option String → Type 0
Approved [] text = Unit
Approved (d ∷ ds) none = Unit
Approved (d ∷ ds) (some h) = Any (IsWithin h) (d ∷ ds)

any_cons_iff :
    (b c : Bool) {P Q : Type 0} → (b ≡ true) ↔ P → (c ≡ true) ↔ Q → ((b || c) ≡ true) ↔ (P ⊎ Q)
any_cons_iff true c h k = (λ _. inl (h.0 refl), λ _. refl)
any_cons_iff false c h k =
    (λ e. inr (k.0 e), λ w. elim w [ inl p ↦ absurd (false≢true (h.1 p)) | inr q ↦ k.1 q ])

any_approved_iff :
    (h : String) (ds : List String) → (any (is_approved h) ds ≡ true) ↔ Any (IsWithin h) ds
unfolding any
any_approved_iff h [] = ground arith
any_approved_iff h (d ∷ ds) = any_cons_iff _ _ (is_approved_iff h d) (any_approved_iff h ds)

Approved-iff :
    (ds : List String) (text : Option String) → (check_approved ds text ≡ ok tt) ↔ Approved ds text
Approved-iff [] text = (λ _. tt, λ _. refl)
Approved-iff (d ∷ ds) none = (λ _. tt, λ _. refl)
Approved-iff (d ∷ ds) (some h) =
    requires_iff (any (is_approved h) (d ∷ ds)) "ssrf_domain_not_approved"
      (any_approved_iff h (d ∷ ds))

pub record IsAccepted (g : SsrfDefense) (u : Url) : Type 0 where
  pub unblocked : Unblocked u.host_str
  pub outside : Outside u.host
  pub approved : Approved g.approved_domains u.host_str

all_pass : (a b c : Verdict) → ((do a; b; c) ≡ ok tt) ↔ ((a ≡ ok tt) × (b ≡ ok tt) × (c ≡ ok tt))
all_pass (ok a) (ok b) (ok c) = (λ h. (refl, refl, refl), λ h. refl)
all_pass (ok a) (ok b) (err e) = (λ h. absurd (err-ne-ok h), λ h. h.2)
all_pass (ok a) (err e) c = (λ h. absurd (err-ne-ok h), λ h. h.1)
all_pass (err e) b c = (λ h. absurd (err-ne-ok h), λ h. h.0)

check_url_iff : (g : SsrfDefense) (u : Url) → (check_url g u ≡ ok tt) ↔ IsAccepted g u
unfolding check_url
check_url_iff g u =
    let pass =
      all_pass (check_blocked u.host_str) (check_ip (host_ip u.host))
        (check_approved g.approved_domains u.host_str) in
    (
      λ h. record {
        unblocked = (Unblocked-iff u.host_str).0 (pass.0 h).0;
        outside = (Outside-iff u.host).0 (pass.0 h).1;
        approved = (Approved-iff g.approved_domains u.host_str).0 (pass.0 h).2;
      },
      λ a. pass.1 (
        (Unblocked-iff u.host_str).1 a.unblocked,
        (Outside-iff u.host).1 a.outside,
        (Approved-iff g.approved_domains u.host_str).1 a.approved,
      ),
    )

some_inj : {u v : Url} → some u ≡ some v → u ≡ v
some_inj h = cc

check_parsed_iff :
    (g : SsrfDefense) (parsed : Option Url)
    → (check_parsed g parsed ≡ ok tt) ↔ ((u : Url) × (parsed ≡ some u) × IsAccepted g u)
check_parsed_iff g none = (λ h. absurd (err-ne-ok h), λ w. cc (w.1))
check_parsed_iff g (some u) = (
  λ h. (u, refl, (check_url_iff g u).0 h),
  λ w. (check_url_iff g u).1 (subst (IsAccepted g) (sym (some_inj w.1)) w.2),
)

-- A guard that is switched on accepts a text exactly when it parses as a URL whose host is not a
-- listed local name, is no IPv4 address that is 0.0.0.0, loopback, private, link-local or
-- multicast, is no IPv6 address that is ::, ::1 or multicast (every other IPv6 address passes this
-- test, also a unique-local or link-local one and one that stands for an IPv4 address), and is an
-- approved domain or a name under one, where there is a host and a domain is approved at all.
pub validate_upstream_iff :
    (parse : Parser) (url : String) (g : SsrfDefense)
    → g.enabled ≡ true
    → (validate_upstream parse url g ≡ ok tt) ↔ ((u : Url) × (parse url ≡ some u) × IsAccepted g u)
unfolding validate_upstream
validate_upstream_iff parse url g on = simp on (check_parsed_iff g (parse url))

HostText-none : (h : Option Host) (text : Option String) → HostText h text → h ≡ none → text ≡ none
HostText-none none text t e = t
HostText-none (some h) text t e = cc

approved_none :
    (ds : List String) (text : Option String) → text ≡ none → check_approved ds text ≡ ok tt
approved_none [] text e = refl
approved_none (d ∷ ds) text e = rw e

-- A URL without a host passes every guard, whatever domains it approves.
pub hostless_accepted :
    (parse : Parser)
    → IsUrlParser parse
    → (url : String) (u : Url) (g : SsrfDefense) → parse url ≡ some u
    → u.host ≡ none
    → validate_upstream parse url g ≡ ok tt
unfolding validate_upstream check_url
hostless_accepted parse p url u g e h =
    let text : u.host_str ≡ none = HostText-none u.host u.host_str (p.host_text url u e) h in
    simp (e, h, text) (ground (arith, approved_none g.approved_domains none refl))
