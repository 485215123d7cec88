-- ===== src/Base/Url.antt =====
-- The part of the third-party crate `url` that both SSRF guards call: `Url::parse` is a parameter
-- of theirs, and a parsed URL is what its two accessors give.
use Prim.Native.String.{String}
use mathlib.Core.Path.{◌≡◌}
use mathlib.Core.Option.{Option, none, some}
use app_gate.Base.Net.{Ipv4Addr, Ipv6Addr, IpAddr, v4, v6}
use app_gate.Base.Text.{◌+++◌}

pub data Host : Type 0 where
  domain : String → Host
  ipv4 : Ipv4Addr → Host
  ipv6 : Ipv6Addr → Host

pub record Url : Type 0 where
  pub host : Option Host
  pub host_str : Option String

abbrev pub Parser : Type 0
Parser = String → Option Url

-- The texts of a host. Only the shape of an address's text is stated.
abbrev pub HostText : Option Host → Option String → Type 0
HostText none text = text ≡ none
HostText (some (domain d)) text = text ≡ some d
HostText (some (ipv4 i)) text = (t : String) × (text ≡ some t)
HostText (some (ipv6 i)) text = (t : String) × (text ≡ some ("[" +++ t +++ "]"))

-- What the crate documents of the two accessors: there is a host text exactly when there is a
-- host, a domain is its own text, and an IPv6 address is written in brackets.
pub record IsUrlParser (parse : Parser) : Type 0 where
  pub host_text : (s : String) (u : Url) → parse s ≡ some u → HostText u.host u.host_str

-- The guards' `match` on the host.
abbrev pub ip_of_host : Host → Option IpAddr
ip_of_host (ipv4 ip) = some (v4 ip)
ip_of_host (ipv6 ip) = some (v6 ip)
ip_of_host (domain d) = none

abbrev pub host_ip : Option Host → Option IpAddr
host_ip none = none
host_ip (some h) = ip_of_host h
