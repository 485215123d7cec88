-- ===== src/Base/Net.antt =====
-- IP addresses as in Rust's `std::net`: an IPv4 address is its four octets, an IPv6 address its
-- eight 16-bit segments.
use Prim.Native.Nat.{ℕ, ◌/◌}
use mathlib.Core.Bool.{Bool, ◌&&◌, ◌||◌}
use app_gate.Base.Tests.{nat_eq, leb}

pub record Ipv4Addr : Type 0 where
  pub a : ℕ
  pub b : ℕ
  pub c : ℕ
  pub d : ℕ

pub record Ipv6Addr : Type 0 where
  pub s0 : ℕ
  pub s1 : ℕ
  pub s2 : ℕ
  pub s3 : ℕ
  pub s4 : ℕ
  pub s5 : ℕ
  pub s6 : ℕ
  pub s7 : ℕ

pub data IpAddr : Type 0 where
  v4 : Ipv4Addr → IpAddr
  v6 : Ipv6Addr → IpAddr

abbrev in_range : ℕ → ℕ → ℕ → Bool
in_range lo hi n = leb lo n && leb n hi

-- The first seven segments are 0.
abbrev low_only : Ipv6Addr → Bool
low_only i =
    (nat_eq i.s0 0 && nat_eq i.s1 0 && nat_eq i.s2 0 && nat_eq i.s3 0)
    && (nat_eq i.s4 0 && nat_eq i.s5 0 && nat_eq i.s6 0)

-- 127.0.0.0/8, and ::1
unfoldable pub is_loopback : IpAddr → Bool
is_loopback (v4 i) = nat_eq i.a 127
is_loopback (v6 i) = low_only i && nat_eq i.s7 1

-- 0.0.0.0, and ::
unfoldable pub is_unspecified : IpAddr → Bool
is_unspecified (v4 i) = nat_eq i.a 0 && nat_eq i.b 0 && nat_eq i.c 0 && nat_eq i.d 0
is_unspecified (v6 i) = low_only i && nat_eq i.s7 0

-- 224.0.0.0/4, and ff00::/8
unfoldable pub is_multicast : IpAddr → Bool
is_multicast (v4 i) = in_range 224 239 i.a
is_multicast (v6 i) = nat_eq (i.s0 / 256) 255

-- 10.0.0.0/8, 172.16.0.0/12 and 192.168.0.0/16
unfoldable pub is_private : Ipv4Addr → Bool
is_private i =
    nat_eq i.a 10 || (nat_eq i.a 172 && in_range 16 31 i.b) || (nat_eq i.a 192 && nat_eq i.b 168)

-- 169.254.0.0/16
unfoldable pub is_link_local : Ipv4Addr → Bool
is_link_local i = nat_eq i.a 169 && nat_eq i.b 254
