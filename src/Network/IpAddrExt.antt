-- ===== src/Network/IpAddrExt.antt =====
-- src/network/ip_addr_ext.rs: the addresses that are globally reachable. An octet is a number below
-- 256 and a segment one below 65536. A test of leading bits, `x & mask == bits`, is written as a
-- test of `x` divided by the lowest bit of the mask.
pub mod Blocks
use retrack.Prelude.{◌==◌, ltb, leb, ◌/◌, ℕ, Bool, true, false, not, ◌&&◌, ◌||◌, if◌then◌else◌}

pub data IpAddr : Type 0 where
  v4 : ℕ → ℕ → ℕ → ℕ → IpAddr
  v6 : ℕ → ℕ → ℕ → ℕ → ℕ → ℕ → ℕ → ℕ → IpAddr

abbrev pub is_unspecified : IpAddr → Bool
is_unspecified (v4 a b c d) = a == 0 && b == 0 && c == 0 && d == 0
is_unspecified (v6 a b c d e f g h) =
    a == 0 && b == 0 && c == 0 && d == 0 && e == 0 && f == 0 && g == 0 && h == 0

abbrev pub is_loopback : IpAddr → Bool
is_loopback (v4 a b c d) = a == 127
is_loopback (v6 a b c d e f g h) =
    a == 0 && b == 0 && c == 0 && d == 0 && e == 0 && f == 0 && g == 0 && h == 1

-- the methods of `Ipv4Addr`
abbrev is_private : ℕ → ℕ → Bool
is_private a b = a == 10 || (a == 172 && leb 16 b && leb b 31) || (a == 192 && b == 168)

abbrev is_documentation : ℕ → ℕ → ℕ → Bool
is_documentation a b c =
    (a == 192 && b == 0 && c == 2)
    || (a == 198 && b == 51 && c == 100)
    || (a == 203 && b == 0 && c == 113)

abbrev is_broadcast : ℕ → ℕ → ℕ → ℕ → Bool
is_broadcast a b c d = a == 255 && b == 255 && c == 255 && d == 255

unfoldable pub is_reserved_v4 : ℕ → ℕ → ℕ → ℕ → Bool
is_reserved_v4 a b c d =
    a == 0
    || is_private a b
    || (a == 100 && b / 64 == 1)
    || (a == 169 && b == 254)
    || (a == 192 && b == 0 && c == 0)
    || is_documentation a b c
    || (a == 198 && b / 2 == 9)
    || (a / 16 == 15 && not (is_broadcast a b c d))
    || is_broadcast a b c d

-- the assignments below `2001::/23` that are globally reachable
abbrev is_assigned : ℕ → ℕ → ℕ → ℕ → ℕ → ℕ → ℕ → Bool
is_assigned b c d e f g h =
    (b == 1 && c == 0 && d == 0 && e == 0 && f == 0 && g == 0 && h == 1)
    || (b == 1 && c == 0 && d == 0 && e == 0 && f == 0 && g == 0 && h == 2)
    || b == 3
    || (b == 4 && c == 0x112)
    || (leb 0x20 b && leb b 0x2f)

unfoldable pub is_reserved_v6 : ℕ → ℕ → ℕ → ℕ → ℕ → ℕ → ℕ → ℕ → Bool
is_reserved_v6 a b c d e f g h =
    (a == 0 && b == 0 && c == 0 && d == 0 && e == 0 && f == 0xffff)
    || (a == 0x64 && b == 0xff9b && c == 1)
    || (a == 0x100 && b == 0 && c == 0 && d == 0)
    || (a == 0x2001 && ltb b 0x200 && not (is_assigned b c d e f g h))
    || (a == 0x2001 && b == 0xdb8)
    || a / 512 == 126
    || a / 64 == 1018

abbrev is_reserved : IpAddr → Bool
is_reserved (v4 a b c d) = is_reserved_v4 a b c d
is_reserved (v6 a b c d e f g h) = is_reserved_v6 a b c d e f g h

unfoldable pub is_global : IpAddr → Bool
unfolding is_reserved_v4 is_reserved_v6
is_global ip = if is_unspecified ip || is_loopback ip then false else not (is_reserved ip)
