-- ===== src/Network/IpAddrExt/Blocks.antt =====
-- The globally reachable IPv4 addresses, as those outside a list of blocks.
use retrack.Prelude.{
  true, false, if◌then◌else◌, refl, ◌==◌, leb, any, ◌+◌, ◌*◌, ◌<◌, ◌≡◌, ℕ, Bool, not, ◌&&◌, ◌||◌,
  List, [], ◌∷◌, arith, ◌/◌,
}
use retrack.Network.IpAddrExt.{v4, is_global}

-- an address as a number
abbrev pub number : ℕ → ℕ → ℕ → ℕ → ℕ
number a b c d = ((a * 256 + b) * 256 + c) * 256 + d

abbrev pub within : ℕ → ℕ × ℕ → Bool
within n block = leb block.0 n && leb n block.1

-- the first and the last address of each block of the registry that is not globally reachable
abbrev pub special_blocks : List (ℕ × ℕ)
special_blocks =
    (number 127 0 0 0, number 127 255 255 255)
    ∷ (number 0 0 0 0, number 0 255 255 255)
    ∷ (number 10 0 0 0, number 10 255 255 255)
    ∷ (number 172 16 0 0, number 172 31 255 255)
    ∷ (number 192 168 0 0, number 192 168 255 255)
    ∷ (number 100 64 0 0, number 100 127 255 255)
    ∷ (number 169 254 0 0, number 169 254 255 255)
    ∷ (number 192 0 0 0, number 192 0 0 255)
    ∷ (number 192 0 2 0, number 192 0 2 255)
    ∷ (number 198 51 100 0, number 198 51 100 255)
    ∷ (number 203 0 113 0, number 203 0 113 255)
    ∷ (number 198 18 0 0, number 198 19 255 255)
    ∷ (number 240 0 0 0, number 255 255 255 255)
    ∷ []

-- the order of the tests, where `unspecified` lies within `zero` and `broadcast` within `high`
same_tests :
    (unspecified loopback zero p q r cgnat link protocols x y z benchmark high broadcast : Bool)
    → (unspecified ≡ true → zero ≡ true)
    → (broadcast ≡ true → high ≡ true)
    → (if unspecified || loopback
        then false
        else not (
            zero
            || (p || q || r)
            || cgnat
            || link
            || protocols
            || (x || y || z)
            || benchmark
            || (high && not broadcast)
            || broadcast))
      ≡ not (
          loopback
          || (zero
              || (p
                  || (q
                      || (r
                          || (cgnat
                              || (link
                                  || (protocols
                                      || (x || (y || (z || (benchmark || (high || false)))))))))))))
same_tests u true zero p q r g l o x y z b h c i j = ground arith
same_tests u false true p q r g l o x y z b h c i j = ground arith
same_tests true false false p q r g l o x y z b h c i j = absurd (ground (arith, i refl))
same_tests false false false true q r g l o x y z b h c i j = refl
same_tests false false false false true r g l o x y z b h c i j = refl
same_tests false false false false false true g l o x y z b h c i j = refl
same_tests false false false false false false true l o x y z b h c i j = refl
same_tests false false false false false false false true o x y z b h c i j = refl
same_tests false false false false false false false false true x y z b h c i j = refl
same_tests false false false false false false false false false true y z b h c i j = refl
same_tests false false false false false false false false false false true z b h c i j = refl
same_tests false false false false false false false false false false false true b h c i j = refl
same_tests false false false false false false false false false false false false true h c i j =
    refl
same_tests false false false false false false false false false false false false false h true i
      j =
    ground (arith, j refl)
same_tests false false false false false false false false false false false false false true false
      i j =
    refl
same_tests false false false false false false false false false false false false false false false
      i j =
    refl

module _ (a b c d : ℕ) (ha : a < 256) (hb : b < 256) (hc : c < 256) (hd : d < 256) where
  -- a block of one, two or three leading octets
  one_octet :
      (k : ℕ) → k < 256 → within (number a b c d) (number k 0 0 0, number k 255 255 255) ≡ (a == k)
  one_octet k h = ground arith

  two_octets :
      (k l m : ℕ)
      → k < 256
      → l < 256
      → m < 256
      → within (number a b c d) (number k l 0 0, number k m 255 255)
        ≡ (a == k && (leb l b && leb b m))
  two_octets k l m h i j = ground arith

  three_octets :
      (k l m : ℕ)
      → k < 256
      → l < 256
      → m < 256
      → within (number a b c d) (number k l m 0, number k l m 255) ≡ (a == k && (b == l && c == m))
  three_octets k l m h i j = ground arith

  last_block : within (number a b c d) (number 240 0 0 0, number 255 255 255 255) ≡ leb 240 a
  last_block = ground arith

  private_172 :
      within (number a b c d) (number 172 16 0 0, number 172 31 255 255)
      ≡ (a == 172 && leb 16 b && leb b 31)
  private_172 = rw (two_octets 172 16 31 (omega arith) (omega arith) (omega arith)) (ground arith)

  private_192 :
      within (number a b c d) (number 192 168 0 0, number 192 168 255 255) ≡ (a == 192 && b == 168)
  private_192 = rw (two_octets 192 168 168 (omega arith) (omega arith) (omega arith)) (ground arith)

  shared :
      within (number a b c d) (number 100 64 0 0, number 100 127 255 255)
      ≡ (a == 100 && b / 64 == 1)
  shared = rw (two_octets 100 64 127 (omega arith) (omega arith) (omega arith)) (ground arith)

  link_local :
      within (number a b c d) (number 169 254 0 0, number 169 254 255 255) ≡ (a == 169 && b == 254)
  link_local = rw (two_octets 169 254 254 (omega arith) (omega arith) (omega arith)) (ground arith)

  protocols :
      within (number a b c d) (number 192 0 0 0, number 192 0 0 255)
      ≡ (a == 192 && b == 0 && c == 0)
  protocols = rw (three_octets 192 0 0 (omega arith) (omega arith) (omega arith)) (ground arith)

  documentation_192 :
      within (number a b c d) (number 192 0 2 0, number 192 0 2 255)
      ≡ (a == 192 && b == 0 && c == 2)
  documentation_192 =
      rw (three_octets 192 0 2 (omega arith) (omega arith) (omega arith)) (ground arith)

  documentation_198 :
      within (number a b c d) (number 198 51 100 0, number 198 51 100 255)
      ≡ (a == 198 && b == 51 && c == 100)
  documentation_198 =
      rw (three_octets 198 51 100 (omega arith) (omega arith) (omega arith)) (ground arith)

  documentation_203 :
      within (number a b c d) (number 203 0 113 0, number 203 0 113 255)
      ≡ (a == 203 && b == 0 && c == 113)
  documentation_203 =
      rw (three_octets 203 0 113 (omega arith) (omega arith) (omega arith)) (ground arith)

  benchmark :
      within (number a b c d) (number 198 18 0 0, number 198 19 255 255) ≡ (a == 198 && b / 2 == 9)
  benchmark = rw (two_octets 198 18 19 (omega arith) (omega arith) (omega arith)) (ground arith)

  reserved : within (number a b c d) (number 240 0 0 0, number 255 255 255 255) ≡ (a / 16 == 15)
  reserved = rw last_block (ground arith)

  -- An IPv4 address is globally reachable exactly if it lies in none of the special blocks.
  pub is_global-eq-blocks :
      is_global (v4 a b c d) ≡ not (any (within (number a b c d)) special_blocks)
  unfolding is_global
  is_global-eq-blocks =
      rw
        (
          one_octet 127 (omega arith),
          one_octet 0 (omega arith),
          one_octet 10 (omega arith),
          private_172,
          private_192,
          shared,
          link_local,
          protocols,
          documentation_192,
          documentation_198,
          documentation_203,
          benchmark,
          reserved,
        )
        (same_tests (a == 0 && b == 0 && c == 0 && d == 0) (a == 127) (a == 0) (a == 10)
          (a == 172 && leb 16 b && leb b 31) (a == 192 && b == 168) (a == 100 && b / 64 == 1)
          (a == 169 && b == 254) (a == 192 && b == 0 && c == 0) (a == 192 && b == 0 && c == 2)
          (a == 198 && b == 51 && c == 100) (a == 203 && b == 0 && c == 113)
          (a == 198 && b / 2 == 9) (a / 16 == 15) (a == 255 && b == 255 && c == 255 && d == 255)
          (λ e. ground arith) (λ e. ground arith))
