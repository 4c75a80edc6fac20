-- ===== src/UrlTarget/Address.antt =====
-- The IPv4 blocks that `isNonPublicIP` of v2proxy/urlcheck.go refuses.
use v2pro_dock.Base.{
  ℕ, ◌+◌, ◌*◌, ◌<◌, ◌≡◌, ap, ◌∙◌, Bool, false, ◌&&◌, ◌||◌, List, [], ◌∷◌, ◌++◌, arith, leb, nat_eq,
  nat_equal, string_equal,
}
use v2pro_dock.UrlTarget.{is_non_public_v4, is_special_v4, within}

-- An address as one number
abbrev pub address : ℕ → ℕ → ℕ → ℕ → ℕ
address a b c d = a * 16_777_216 + b * 65_536 + c * 256 + d

-- The first and the last address of each block that the methods of `net.IP` name, as published.
abbrev pub special_blocks : List (ℕ × ℕ)
special_blocks =
    -- 127.0.0.0/8
    (2_130_706_432, 2_147_483_647)
    -- 0.0.0.0/32
    ∷ (0, 0)
    -- 224.0.0.0/4
    ∷ (3_758_096_384, 4_026_531_839)
    -- 10.0.0.0/8
    ∷ (167_772_160, 184_549_375)
    -- 172.16.0.0/12
    ∷ (2_886_729_728, 2_887_778_303)
    -- 192.168.0.0/16
    ∷ (3_232_235_520, 3_232_301_055)
    -- 169.254.0.0/16
    ∷ (2_851_995_648, 2_852_061_183)
    ∷ []

-- Those of the blocks that the code adds.
abbrev pub further_blocks : List (ℕ × ℕ)
further_blocks =
    -- 100.64.0.0/10
    (1_681_915_904, 1_686_110_207)
    -- 198.18.0.0/15
    ∷ (3_323_068_416, 3_323_199_487)
    -- 192.0.0.192/32
    ∷ (3_221_225_664, 3_221_225_664)
    -- 240.0.0.0/4
    ∷ (4_026_531_840, 4_294_967_295)
    ∷ []

abbrev pub in_block : ℕ → ℕ × ℕ → Bool
in_block n (lo, hi) = leb lo n && leb n hi

-- Is the address in one of the blocks, or was it found before?
abbrev pub found_in : Bool → ℕ → List (ℕ × ℕ) → Bool
found_in found n [] = found
found_in found n (b ∷ bs) = found_in (found || in_block n b) n bs

abbrev pub in_blocks : ℕ → List (ℕ × ℕ) → Bool
in_blocks n = found_in false n

or_both : {a b c d : Bool} → a ≡ b → c ≡ d → (a || c) ≡ (b || d)
or_both {a} {b} {c} {d} h k = ap (λ x. x || c) h ∙ ap (λ x. b || x) k

-- The addresses are made of bytes.
module _ (a b c d : ℕ) (ha : a < 256) (hb : b < 256) (hc : c < 256) (hd : d < 256) where
  loopback_block : (nat_eq a 127) ≡ in_block (address a b c d) (2_130_706_432, 2_147_483_647)
  loopback_block = ground arith

  unspecified_block :
      (nat_eq a 0 && nat_eq b 0 && nat_eq c 0 && nat_eq d 0) ≡ in_block (address a b c d) (0, 0)
  unspecified_block = ground arith

  multicast_block : (within 224 239 a) ≡ in_block (address a b c d) (3_758_096_384, 4_026_531_839)
  multicast_block = ground arith

  private10_block : (nat_eq a 10) ≡ in_block (address a b c d) (167_772_160, 184_549_375)
  private10_block = ground arith

  private172_block :
      (nat_eq a 172 && within 16 31 b) ≡ in_block (address a b c d) (2_886_729_728, 2_887_778_303)
  private172_block = ground arith

  private192_block :
      (nat_eq a 192 && nat_eq b 168) ≡ in_block (address a b c d) (3_232_235_520, 3_232_301_055)
  private192_block = ground arith

  link_local_block :
      (nat_eq a 169 && nat_eq b 254) ≡ in_block (address a b c d) (2_851_995_648, 2_852_061_183)
  link_local_block = ground arith

  carrier_block :
      (nat_eq a 100 && leb 64 b && leb b 127)
      ≡ in_block (address a b c d) (1_681_915_904, 1_686_110_207)
  carrier_block = ground arith

  benchmark_block :
      (nat_eq a 198 && (nat_eq b 18 || nat_eq b 19))
      ≡ in_block (address a b c d) (3_323_068_416, 3_323_199_487)
  benchmark_block = ground arith

  metadata_block :
      (nat_eq a 192 && nat_eq b 0 && nat_eq c 0 && nat_eq d 192)
      ≡ in_block (address a b c d) (3_221_225_664, 3_221_225_664)
  metadata_block = ground arith

  reserved_block : (leb 240 a) ≡ in_block (address a b c d) (4_026_531_840, 4_294_967_295)
  reserved_block = ground arith

  special_v4-blocks : is_special_v4 a b c d ≡ in_blocks (address a b c d) special_blocks
  unfolding is_special_v4
  special_v4-blocks =
      or_both
        (or_both
          (or_both
            (or_both (or_both (or_both loopback_block unspecified_block) multicast_block)
              private10_block)
            private172_block)
          private192_block)
        link_local_block

  all_v4-blocks :
      is_non_public_v4 a b c d ≡ in_blocks (address a b c d) (special_blocks ++ further_blocks)
  unfolding is_non_public_v4
  all_v4-blocks =
      or_both
        (or_both (or_both (or_both special_v4-blocks carrier_block) benchmark_block) metadata_block)
        reserved_block

-- The tests on the four bytes of an address accept exactly those outside the published blocks: as
-- one number, an address is refused exactly if it lies in one of the blocks.
pub is_non_public_v4-blocks :
    (a b c d : ℕ)
    → a < 256
    → b < 256
    → c < 256
    → d < 256
    → is_non_public_v4 a b c d ≡ in_blocks (address a b c d) (special_blocks ++ further_blocks)
is_non_public_v4-blocks = all_v4-blocks
