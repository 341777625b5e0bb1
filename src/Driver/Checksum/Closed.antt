-- ===== src/Driver/Checksum/Closed.antt =====
-- The checksum of driver/wg05.cpp without its loop: each byte turned by its distance from the end.
use pr2_ether_cat_no_ros.Base.{
  ℕ, zero, suc, ◌-◌, ◌+◌, ◌*◌, ◌/◌, ◌%◌, ◌^◌, bit_xor, ◌≡◌, refl, ap, sym, ◌∙◌, Bool, List, [], ◌∷◌,
  arith, length, ◌==◌, ==_iff,
}
use pr2_ether_cat_no_ros.Base.Bits.{
  zero-bit_xor, bit_xor-lt, bit_xor_comm, bit_xor_assoc, bit_xor_above, half-bit_xor, bit_xor_step,
}
use pr2_ether_cat_no_ros.Base.Memory.{IsByte, IsBytes}
use pr2_ether_cat_no_ros.Driver.Checksum.{rotate_right8, mix, checksum_from, compute_checksum}
use pr2_ether_cat_no_ros.Driver.Checksum.Laws.{
  passes, passes_at, rotate_right8_lem, rotate_right8-IsByte, mix_lem, mix-IsByte,
}

-- The lowest `k` digits of a byte go to the top, and the others come down.
abbrev pub places : ℕ → ℕ → ℕ
places k x = x / 2 ^ k + x % 2 ^ k * 2 ^ (8 - k)

-- A byte turned right `n` times by one place.
abbrev pub turned : ℕ → ℕ → ℕ
turned n x = places (n % 8) x

-- The bytes, each turned as often as there are bytes behind it, with their digits added without
-- carry.
unfoldable pub folded : List ℕ → ℕ
folded [] = 0
folded (d ∷ ds) = bit_xor (turned (length ds) d) (folded ds)

one_more : ℕ → ℕ → Bool
one_more k x = turned k (rotate_right8 x) == turned (suc k) x

one_more_each : ℕ → Bool
one_more_each k = passes (one_more k) 256

turned-suc : (n x : ℕ) → IsByte x → turned (suc n) x ≡ turned n (rotate_right8 x)
unfolding passes one_more one_more_each rotate_right8
turned-suc n x h =
    let run =
      passes_at (one_more (n % 8)) x 256 h (passes_at one_more_each (n % 8) 8 (omega arith) refl) in
    let e = (==_iff _ _).0 run in
    ap (λ k. places k x) (omega arith) ∙ sym e ∙ ap (λ k. places k (rotate_right8 x)) (omega arith)

-- Turning by one place is digit by digit.
rotate_right8-bit_xor :
    (x y : ℕ)
    → IsByte x
    → IsByte y
    → rotate_right8 (bit_xor x y) ≡ bit_xor (rotate_right8 x) (rotate_right8 y)
rotate_right8-bit_xor x y hx hy =
    let above =
      bit_xor_above 7 (x / 2) (y / 2) (x % 2) (y % 2) (omega arith) (omega arith) (omega arith)
        (omega arith) in
    let sides =
      ap (λ (u : ℕ). bit_xor u (rotate_right8 y)) (rotate_right8_lem x hx)
      ∙ ap (λ (u : ℕ). bit_xor (x / 2 + x % 2 * 128) u) (rotate_right8_lem y hy) in
    rotate_right8_lem (bit_xor x y) (bit_xor-lt 8 x y hx hy)
    ∙ omega (arith, above, sides, half-bit_xor x y, bit_xor_step x y)

turned-zero : (x : ℕ) → turned 0 x ≡ x
turned-zero x = omega arith

turned-IsByte : (n x : ℕ) → IsByte x → IsByte (turned n x)
turned-IsByte zero x h = omega arith
turned-IsByte (suc n) x h =
    let rest = turned-IsByte n (rotate_right8 x) (rotate_right8-IsByte x h) in
    omega (arith, turned-suc n x h, rest)

turned-bit_xor :
    (n x y : ℕ) → IsByte x → IsByte y → turned n (bit_xor x y) ≡ bit_xor (turned n x) (turned n y)
turned-bit_xor zero x y hx hy =
    turned-zero (bit_xor x y)
    ∙ ap (λ (u : ℕ). bit_xor u y) (sym (turned-zero x))
    ∙ ap (λ (u : ℕ). bit_xor (turned 0 x) u) (sym (turned-zero y))
turned-bit_xor (suc n) x y hx hy =
    turned-suc n (bit_xor x y) (bit_xor-lt 8 x y hx hy)
    ∙ ap (λ u. turned n u) (rotate_right8-bit_xor x y hx hy)
    ∙ turned-bit_xor n (rotate_right8 x) (rotate_right8 y) (rotate_right8-IsByte x hx)
        (rotate_right8-IsByte y hy)
    ∙ ap (λ (u : ℕ). bit_xor u (turned n (rotate_right8 y))) (sym (turned-suc n x hx))
    ∙ ap (λ (u : ℕ). bit_xor (turned (suc n) x) u) (sym (turned-suc n y hy))

folded-IsByte : (ds : List ℕ) → IsBytes ds → IsByte (folded ds)
unfolding folded
folded-IsByte [] h = omega arith
folded-IsByte (d ∷ ds) h = bit_xor-lt 8 _ _ (turned-IsByte (length ds) d h.0) (folded-IsByte ds h.1)

checksum_from_closed :
    (c : ℕ) (ds : List ℕ)
    → IsByte c
    → IsBytes ds
    → checksum_from c ds ≡ bit_xor (turned (length ds) c) (folded ds)
unfolding checksum_from folded
checksum_from_closed c [] hc h =
    sym (zero-bit_xor c)
    ∙ bit_xor_comm 8 0 c (omega arith) hc
    ∙ ap (λ (u : ℕ). bit_xor u 0) (sym (turned-zero c))
checksum_from_closed c (d ∷ ds) hc h =
    let r = rotate_right8 c in
    let hr = rotate_right8-IsByte c hc in
    let n = length ds in
    checksum_from_closed (mix c d) ds (mix-IsByte c d hc h.0) h.1
    ∙ ap (λ (u : ℕ). bit_xor (turned n u) (folded ds)) (mix_lem c d hc h.0)
    ∙ ap (λ (u : ℕ). bit_xor u (folded ds)) (turned-bit_xor n r d hr h.0)
    ∙ bit_xor_assoc 8 (turned n r) (turned n d) (folded ds) (turned-IsByte n r hr)
        (turned-IsByte n d h.0) (folded-IsByte ds h.1)
    ∙ ap (λ (u : ℕ). bit_xor u (bit_xor (turned n d) (folded ds))) (sym (turned-suc n c hc))

-- On bytes `computeChecksum` gives the initial value 0x42, turned right by one place for each byte
-- of the message, xor each byte of the message, turned right by one place for each byte behind it.
pub compute_checksum_closed :
    (ds : List ℕ) → IsBytes ds → compute_checksum ds ≡ bit_xor (turned (length ds) 0x42) (folded ds)
unfolding compute_checksum
compute_checksum_closed ds h = checksum_from_closed 0x42 ds (omega arith) h
