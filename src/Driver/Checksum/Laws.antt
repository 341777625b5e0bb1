-- ===== src/Driver/Checksum/Laws.antt =====
-- What the checksum of driver/wg05.cpp detects.
use pr2_ether_cat_no_ros.Base.{
  ℕ, zero, suc, ◌+◌, ◌*◌, ◌/◌, ◌%◌, ◌<◌, bit_and, bit_xor, ◌≡◌, refl, ap, sym, ◌∙◌, ◌≢◌, Bool, true,
  ◌&&◌, List, [], ◌∷◌, ◌++◌, arith, ◌==◌, ==_iff,
}
use pr2_ether_cat_no_ros.Base.Bits.{zero-bit_xor, bit_xor-lt, bit_xor_cancel, bit_xor_comm}
use pr2_ether_cat_no_ros.Base.Memory.{IsByte, IsBytes}
use pr2_ether_cat_no_ros.Driver.Checksum.{rotate_right8, mix, checksum_from, compute_checksum}

-- A test that each of the 256 bytes passes, found by running it on all of them.
unfoldable pub passes : (ℕ → Bool) → ℕ → Bool
passes test zero = true
passes test (suc n) = passes test n && test n

pub passes_at : (test : ℕ → Bool) (byte n : ℕ) → byte < n → passes test n ≡ true → test byte ≡ true
unfolding passes
passes_at test byte zero small run = absurd (omega (arith, small))
passes_at test byte (suc n) small run = ground (arith, passes_at test byte n)

moves_lowest_bit : ℕ → Bool
moves_lowest_bit x = rotate_right8 x == (x / 2 + x % 2 * 128)

is_masked : ℕ → Bool
is_masked x = bit_and x 0xff == x

-- On a byte `rotateRight8` moves the lowest bit to the top and the others one place down.
pub rotate_right8_lem : (x : ℕ) → IsByte x → rotate_right8 x ≡ x / 2 + x % 2 * 128
unfolding passes moves_lowest_bit rotate_right8
rotate_right8_lem x h = (==_iff _ _).0 (passes_at moves_lowest_bit x 256 h refl)

pub rotate_right8-IsByte : (x : ℕ) → IsByte x → IsByte (rotate_right8 x)
rotate_right8-IsByte x h = omega (arith, rotate_right8_lem x h)

mask_byte : (x : ℕ) → IsByte x → bit_and x 0xff ≡ x
unfolding passes is_masked
mask_byte x h = (==_iff _ _).0 (passes_at is_masked x 256 h refl)

pub rotate_right8_injective :
    (x y : ℕ) → IsByte x → IsByte y → rotate_right8 x ≡ rotate_right8 y → x ≡ y
rotate_right8_injective x y hx hy e = omega (arith, rotate_right8_lem x hx, rotate_right8_lem y hy)

pub mix_lem : (c d : ℕ) → IsByte c → IsByte d → mix c d ≡ bit_xor (rotate_right8 c) d
unfolding mix
mix_lem c d hc hd = mask_byte _ (bit_xor-lt 8 _ d (rotate_right8-IsByte c hc) hd)

pub mix-IsByte : (c d : ℕ) → IsByte c → IsByte d → IsByte (mix c d)
mix-IsByte c d hc hd =
    omega (arith, mix_lem c d hc hd, bit_xor-lt 8 _ d (rotate_right8-IsByte c hc) hd)

checksum_from-IsByte : (c : ℕ) (xs : List ℕ) → IsByte c → IsBytes xs → IsByte (checksum_from c xs)
unfolding checksum_from
checksum_from-IsByte c [] hc h = hc
checksum_from-IsByte c (x ∷ xs) hc h = checksum_from-IsByte (mix c x) xs (mix-IsByte c x hc h.0) h.1

pub compute_checksum-IsByte : (xs : List ℕ) → IsBytes xs → IsByte (compute_checksum xs)
unfolding compute_checksum
compute_checksum-IsByte xs h = checksum_from-IsByte 0x42 xs (omega arith) h

checksum_from-append :
    (c : ℕ) (xs ys : List ℕ) → checksum_from c (xs ++ ys) ≡ checksum_from (checksum_from c xs) ys
unfolding checksum_from
checksum_from-append c [] ys = refl
checksum_from-append c (x ∷ xs) ys = checksum_from-append (mix c x) xs ys

mix_self : (c : ℕ) → IsByte c → mix c (rotate_right8 c) ≡ 0
mix_self c h =
    let r = rotate_right8 c in
    let small = rotate_right8-IsByte c h in
    mix_lem c r h small
    ∙ ap (λ (t : ℕ). bit_xor t r) (sym (zero-bit_xor r))
    ∙ bit_xor_cancel 8 0 r (omega arith) small

-- A message followed by the rotated checksum that `packCommand` appends has the checksum 0.
pub compute_checksum-rotate_right8 :
    (xs : List ℕ)
    → IsBytes xs
    → compute_checksum (xs ++ rotate_right8 (compute_checksum xs) ∷ []) ≡ 0
unfolding compute_checksum checksum_from
compute_checksum-rotate_right8 xs h =
    checksum_from-append 0x42 xs (rotate_right8 (checksum_from 0x42 xs) ∷ [])
    ∙ mix_self (checksum_from 0x42 xs) (checksum_from-IsByte 0x42 xs (omega arith) h)

mix_injective_data : (c x y : ℕ) → IsByte c → IsByte x → IsByte y → mix c x ≡ mix c y → x ≡ y
mix_injective_data c x y hc hx hy e = cc (
  mix_lem c x hc hx,
  mix_lem c y hc hy,
  bit_xor_comm 8 r x hr hx,
  bit_xor_comm 8 r y hr hy,
  bit_xor_cancel 8 x r hx hr,
  bit_xor_cancel 8 y r hy hr,
)
  where
    r : ℕ
    r = rotate_right8 c

    hr : IsByte r
    hr = rotate_right8-IsByte c hc

mix_injective : (b c d : ℕ) → IsByte b → IsByte c → IsByte d → mix b d ≡ mix c d → b ≡ c
mix_injective b c d hb hc hd e = rotate_right8_injective b c hb hc (
    cc (
      mix_lem b d hb hd,
      mix_lem c d hc hd,
      bit_xor_cancel 8 (rotate_right8 b) d (rotate_right8-IsByte b hb) hd,
      bit_xor_cancel 8 (rotate_right8 c) d (rotate_right8-IsByte c hc) hd,
    ))

checksum_from_injective :
    (b c : ℕ) (xs : List ℕ)
    → IsByte b
    → IsByte c
    → IsBytes xs
    → checksum_from b xs ≡ checksum_from c xs
    → b ≡ c
unfolding checksum_from
checksum_from_injective b c [] hb hc h e = e
checksum_from_injective b c (x ∷ xs) hb hc h e = mix_injective b c x hb hc h.0 (
    checksum_from_injective (mix b x) (mix c x) xs (mix-IsByte b x hb h.0) (mix-IsByte c x hc h.0)
      h.1 e)

-- Two messages of bytes that differ in exactly one byte, at any place, have different checksums.
pub compute_checksum_detects :
    (xs ys : List ℕ) (x y : ℕ)
    → IsBytes xs
    → IsBytes ys
    → IsByte x
    → IsByte y
    → x ≢ y
    → compute_checksum (xs ++ x ∷ ys) ≢ compute_checksum (xs ++ y ∷ ys)
unfolding compute_checksum checksum_from
compute_checksum_detects xs ys x y hxs hys hx hy ne e = ne (
    mix_injective_data c x y hc hx hy (
      checksum_from_injective (mix c x) (mix c y) ys (mix-IsByte c x hc hx) (mix-IsByte c y hc hy)
        hys
        (sym (checksum_from-append 0x42 xs (x ∷ ys)) ∙ e ∙ checksum_from-append 0x42 xs (y ∷ ys))))
  where
    c : ℕ
    c = checksum_from 0x42 xs

    hc : IsByte c
    hc = checksum_from-IsByte 0x42 xs (omega arith) hxs
