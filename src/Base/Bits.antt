-- ===== src/Base/Bits.antt =====
-- Laws of `bit_xor` at variables, from the recursion on binary digits that it stands for.
use Prim.Native.Nat.{
  ℕ, zero, suc, ◌-◌, ◌+◌, ◌*◌, ◌/◌, ◌%◌, ◌^◌, ◌≤◌, ◌<◌, bit_xor, digits, differ, bit_xor-bitwise,
}
use mathlib.Core.Path.{◌≡◌, refl, ap, ◌∙◌}
use native.Mathlib.Nat.{pow-suc}
use native.Mathlib.Omega.{arith}

pub zero-bit_xor : (b : ℕ) → bit_xor 0 b ≡ b
zero-bit_xor b = bit_xor-bitwise 0 b

differ_bits : (x y : ℕ) → x < 2 → y < 2 → differ x y ≡ (x + y) % 2
differ_bits zero zero p q = refl
differ_bits zero (suc zero) p q = refl
differ_bits zero (suc (suc y)) p q = absurd (omega arith)
differ_bits (suc zero) zero p q = refl
differ_bits (suc zero) (suc zero) p q = refl
differ_bits (suc zero) (suc (suc y)) p q = absurd (omega arith)
differ_bits (suc (suc x)) y p q = absurd (omega arith)

abbrev flipped : ℕ → ℕ → ℕ → ℕ
flipped fuel x y = digits (λ rest. rest) differ fuel x y

-- One more round than the first number needs changes nothing ...
flipped_more : (fuel x y : ℕ) → x ≤ fuel → flipped (suc fuel) x y ≡ flipped fuel x y
flipped_more zero zero y h = refl
flipped_more (suc fuel) zero y h = refl
flipped_more zero (suc x) y h = absurd (omega arith)
flipped_more (suc fuel) (suc x) y h =
    omega (arith, flipped_more fuel (suc x / 2) (y / 2) (omega arith))

-- ... and so do any more rounds.
flipped_enough :
    (more fuel total x y : ℕ)
    → total ≡ fuel + more
    → x ≤ fuel
    → flipped total x y ≡ flipped fuel x y
flipped_enough zero fuel total x y e h =
    let same : total ≡ fuel = omega (arith, e) in ap (λ (n : ℕ). flipped n x y) same
flipped_enough (suc more) fuel zero x y e h = absurd (omega (arith, e))
flipped_enough (suc more) fuel (suc total) x y e h =
    flipped_more total x y (omega (arith, e, h))
    ∙ flipped_enough more fuel total x y (omega (arith, e)) h

-- The lowest digit, and the rest.
pub bit_xor_step : (a b : ℕ) → bit_xor a b ≡ bit_xor (a / 2) (b / 2) * 2 + (a % 2 + b % 2) % 2
bit_xor_step zero b =
    let small = zero-bit_xor b in let half = zero-bit_xor (b / 2) in omega (arith, small, half)
bit_xor_step (suc a) b =
    let low = differ_bits (suc a % 2) (b % 2) (omega arith) (omega arith) in
    let whole = bit_xor-bitwise (suc a) b in
    let upper = bit_xor-bitwise (suc a / 2) (b / 2) in
    let rounds =
      flipped_enough (a - suc a / 2) (suc a / 2) a (suc a / 2) (b / 2) (omega arith)
        (omega arith) in
    omega (arith, low, whole, upper, rounds)

-- Numbers of `k` bits give `k` bits.
pub bit_xor-lt : (k a b : ℕ) → a < 2 ^ k → b < 2 ^ k → bit_xor a b < 2 ^ k
bit_xor-lt zero zero zero p q = omega arith
bit_xor-lt zero (suc a) b p q = absurd (omega arith)
bit_xor-lt zero zero (suc b) p q = absurd (omega arith)
bit_xor-lt (suc k) a b p q = omega (
  arith,
  pow-suc 2 k,
  bit_xor_step a b,
  bit_xor-lt k (a / 2) (b / 2) (omega (arith, pow-suc 2 k)) (omega (arith, pow-suc 2 k)),
)

pub half-bit_xor : (x y : ℕ) → bit_xor x y / 2 ≡ bit_xor (x / 2) (y / 2)
half-bit_xor x y = omega (arith, bit_xor_step x y)

-- What is flipped twice by the same digits comes back.
pub bit_xor_cancel : (k a b : ℕ) → a < 2 ^ k → b < 2 ^ k → bit_xor (bit_xor a b) b ≡ a
bit_xor_cancel zero zero zero p q = refl
bit_xor_cancel zero (suc a) b p q = absurd (omega arith)
bit_xor_cancel zero zero (suc b) p q = absurd (omega arith)
bit_xor_cancel (suc k) a b p q = omega (
  arith,
  pow-suc 2 k,
  bit_xor_step a b,
  bit_xor_step (bit_xor a b) b,
  ap (λ (t : ℕ). bit_xor t (b / 2)) (half-bit_xor a b),
  bit_xor_cancel k (a / 2) (b / 2) (omega (arith, pow-suc 2 k)) (omega (arith, pow-suc 2 k)),
)

pub bit_xor_comm : (k a b : ℕ) → a < 2 ^ k → b < 2 ^ k → bit_xor a b ≡ bit_xor b a
bit_xor_comm zero zero zero p q = refl
bit_xor_comm zero (suc a) b p q = absurd (omega arith)
bit_xor_comm zero zero (suc b) p q = absurd (omega arith)
bit_xor_comm (suc k) a b p q = omega (
  arith,
  pow-suc 2 k,
  bit_xor_step a b,
  bit_xor_step b a,
  bit_xor_comm k (a / 2) (b / 2) (omega (arith, pow-suc 2 k)) (omega (arith, pow-suc 2 k)),
)

-- The digits in pairs are flipped alike.
pub bit_xor_assoc :
    (k a b c : ℕ)
    → a < 2 ^ k
    → b < 2 ^ k
    → c < 2 ^ k
    → bit_xor (bit_xor a b) c ≡ bit_xor a (bit_xor b c)
bit_xor_assoc zero zero zero zero p q r = refl
bit_xor_assoc zero (suc a) b c p q r = absurd (omega arith)
bit_xor_assoc zero zero (suc b) c p q r = absurd (omega arith)
bit_xor_assoc zero zero zero (suc c) p q r = absurd (omega arith)
bit_xor_assoc (suc k) a b c p q r =
    let left = ap (λ (t : ℕ). bit_xor t (c / 2)) (half-bit_xor a b) in
    let right = ap (λ (t : ℕ). bit_xor (a / 2) t) (half-bit_xor b c) in
    let rest =
      bit_xor_assoc k (a / 2) (b / 2) (c / 2) (omega (arith, pow-suc 2 k))
        (omega (arith, pow-suc 2 k)) (omega (arith, pow-suc 2 k)) in
    omega (
      arith,
      bit_xor_step a b,
      bit_xor_step b c,
      bit_xor_step (bit_xor a b) c,
      bit_xor_step a (bit_xor b c),
      left,
      right,
      rest,
    )

one_digit : (s t : ℕ) → s < 2 → t < 2 → bit_xor s t ≡ (s + t) % 2
one_digit s t hs ht =
    let none_left : s / 2 ≡ 0 = omega arith in
    let above = ap (λ (u : ℕ). bit_xor u (t / 2)) none_left ∙ zero-bit_xor (t / 2) in
    omega (arith, bit_xor_step s t, above)

-- Half of a number with a digit `s` at the place `suc k`.
half_above :
    (k p s : ℕ)
    → s < 2
    → ((p + s * 2 ^ suc k) / 2 ≡ p / 2 + s * 2 ^ k) × ((p + s * 2 ^ suc k) % 2 ≡ p % 2)
half_above k p zero h = (omega arith, omega arith)
half_above k p (suc zero) h = (omega (arith, pow-suc 2 k), omega (arith, pow-suc 2 k))
half_above k p (suc (suc s)) h = absurd (omega arith)

digit_at : (k x d : ℕ) → d < 2 → (x + d * 2 ^ k) * 2 ≡ x * 2 + d * 2 ^ suc k
digit_at k x zero h = omega arith
digit_at k x (suc zero) h = omega (arith, pow-suc 2 k)
digit_at k x (suc (suc d)) h = absurd (omega arith)

-- A digit above the others is flipped by itself.
pub bit_xor_above :
    (k p q s t : ℕ)
    → p < 2 ^ k
    → q < 2 ^ k
    → s < 2
    → t < 2
    → bit_xor (p + s * 2 ^ k) (q + t * 2 ^ k) ≡ bit_xor p q + (s + t) % 2 * 2 ^ k
bit_xor_above zero p q s t hp hq hs ht =
    let no_p : p ≡ 0 = omega arith in
    let no_q : q ≡ 0 = omega arith in
    let left : p + s * 1 ≡ s = omega arith in
    let right : q + t * 1 ≡ t = omega arith in
    let same = ap (λ (u : ℕ). bit_xor u (q + t * 1)) left ∙ ap (λ (u : ℕ). bit_xor s u) right in
    let low = ap (λ (u : ℕ). bit_xor u q) no_p ∙ zero-bit_xor q in
    omega (arith, same, one_digit s t hs ht, low)
bit_xor_above (suc k) p q s t hp hq hs ht =
    let (half_p, low_p) = half_above k p s hs in
    let (half_q, low_q) = half_above k q t ht in
    let halves =
      ap (λ (u : ℕ). bit_xor u ((q + t * 2 ^ suc k) / 2)) half_p
      ∙ ap (λ (u : ℕ). bit_xor (p / 2 + s * 2 ^ k) u) half_q in
    let rest =
      bit_xor_above k (p / 2) (q / 2) s t (omega (arith, pow-suc 2 k)) (omega (arith, pow-suc 2 k))
        hs ht in
    let whole = bit_xor_step (p + s * 2 ^ suc k) (q + t * 2 ^ suc k) in
    let parts = bit_xor_step p q in
    let up = digit_at k (bit_xor (p / 2) (q / 2)) ((s + t) % 2) (omega arith) in
    let same_low =
      ap (λ (u : ℕ). (u + (q + t * 2 ^ suc k) % 2) % 2) low_p
      ∙ ap (λ (u : ℕ). (p % 2 + u) % 2) low_q in
    whole
    ∙ ap (λ (u : ℕ). u * 2 + ((p + s * 2 ^ suc k) % 2 + (q + t * 2 ^ suc k) % 2) % 2)
        (halves ∙ rest)
    ∙ ap (λ (u : ℕ). (bit_xor (p / 2) (q / 2) + (s + t) % 2 * 2 ^ k) * 2 + u) same_low
    ∙ ap (λ (u : ℕ). u + (p % 2 + q % 2) % 2) up
    ∙ omega (arith, parts)
