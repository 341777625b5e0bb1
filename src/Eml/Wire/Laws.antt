-- ===== src/Eml/Wire/Laws.antt =====
-- Round trips of `host2nw` and `nw2host`.
use native.Mathlib.Nat.{mod-lt}
use pr2_ether_cat_no_ros.Base.{
  ℕ, zero, suc, ◌+◌, ◌/◌, ◌^◌, ◌≤◌, ◌<◌, ◌≡◌, refl, ap, sym, ◌∙◌, some, List, ◌>>=◌, length, arith,
}
use pr2_ether_cat_no_ros.Base.Int.{ℤ, pos, negsuc, signed, pattern_of, Fits}
use pr2_ether_cat_no_ros.Base.Memory.{
  splice, slice, slice-splice, length-splice, read_bytes_within, write_bytes_within,
}
use pr2_ether_cat_no_ros.Eml.Wire.{
  le_bytes, le_value, put, get, host2nw_usint, host2nw_uint, host2nw_udint, host2nw_sint,
  host2nw_int, host2nw_dint, nw2host_usint, nw2host_uint, nw2host_udint, nw2host_sint, nw2host_int,
  nw2host_dint,
}

pub length-le_bytes : (n v : ℕ) → length (le_bytes n v) ≡ n
unfolding le_bytes
length-le_bytes zero v = refl
length-le_bytes (suc n) v = ap suc (length-le_bytes n (v / 256))

pub le_value-le_bytes : (n v : ℕ) → v < 256 ^ n → le_value (le_bytes n v) ≡ v
unfolding le_bytes le_value
le_value-le_bytes zero v h = omega arith
le_value-le_bytes (suc n) v h = omega (arith, le_value-le_bytes n (v / 256) (omega (arith, h)))

-- A signed number is the one that its pattern stands for.
signed-pattern_7 : (z : ℤ) → Fits 7 z → signed 7 (pattern_of 8 z) ≡ z
signed-pattern_7 (pos n) h = ground arith
signed-pattern_7 (negsuc n) h = ground arith

signed-pattern_15 : (z : ℤ) → Fits 15 z → signed 15 (pattern_of 16 z) ≡ z
signed-pattern_15 (pos n) h = ground arith
signed-pattern_15 (negsuc n) h = ground arith

signed-pattern_31 : (z : ℤ) → Fits 31 z → signed 31 (pattern_of 32 z) ≡ z
signed-pattern_31 (pos n) h = ground arith
signed-pattern_31 (negsuc n) h = ground arith

pow-pos : (w : ℕ) → 0 < 2 ^ w
pow-pos zero = omega arith
pow-pos (suc w) = omega (arith, pow-pos w)

pattern-lt : (w : ℕ) (z : ℤ) → pattern_of w z < 2 ^ w
pattern-lt w (pos n) = mod-lt n (pow-pos w)
pattern-lt w (negsuc n) = omega (arith, pow-pos w)

-- The buffer after the write.
abbrev pub written : ℕ → List ℕ → ℕ → ℕ → List ℕ
written n m at v = splice m at (le_bytes n v)

put-get :
    (n : ℕ) (m : List ℕ) (at v : ℕ)
    → at + n ≤ length m
    → v < 256 ^ n
    → (put n m at v ≡ some (written n m at v, at + n))
      × (get n (written n m at v) at ≡ some (v, at + n))
unfolding put get
put-get n m at v room small =
    let len = length-le_bytes n v in
    (
      ap (λ o. o >>= λ m'. some (m', at + n))
          (write_bytes_within m at (le_bytes n v) (omega (arith, len))),
      ap (λ o. o >>= λ bs. some (le_value bs, at + n))
            (read_bytes_within (written n m at v) at n
              (omega (arith, length-splice m at (le_bytes n v))))
          ∙ ap (λ k. some (le_value (slice (written n m at v) at k), at + n)) (sym len)
          ∙ ap (λ bs. some (le_value bs, at + n))
              (slice-splice m at (le_bytes n v) (omega (arith, len)))
          ∙ ap (λ k. some (k, at + n)) (le_value-le_bytes n v small),
    )

-- With room for four bytes at a place, `nw2host` reads there what `host2nw` wrote, and returns the
-- pointer behind it, for unsigned numbers in the range of their types of 8, 16 and 32 bits.
unsigned_round_trip :
    (m : List ℕ) (at v8 v16 v32 : ℕ)
    → at + 4 ≤ length m
    → v8 < 2 ^ 8
    → v16 < 2 ^ 16
    → v32 < 2 ^ 32
    → (do r ← host2nw_usint m at v8; nw2host_usint r.0 at) ≡ some (v8, at + 1)
      × (do r ← host2nw_uint m at v16; nw2host_uint r.0 at) ≡ some (v16, at + 2)
      × (do r ← host2nw_udint m at v32; nw2host_udint r.0 at) ≡ some (v32, at + 4)
unsigned_round_trip m at v8 v16 v32 room a b c =
    let (p, q) = put-get 1 m at v8 (omega arith) (omega arith) in
    let (r, s) = put-get 2 m at v16 (omega arith) (omega arith) in
    let (t, u) = put-get 4 m at v32 (omega arith) (omega arith) in (cc, cc, cc)

-- With room for four bytes at a place, `nw2host` reads there what `host2nw` wrote, and returns the
-- pointer behind it, for signed numbers in the range of their types of 8, 16 and 32 bits, negative
-- ones included.
signed_round_trip :
    (m : List ℕ) (at : ℕ) (z8 z16 z32 : ℤ)
    → at + 4 ≤ length m
    → Fits 7 z8
    → Fits 15 z16
    → Fits 31 z32
    → (do r ← host2nw_sint m at z8; nw2host_sint r.0 at) ≡ some (z8, at + 1)
      × (do r ← host2nw_int m at z16; nw2host_int r.0 at) ≡ some (z16, at + 2)
      × (do r ← host2nw_dint m at z32; nw2host_dint r.0 at) ≡ some (z32, at + 4)
signed_round_trip m at z8 z16 z32 room a b c =
    let (p, q) = put-get 1 m at (pattern_of 8 z8) (omega arith) (pattern-lt 8 z8) in
    let (r, s) = put-get 2 m at (pattern_of 16 z16) (omega arith) (pattern-lt 16 z16) in
    let (t, u) = put-get 4 m at (pattern_of 32 z32) (omega arith) (pattern-lt 32 z32) in
    (
      rw (p, q) (ap (λ z. some (z, at + 1)) (signed-pattern_7 z8 a)),
      rw (r, s) (ap (λ z. some (z, at + 2)) (signed-pattern_15 z16 b)),
      rw (t, u) (ap (λ z. some (z, at + 4)) (signed-pattern_31 z32 c)),
    )

-- With room for four bytes at a place, `nw2host` reads there what `host2nw` wrote, and returns the
-- pointer behind it, for unsigned and for signed numbers in the range of their types of 8, 16 and
-- 32 bits, negative ones included.
pub round_trip :
    (m : List ℕ) (at v8 v16 v32 : ℕ) (z8 z16 z32 : ℤ)
    → at + 4 ≤ length m
    → v8 < 2 ^ 8
    → v16 < 2 ^ 16
    → v32 < 2 ^ 32
    → Fits 7 z8
    → Fits 15 z16
    → Fits 31 z32
    → ((do r ← host2nw_usint m at v8; nw2host_usint r.0 at) ≡ some (v8, at + 1))
      × ((do r ← host2nw_uint m at v16; nw2host_uint r.0 at) ≡ some (v16, at + 2))
      × ((do r ← host2nw_udint m at v32; nw2host_udint r.0 at) ≡ some (v32, at + 4))
      × ((do r ← host2nw_sint m at z8; nw2host_sint r.0 at) ≡ some (z8, at + 1))
      × ((do r ← host2nw_int m at z16; nw2host_int r.0 at) ≡ some (z16, at + 2))
      × ((do r ← host2nw_dint m at z32; nw2host_dint r.0 at) ≡ some (z32, at + 4))
round_trip m at v8 v16 v32 z8 z16 z32 room a b c d e f =
    let (x, y, z) = unsigned_round_trip m at v8 v16 v32 room a b c in
    let (u, v, w) = signed_round_trip m at z8 z16 z32 room d e f in (x, y, z, u, v, w)
