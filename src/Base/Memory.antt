-- ===== src/Base/Memory.antt =====
-- A C array of bytes as a list, with the part of it that a `memcpy` or a struct access touches.
pub mod Parts
use pr2_ether_cat_no_ros.Base.Tests.{leb, if◌then◌else◌}
use pr2_ether_cat_no_ros.Base.Lists.{length, All, replicate}
use Prim.Native.Nat.{ℕ, zero, suc, ◌+◌, ◌≤◌, ◌<◌}
use mathlib.Core.Path.{◌≡◌, refl, ap}
use mathlib.Core.List.{List, [], ◌∷◌}
use mathlib.Core.Option.{Option, none, some}
use native.Mathlib.Omega.{arith}

abbrev pub IsByte : ℕ → Type 0
IsByte b = b < 256

abbrev pub IsBytes : List ℕ → Type 0
IsBytes xs = All IsByte xs

-- `n` bytes from the offset `at`, as far as the array goes.
unfoldable pub slice : List ℕ → ℕ → ℕ → List ℕ
slice m zero zero = []
slice [] zero (suc n) = []
slice (x ∷ m) zero (suc n) = x ∷ slice m zero n
slice [] (suc at) n = []
slice (x ∷ m) (suc at) n = slice m at n

-- The bytes `bs` over those from the offset `at`, as far as the array goes.
unfoldable pub splice : List ℕ → ℕ → List ℕ → List ℕ
splice m zero [] = m
splice [] zero (b ∷ bs) = []
splice (x ∷ m) zero (b ∷ bs) = b ∷ splice m zero bs
splice [] (suc at) bs = []
splice (x ∷ m) (suc at) bs = x ∷ splice m at bs

-- A read or a write that leaves the array is a fault, `none`.
unfoldable pub read_bytes : List ℕ → ℕ → ℕ → Option (List ℕ)
read_bytes m at n = if leb (at + n) (length m) then some (slice m at n) else none

unfoldable pub write_bytes : List ℕ → ℕ → List ℕ → Option (List ℕ)
write_bytes m at bs = if leb (at + length bs) (length m) then some (splice m at bs) else none

pub length-splice : (m : List ℕ) (at : ℕ) (bs : List ℕ) → length (splice m at bs) ≡ length m
unfolding splice
length-splice m zero [] = refl
length-splice [] zero (b ∷ bs) = refl
length-splice (x ∷ m) zero (b ∷ bs) = ap suc (length-splice m zero bs)
length-splice [] (suc at) bs = refl
length-splice (x ∷ m) (suc at) bs = ap suc (length-splice m at bs)

pub length-slice : (m : List ℕ) (at n : ℕ) → at + n ≤ length m → length (slice m at n) ≡ n
unfolding slice
length-slice m zero zero h = refl
length-slice [] zero (suc n) h = absurd (omega arith)
length-slice (x ∷ m) zero (suc n) h = ap suc (length-slice m zero n (omega arith))
length-slice [] (suc at) n h = absurd (omega arith)
length-slice (x ∷ m) (suc at) n h = length-slice m at n (omega arith)

-- What was written is read back.
pub slice-splice :
    (m : List ℕ) (at : ℕ) (bs : List ℕ)
    → at + length bs ≤ length m
    → slice (splice m at bs) at (length bs) ≡ bs
unfolding slice splice
slice-splice m zero [] h = refl
slice-splice [] zero (b ∷ bs) h = absurd (omega arith)
slice-splice (x ∷ m) zero (b ∷ bs) h = ap (λ l. b ∷ l) (slice-splice m zero bs (omega arith))
slice-splice [] (suc at) bs h = absurd (omega arith)
slice-splice (x ∷ m) (suc at) bs h = slice-splice m at bs (omega arith)

slice_zero : (m : List ℕ) (at : ℕ) → slice m at 0 ≡ []
unfolding slice
slice_zero m zero = refl
slice_zero [] (suc at) = refl
slice_zero (x ∷ m) (suc at) = slice_zero m at

-- A write leaves the bytes below it alone.
pub slice-splice_below :
    (m : List ℕ) (at : ℕ) (bs : List ℕ) (a n : ℕ)
    → a + n ≤ at
    → slice (splice m at bs) a n ≡ slice m a n
unfolding slice splice
slice-splice_below m zero bs zero zero h = refl
slice-splice_below m zero bs zero (suc n) h = absurd (omega arith)
slice-splice_below m zero bs (suc a) n h = absurd (omega arith)
slice-splice_below [] (suc at) bs a n h = refl
slice-splice_below (x ∷ m) (suc at) bs zero zero h = refl
slice-splice_below (x ∷ m) (suc at) bs zero (suc n) h =
    ap (λ l. x ∷ l) (slice-splice_below m at bs zero n (omega arith))
slice-splice_below (x ∷ m) (suc at) bs (suc a) n h = slice-splice_below m at bs a n (omega arith)

-- A write leaves the bytes above it alone.
pub slice-splice_above :
    (m : List ℕ) (at : ℕ) (bs : List ℕ) (a n : ℕ)
    → at + length bs ≤ a
    → slice (splice m at bs) a n ≡ slice m a n
unfolding slice splice
slice-splice_above m zero [] a n h = refl
slice-splice_above [] zero (b ∷ bs) a n h = refl
slice-splice_above (x ∷ m) zero (b ∷ bs) zero n h = absurd (omega arith)
slice-splice_above (x ∷ m) zero (b ∷ bs) (suc a) n h =
    slice-splice_above m zero bs a n (omega arith)
slice-splice_above [] (suc at) bs a n h = refl
slice-splice_above (x ∷ m) (suc at) bs zero n h = absurd (omega arith)
slice-splice_above (x ∷ m) (suc at) bs (suc a) n h = slice-splice_above m at bs a n (omega arith)

pub splice-IsBytes :
    (m : List ℕ) (at : ℕ) (bs : List ℕ) → IsBytes m → IsBytes bs → IsBytes (splice m at bs)
unfolding splice
splice-IsBytes m zero [] hm hb = hm
splice-IsBytes [] zero (b ∷ bs) hm hb = hm
splice-IsBytes (x ∷ m) zero (b ∷ bs) hm hb = (hb.0, splice-IsBytes m zero bs hm.1 hb.1)
splice-IsBytes [] (suc at) bs hm hb = hm
splice-IsBytes (x ∷ m) (suc at) bs hm hb = (hm.0, splice-IsBytes m at bs hm.1 hb)

pub slice-IsBytes : (m : List ℕ) (at n : ℕ) → IsBytes m → IsBytes (slice m at n)
unfolding slice
slice-IsBytes m zero zero h = tt
slice-IsBytes [] zero (suc n) h = tt
slice-IsBytes (x ∷ m) zero (suc n) h = (h.0, slice-IsBytes m zero n h.1)
slice-IsBytes [] (suc at) n h = tt
slice-IsBytes (x ∷ m) (suc at) n h = slice-IsBytes m at n h.1

pub replicate-IsBytes : (n b : ℕ) → IsByte b → IsBytes (replicate n b)
replicate-IsBytes zero b h = tt
replicate-IsBytes (suc n) b h = (h, replicate-IsBytes n b h)

-- The later of two writes of one length to one place is the one that stays.
pub splice-splice :
    (m : List ℕ) (at : ℕ) (bs cs : List ℕ)
    → length bs ≡ length cs
    → splice (splice m at bs) at cs ≡ splice m at cs
unfolding splice
splice-splice m zero [] [] h = refl
splice-splice m zero [] (c ∷ cs) h = absurd (omega arith)
splice-splice m zero (b ∷ bs) [] h = absurd (omega arith)
splice-splice [] zero (b ∷ bs) (c ∷ cs) h = refl
splice-splice (x ∷ m) zero (b ∷ bs) (c ∷ cs) h =
    ap (λ l. c ∷ l) (splice-splice m zero bs cs (omega arith))
splice-splice [] (suc at) bs cs h = refl
splice-splice (x ∷ m) (suc at) bs cs h = ap (λ l. x ∷ l) (splice-splice m at bs cs h)

pub write_bytes_within :
    (m : List ℕ) (at : ℕ) (bs : List ℕ)
    → at + length bs ≤ length m
    → write_bytes m at bs ≡ some (splice m at bs)
unfolding write_bytes
write_bytes_within m at bs h = ground arith

pub read_bytes_within :
    (m : List ℕ) (at n : ℕ) → at + n ≤ length m → read_bytes m at n ≡ some (slice m at n)
unfolding read_bytes
read_bytes_within m at n h = ground arith

-- A part of a part.
pub slice_of_slice : (m : List ℕ) (n k l : ℕ) → k + l ≤ n → slice (slice m 0 n) k l ≡ slice m k l
unfolding slice
slice_of_slice m zero zero zero h = refl
slice_of_slice m zero (suc k) l h = absurd (omega arith)
slice_of_slice m zero zero (suc l) h = absurd (omega arith)
slice_of_slice [] (suc n) zero zero h = refl
slice_of_slice [] (suc n) zero (suc l) h = refl
slice_of_slice [] (suc n) (suc k) l h = refl
slice_of_slice (x ∷ m) (suc n) zero zero h = refl
slice_of_slice (x ∷ m) (suc n) zero (suc l) h =
    ap (λ r. x ∷ r) (slice_of_slice m n zero l (omega arith))
slice_of_slice (x ∷ m) (suc n) (suc k) l h = slice_of_slice m n k l (omega arith)

-- What is written into the first bytes is written into their copy.
pub slice-splice_within :
    (m : List ℕ) (at : ℕ) (bs : List ℕ) (n : ℕ)
    → at + length bs ≤ n
    → slice (splice m at bs) 0 n ≡ splice (slice m 0 n) at bs
unfolding slice splice
slice-splice_within m zero [] n h = refl
slice-splice_within m (suc at) bs zero h = absurd (omega arith)
slice-splice_within m zero (b ∷ bs) zero h = absurd (omega arith)
slice-splice_within [] zero (b ∷ bs) (suc n) h = refl
slice-splice_within (x ∷ m) zero (b ∷ bs) (suc n) h =
    ap (λ r. b ∷ r) (slice-splice_within m zero bs n (omega arith))
slice-splice_within [] (suc at) bs (suc n) h = refl
slice-splice_within (x ∷ m) (suc at) bs (suc n) h =
    ap (λ r. x ∷ r) (slice-splice_within m at bs n (omega arith))
