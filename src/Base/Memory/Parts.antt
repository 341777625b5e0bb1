-- ===== src/Base/Memory/Parts.antt =====
-- A part of a part of an array, and a part that is all of it.
use pr2_ether_cat_no_ros.Base.Lists.{length}
use Prim.Native.Nat.{ℕ, zero, suc, ◌+◌, ◌≤◌}
use mathlib.Core.Path.{◌≡◌, refl, sym, ap, ◌∙◌}
use mathlib.Core.List.{List, [], ◌∷◌}
use native.Mathlib.Omega.{arith}
use pr2_ether_cat_no_ros.Base.Memory.{slice, splice}

slice_nil : (at n : ℕ) → slice [] at n ≡ []
unfolding slice
slice_nil zero zero = refl
slice_nil zero (suc n) = refl
slice_nil (suc at) n = refl

slice_none : (m : List ℕ) (at : ℕ) → slice m at 0 ≡ []
unfolding slice
slice_none m zero = refl
slice_none [] (suc at) = refl
slice_none (x ∷ m) (suc at) = slice_none m at

-- A part of a part.
pub slice-slice :
    (m : List ℕ) (a size p n : ℕ) → p + n ≤ size → slice (slice m a size) p n ≡ slice m (a + p) n
unfolding slice
slice-slice [] a size p n h =
    ap (λ l. slice l p n) (slice_nil a size) ∙ slice_nil p n ∙ sym (slice_nil (a + p) n)
slice-slice (x ∷ m) (suc a) size p n h =
    let e : suc (a + p) ≡ suc a + p = omega arith in
    slice-slice m a size p n h ∙ ap (λ j. slice (x ∷ m) j n) e
slice-slice (x ∷ m) zero zero p n h =
    let e : 0 ≡ n = omega arith in
    slice_nil p n ∙ sym (slice_none (x ∷ m) (0 + p)) ∙ ap (λ j. slice (x ∷ m) (0 + p) j) e
slice-slice (x ∷ m) zero (suc size) zero zero h = refl
slice-slice (x ∷ m) zero (suc size) zero (suc n) h =
    ap (λ l. x ∷ l) (slice-slice m zero size zero n (omega arith))
slice-slice (x ∷ m) zero (suc size) (suc p) n h =
    let e : 0 + p ≡ p = omega arith in
    let f : suc p ≡ 0 + suc p = omega arith in
    slice-slice m zero size p n (omega arith)
    ∙ ap (λ j. slice m j n) e
    ∙ ap (λ j. slice (x ∷ m) j n) f

pub splice_whole : (m bs : List ℕ) → length bs ≡ length m → splice m 0 bs ≡ bs
unfolding splice
splice_whole [] [] e = refl
splice_whole (x ∷ m) [] e = absurd (omega (arith, e))
splice_whole [] (b ∷ bs) e = absurd (omega (arith, e))
splice_whole (x ∷ m) (b ∷ bs) e = ap (λ l. b ∷ l) (splice_whole m bs (omega (arith, e)))
