-- ===== src/Driver/Monitor/Lines.antt =====
-- What the comparison in `monitorChanges` prints.
use pr2_ether_cat_no_ros.Base.{
  ℕ, zero, suc, ◌+◌, ◌*◌, ◌^◌, ◌≤◌, ◌<◌, ◌≡◌, refl, sym, ap, subst, ◌∙◌, ◌↔◌, ◌⊎◌, inl, inr, true,
  false, Option, some, List, [], ◌∷◌, ◌++◌, lt→ltb, arith, length, Bool-cases,
}
use pr2_ether_cat_no_ros.Base.Int.{ℤ, ◌-ℤ◌, abs}
use pr2_ether_cat_no_ros.Driver.State.{slot_size}
use pr2_ether_cat_no_ros.Driver.Monitor.{exceeds, report, compare_from}
use pr2_ether_cat_no_ros.Driver.Monitor.Reports.{count, encoder_count_at_lem}

-- A line among those printed.
abbrev pub Printed : ℕ × ℤ → List (ℕ × ℤ) → Type 0
Printed x [] = ⊥
Printed x (y ∷ l) = (x ≡ y) ⊎ Printed x l

-- How far the count of a slave is from the saved one.
abbrev pub distance : List ℕ → ℕ → List ℕ → ℕ → ℕ
distance m p b q = abs (count m p -ℤ count b q)

-- The slave number `k` of a run has moved by more than the threshold, and `x` is its line.
abbrev pub Moved : ℤ → ℕ → ℕ → ℕ → List ℕ → List ℕ → ℕ → ℕ × ℤ → Type 0
Moved t i p q m b k x =
    (x ≡ (i + k, count m (p + slot_size * k)))
    × (exceeds (distance m (p + slot_size * k) b (q + slot_size * k)) t ≡ true)

report_lem :
    (t : ℤ) (i : ℕ) (a b : ℤ)
    → abs (a -ℤ b) < 2 ^ 31
    → (lines : List (ℕ × ℤ)) × (report t i a b ≡ some lines)
      × (((exceeds (abs (a -ℤ b)) t ≡ true) × (lines ≡ (i, a) ∷ []))
          ⊎ ((exceeds (abs (a -ℤ b)) t ≡ false) × (lines ≡ [])))
unfolding report
report_lem t i a b h = elim (Bool-cases (exceeds (abs (a -ℤ b)) t)) [
  | inl e ↦ ((i, a) ∷ [], rw (lt→ltb _ _ h, e) refl, inl (e, refl))
  | inr e ↦ ([], rw (lt→ltb _ _ h, e) refl, inr (e, refl))
]

Printed-append : (x : ℕ × ℤ) (a b : List (ℕ × ℤ)) → Printed x b → Printed x (a ++ b)
Printed-append x [] b h = h
Printed-append x (y ∷ a) b h = inr (Printed-append x a b h)

-- The rest of the run, with its slaves counted from the run's start.
Moved-shift :
    (t : ℤ) (i p q : ℕ) (m b : List ℕ) (k : ℕ) (x : ℕ × ℤ)
    → Moved t (i + 1) (p + slot_size) (q + slot_size) m b k x ≡ Moved t i p q m b (suc k) x
Moved-shift t i p q m b k x =
    let e : i + 1 + k ≡ i + suc k = omega arith in
    let f : p + slot_size + slot_size * k ≡ p + slot_size * suc k = omega arith in
    let g : q + slot_size + slot_size * k ≡ q + slot_size * suc k = omega arith in rw (e, f, g) refl

Moved-first :
    (t : ℤ) (i p q : ℕ) (m b : List ℕ) (x : ℕ × ℤ)
    → ((x ≡ (i, count m p)) × (exceeds (distance m p b q) t ≡ true)) ≡ Moved t i p q m b 0 x
Moved-first t i p q m b x =
    let e : i ≡ i + 0 = omega arith in
    let f : p ≡ p + slot_size * 0 = omega arith in
    let g : q ≡ q + slot_size * 0 = omega arith in
    ap (λ j. (x ≡ (j, count m p)) × (exceeds (distance m p b q) t ≡ true)) e
    ∙ ap (λ j. (x ≡ (i + 0, count m j)) × (exceeds (distance m j b q) t ≡ true)) f
    ∙ ap
        (λ j.
          (x ≡ (i + 0, count m (p + slot_size * 0)))
          × (exceeds (distance m (p + slot_size * 0) b j) t ≡ true))
        g

-- One of the first `n` slaves of a run has moved, and `x` is its line.
abbrev pub OneMoved : ℤ → ℕ → ℕ → ℕ → List ℕ → List ℕ → ℕ → ℕ × ℤ → Type 0
OneMoved t i p q m b n x = (k : ℕ) × (k < n) × Moved t i p q m b k x

module _ (t : ℤ) (i p q : ℕ) (m b : List ℕ) (n : ℕ) (x : ℕ × ℤ) where
  later :
      OneMoved t (i + 1) (p + slot_size) (q + slot_size) m b n x → OneMoved t i p q m b (suc n) x
  later (k, le, h) = (suc k, omega (arith, le), subst (λ T. T) (Moved-shift t i p q m b k x) h)

  first_or_later :
      (k : ℕ)
      → k < suc n
      → Moved t i p q m b k x
      → ((x ≡ (i, count m p)) × (exceeds (distance m p b q) t ≡ true))
        ⊎ OneMoved t (i + 1) (p + slot_size) (q + slot_size) m b n x
  first_or_later zero le h = inl (subst (λ T. T) (sym (Moved-first t i p q m b x)) h)
  first_or_later (suc k) le h =
      inr (k, omega (arith, le), subst (λ T. T) (sym (Moved-shift t i p q m b k x)) h)

  line_lem :
      (line rest : List (ℕ × ℤ))
      → ((exceeds (distance m p b q) t ≡ true) × (line ≡ (i, count m p) ∷ []))
        ⊎ ((exceeds (distance m p b q) t ≡ false) × (line ≡ []))
      → (Printed x rest ↔ OneMoved t (i + 1) (p + slot_size) (q + slot_size) m b n x)
      → Printed x (line ++ rest) ↔ OneMoved t i p q m b (suc n) x
  line_lem line rest (inl (moved, e)) (to, from) =
      subst (λ l. Printed x (l ++ rest) ↔ OneMoved t i p q m b (suc n) x) (sym e)
        (
          (λ h. elim h [
            | inl same ↦ (0, omega arith, subst (λ T. T) (Moved-first t i p q m b x) (same, moved))
            | inr old ↦ later (to old)
          ]),
          (λ h. elim (first_or_later h.0 h.1 h.2) [
            | inl (same, mv) ↦ inl same
            | inr r ↦ inr (from r)
          ]),
        )
  line_lem line rest (inr (still, e)) (to, from) =
      subst (λ l. Printed x (l ++ rest) ↔ OneMoved t i p q m b (suc n) x) (sym e)
        (
          (λ h. later (to h)),
          (λ h. elim (first_or_later h.0 h.1 h.2) [ inl (same, mv) ↦ cc | inr r ↦ from r ]),
        )

-- Every difference of counts fits an `int`.
abbrev pub Near : List (Option ℕ) → ℕ → ℕ → List ℕ → List ℕ → Type 0
Near [] p q m b = Unit
Near (h ∷ hs) p q m b = (distance m p b q < 2 ^ 31) × Near hs (p + slot_size) (q + slot_size) m b

pub compare_from_lem :
    (t : ℤ) (hs : List (Option ℕ)) (i p q : ℕ) (m b : List ℕ)
    → p + slot_size * length hs ≤ length m
    → q + slot_size * length hs ≤ length b
    → Near hs p q m b
    → (lines : List (ℕ × ℤ)) × (compare_from t hs i p q m b ≡ some lines)
      × ((x : ℕ × ℤ) → Printed x lines ↔ OneMoved t i p q m b (length hs) x)
unfolding compare_from
compare_from_lem t [] i p q m b h g near = (
  [],
  refl,
  λ x. ((λ none_printed. absurd none_printed), λ (k, le, mv). absurd (omega (arith, le))),
)
compare_from_lem t (y ∷ hs) i p q m b h g (close, near) =
    let (line, e, split) = report_lem t i (count m p) (count b q) close in
    let (rest, e', same) =
      compare_from_lem t hs (i + 1) (p + slot_size) (q + slot_size) m b (omega (arith, h))
        (omega (arith, g)) near in
    (
      line ++ rest,
      rw
          (
            encoder_count_at_lem m p (omega (arith, h)),
            encoder_count_at_lem b q (omega (arith, g)),
            e,
            e',
          )
          refl,
      λ x. line_lem t i p q m b (length hs) x line rest split (same x),
    )
