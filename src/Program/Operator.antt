-- ===== src/Program/Operator.antt =====
-- When the operator's loop in `main` of test/main.cpp ends.
use pr2_ether_cat_no_ros.Base.{
  ℕ, zero, suc, ◌≤◌, ◌<◌, ◌≡◌, refl, ap, ◌∙◌, Bool, true, false, Option, none, some, arith,
}
use pr2_ether_cat_no_ros.Program.{Panel, scanned, human_loop}

module _ {ℓ} {A : Type ℓ} (is_positive : A → Bool) (input : ℕ → Option A) where
  -- The amplitude after the `k`-th of the calls of `scanf` that are still to come.
  abbrev pub value : ℕ → A → ℕ → A
  value i amplitude zero = scanned (input i) amplitude
  value i amplitude (suc k) = value (suc i) (scanned (input i) amplitude) k

  -- What the driver has been told after `k` positive amplitudes.
  abbrev pub told : ℕ → A → Panel A → ℕ → Panel A
  told i amplitude s zero = s
  told i amplitude s (suc k) = record {
    current_amplitude = value i amplitude k;
    current_disp = true;
  }

  told-suc :
      (i : ℕ) (amplitude : A) (s : Panel A) (k : ℕ)
      → told
          (suc i)
          (scanned (input i) amplitude)
          (record { current_amplitude = scanned (input i) amplitude; current_disp = true })
          k
        ≡ told i amplitude s (suc k)
  told-suc i amplitude s zero = refl
  told-suc i amplitude s (suc k) = refl

  human_loop_ends :
      (k fuel i : ℕ) (amplitude : A) (s : Panel A)
      → k < fuel
      → ((j : ℕ) → j < k → is_positive (value i amplitude j) ≡ true)
      → is_positive (value i amplitude k) ≡ false
      → human_loop is_positive input fuel i amplitude s ≡ some (told i amplitude s k)
  unfolding human_loop
  human_loop_ends k zero i amplitude s le before last = absurd (omega arith)
  human_loop_ends zero (suc fuel) i amplitude s le before last = rw last refl
  human_loop_ends (suc k) (suc fuel) i amplitude s le before last = rw (before 0 (omega arith)) (
      human_loop_ends k fuel (suc i) (scanned (input i) amplitude) _ (omega arith)
        (λ j less. before (suc j) (omega arith)) last
      ∙ ap some (told-suc i amplitude s k))

  human_loop_stays :
      (fuel i : ℕ) (amplitude : A) (s : Panel A)
      → ((j : ℕ) → is_positive (value i amplitude j) ≡ true)
      → human_loop is_positive input fuel i amplitude s ≡ none
  unfolding human_loop
  human_loop_stays zero i amplitude s always = refl
  human_loop_stays (suc fuel) i amplitude s always =
      rw (always 0)
        (human_loop_stays fuel (suc i) (scanned (input i) amplitude) _ (λ j. always (suc j)))

  -- If the amplitude is positive after each of the first `k` calls of `scanf` and is not after the
  -- next, then the loop of `main` ends in its round `k`, whatever larger number of rounds it is
  -- given, and the driver has been told the last positive amplitude, or nothing if there is none.
  -- If the amplitude is positive after every call, as it is when the input has ended after a
  -- positive one, the loop does not end in any number of rounds.
  pub human_loop_lem :
      (i : ℕ) (amplitude : A) (s : Panel A)
      → ((k fuel : ℕ)
          → k < fuel
          → ((j : ℕ) → j < k → is_positive (value i amplitude j) ≡ true)
          → is_positive (value i amplitude k) ≡ false
          → human_loop is_positive input fuel i amplitude s ≡ some (told i amplitude s k))
        × (((j : ℕ) → is_positive (value i amplitude j) ≡ true)
            → (fuel : ℕ) → human_loop is_positive input fuel i amplitude s ≡ none)
  human_loop_lem i amplitude s = (
    λ k fuel le before last. human_loop_ends k fuel i amplitude s le before last,
    λ always fuel. human_loop_stays fuel i amplitude s always,
  )

  -- Input that has ended.
  value_ended :
      (i : ℕ) (amplitude : A) (k : ℕ)
      → ((j : ℕ) → i ≤ j → input j ≡ none)
      → value i amplitude k ≡ amplitude
  value_ended i amplitude zero ended = ap (λ o. scanned o amplitude) (ended i (omega arith))
  value_ended i amplitude (suc k) ended =
      ap (λ a. value (suc i) a k) (ap (λ o. scanned o amplitude) (ended i (omega arith)))
      ∙ value_ended (suc i) amplitude k (λ j le. ended j (omega arith))

  -- With a positive amplitude and no more input the loop of `main` does not end in any number of
  -- rounds.
  pub human_loop_without_input :
      (fuel i : ℕ) (amplitude : A) (s : Panel A)
      → ((j : ℕ) → i ≤ j → input j ≡ none)
      → is_positive amplitude ≡ true
      → human_loop is_positive input fuel i amplitude s ≡ none
  human_loop_without_input fuel i amplitude s ended positive =
      human_loop_stays fuel i amplitude s
        (λ j. ap is_positive (value_ended i amplitude j ended) ∙ positive)
