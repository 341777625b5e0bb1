-- ===== src/Driver/Loop.antt =====
-- The real-time loop of test/main.cpp, as far as it drives the bus.
pub mod Seen
use pr2_ether_cat_no_ros.Base.{
  ℕ, ◌+◌, ◌*◌, ◌≡◌, refl, ap, sym, ◌∙◌, Option, some, List, [], ◌∷◌, ◌>>=◌,
}
use pr2_ether_cat_no_ros.Base.Memory.{slice}
use pr2_ether_cat_no_ros.Eml.Library.{Library, IsDocumented}
use pr2_ether_cat_no_ros.Driver.State.{Driver, command_size, status_size, slot_size}
use pr2_ether_cat_no_ros.Driver.ProcessData.{update}
use pr2_ether_cat_no_ros.Driver.ProcessData.Ready.{IsReady}
use pr2_ether_cat_no_ros.Driver.ProcessData.Update.{update_total}

-- `a` and `b` change places once for each round.
abbrev pub alternate {ℓ} : {A : Type ℓ} → List ℕ → A → A → A
alternate [] a b = a
alternate (x ∷ xs) a b = alternate xs b a

module _ {Net : Type 0} (lib : Library Net) where
  -- The loop of `realTimeLoop`: one `update` for each wake-up, here with the demands that the sine
  -- gives in these rounds.
  unfoldable pub run_cycles : List ℕ → Driver Net → Option (Driver Net)
  run_cycles [] d = some d
  run_cycles (demand ∷ demands) d = do d' ← update lib demand d; run_cycles demands d'

  module _ (doc : IsDocumented lib) where
    -- With a library that behaves as documented, any number of rounds of the real-time loop from
    -- ready buffers runs without a fault and leaves them ready and of the same size. The two
    -- buffer pointers have changed places once for each round, and the status areas of the upper
    -- half are those from before the first.
    pub run_cycles_total :
        (demands : List ℕ) (d : Driver Net)
        → IsReady d
        → (d' : Driver Net) × (run_cycles demands d ≡ some d')
          × IsReady d'
          × (d'.this_buffer ≡ alternate demands d.this_buffer d.prev_buffer)
          × (d'.prev_buffer ≡ alternate demands d.prev_buffer d.this_buffer)
          × (d'.master_buffer_size ≡ d.master_buffer_size)
          × ((j : ℕ)
              → slice d'.master_buffer
                  (d.master_buffer_size + slot_size * j + command_size)
                  status_size
                ≡ slice d.master_buffer
                    (d.master_buffer_size + slot_size * j + command_size)
                    status_size)
    unfolding run_cycles
    run_cycles_total [] d ready = (d, refl, ready, refl, refl, refl, λ j. refl)
    run_cycles_total (demand ∷ demands) d ready =
        let (d1, e, ready1, this1, prev1, size1, same1) = update_total lib doc demand d ready in
        let (d2, e', ready2, this2, prev2, size2, same2) = run_cycles_total demands d1 ready1 in
        (
          d2,
          ap (λ o. o >>= run_cycles demands) e ∙ e',
          ready2,
          this2
              ∙ ap (λ a. alternate demands a d1.prev_buffer) this1
              ∙ ap (λ b. alternate demands d.prev_buffer b) prev1,
          prev2
              ∙ ap (λ a. alternate demands a d1.this_buffer) prev1
              ∙ ap (λ b. alternate demands d.this_buffer b) this1,
          size2 ∙ size1,
          λ j.
              ap (λ n. slice d2.master_buffer (n + slot_size * j + command_size) status_size)
                (sym size1)
              ∙ same2 j
              ∙ ap (λ n. slice d1.master_buffer (n + slot_size * j + command_size) status_size)
                  size1
              ∙ same1 j,
        )
