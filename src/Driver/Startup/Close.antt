-- ===== src/Driver/Startup/Close.antt =====
-- What `closeOperationalSlaves` returns.
use pr2_ether_cat_no_ros.Base.{
  ℕ, ◌+◌, ◌≡◌, ap, ◌∙◌, some, List, [], ◌∷◌, map, arith, if◌then◌else◌, ◌>>=◌, Bool-cases, inl, inr,
}
use pr2_ether_cat_no_ros.Base.Int.{sub_ℕ}
use pr2_ether_cat_no_ros.Eml.SlaveMemory.{safeop}
use pr2_ether_cat_no_ros.Eml.Library.{Library}
use pr2_ether_cat_no_ros.Driver.State.{Driver}
use pr2_ether_cat_no_ros.Driver.Startup.{is_op, change_state, close_each, close_operational_slaves}

module _ {Net : Type 0} (lib : Library Net) where
  -- The library, asked for SAFEOP for each of the slaves in turn, but not for those that are not
  -- operational at their turn.
  abbrev pub asked : List ℕ → Net → Net
  asked [] net = net
  asked (p ∷ ps) net =
      asked ps (if is_op (lib.get_state net p) then (lib.to_state net p safeop).0 else net)

  -- How many of the operational slaves the library answers with `true`, which its header documents
  -- as success.
  abbrev pub successes : List ℕ → Net → ℕ
  successes [] net = 0
  successes (p ∷ ps) net =
      (if is_op (lib.get_state net p) then (if (lib.to_state net p safeop).1 then 1 else 0) else 0)
      + successes ps (if is_op (lib.get_state net p) then (lib.to_state net p safeop).0 else net)

  close_each_lem :
      (ps : List ℕ) (error : ℕ) (d : Driver Net)
      → close_each lib (map some ps) error d
        ≡ some (record d { net = asked ps d.net }, error + successes ps d.net)
  unfolding close_each change_state
  close_each_lem [] error d = ap (λ n. some (d, n)) (omega arith)
  close_each_lem (p ∷ ps) error d = elim (Bool-cases (is_op (lib.get_state d.net p))) [
    | inr idle ↦ rw idle (
        close_each_lem ps error d
        ∙ ap (λ n. some (record d { net = asked ps d.net }, n)) (omega arith))
    | inl working ↦ elim (Bool-cases ((lib.to_state d.net p safeop).1)) [
      | inl yes_answer ↦
          rw (working, yes_answer)
            (close_each_lem ps (error + 1) (record d { net = (lib.to_state d.net p safeop).0 })
              ∙ ap (λ n. some (record d { net = asked ps (lib.to_state d.net p safeop).0 }, n))
                  (omega arith))
      | inr no_answer ↦
          rw (working, no_answer)
            (close_each_lem ps error (record d { net = (lib.to_state d.net p safeop).0 })
              ∙ ap (λ n. some (record d { net = asked ps (lib.to_state d.net p safeop).0 }, n))
                  (omega arith))
    ]
  ]

  -- With no null handle `closeOperationalSlaves` comes back. It has asked each slave that was
  -- operational at its turn for SAFEOP, and nothing else changes. Its result is minus the number of
  -- those for which the library answered `true`.
  pub close_operational_slaves_lem :
      (ps : List ℕ) (d : Driver Net)
      → d.slave_handles ≡ map some ps
      → close_operational_slaves lib d
        ≡ some (record d { net = asked ps d.net }, sub_ℕ 0 (successes ps d.net))
  unfolding close_operational_slaves
  close_operational_slaves_lem ps d e =
      ap (λ hs. close_each lib hs 0 d >>= λ r. some (r.0, sub_ℕ 0 r.1)) e
      ∙ ap (λ o. o >>= λ r. some (r.0, sub_ℕ 0 r.1)) (close_each_lem ps 0 d)
      ∙ ap (λ n. some (record d { net = asked ps d.net }, sub_ℕ 0 n)) (omega arith)
