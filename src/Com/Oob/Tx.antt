-- ===== src/Com/Oob/Tx.antt =====
-- `EthercatOobCom::tx` as the real-time loop sees it.
use pr2_ether_cat_no_ros.Base.{ℕ, ◌≡◌, true, none, some, arith, ◌≢◌, Option-cases, inl, inr}
use pr2_ether_cat_no_ros.Eml.Library.{Library}
use pr2_ether_cat_no_ros.Com.Oob.{Oob, is_ready, trylock, unlock, send_pending, tx}

-- A frame that waits to be sent is there: what `assert(frame_!=NULL)` in `tx` tests.
abbrev pub IsSound : Oob → Type 0
IsSound o = is_ready o.state ≡ true → o.frame ≢ none

module _ {Net : Type 0} (lib : Library Net) where
  pub tx-ne-none : (me : ℕ) (net : Net) (o : Oob) → IsSound o → tx lib me net o ≢ none
  unfolding tx trylock unlock send_pending
  tx-ne-none me net o v = ground arith

  pub tx-IsSound :
      (me : ℕ) (net : Net) (o : Oob) (r : Net × Oob)
      → IsSound o
      → tx lib me net o ≡ some r
      → IsSound r.1
  unfolding tx trylock unlock send_pending
  tx-IsSound me net o r v e = ground arith

  -- `tx` never fails its assertion, and keeps what the next call needs.
  pub tx_total :
      (me : ℕ) (net : Net) (o : Oob)
      → IsSound o
      → (r : Net × Oob) × (tx lib me net o ≡ some r) × IsSound r.1
  tx_total me net o v = elim (Option-cases (tx lib me net o)) [
    | inl fault ↦ absurd (tx-ne-none me net o v fault)
    | inr (r, e) ↦ (r, e, tx-IsSound me net o r v e)
  ]
