-- ===== src/Driver/Clients.antt =====
-- The driver with all its threads round the network: the real-time thread in `update`, one try of
-- `txandrx_PD` at a time, and any number of threads in `EthercatOobCom::txandrx_once`.
pub mod Whole
pub mod Turn
pub mod Pending
pub mod Answer
pub mod Silence
use pr2_ether_cat_no_ros.Base.{ℕ, zero, suc, ◌≡◌, Bool, Option, none, some, if◌then◌else◌}
use pr2_ether_cat_no_ros.Base.Int.{ℤ}
use pr2_ether_cat_no_ros.Eml.Library.{Library}
use pr2_ether_cat_no_ros.Com.Oob.{Oob, tx}
use pr2_ether_cat_no_ros.Com.Oob.Threads.{Pc, out, Move, at, noted, System}
use pr2_ether_cat_no_ros.Driver.State.{Driver}
use pr2_ether_cat_no_ros.Driver.ProcessData.{
  rt_thread, max_pd_retries, pack_racing, exchange, swap_buffers,
}

-- Where the real-time thread stands in `update`.
pub data CyclePc : Type 0 where
  between : CyclePc  -- before `packCommand`
  trying : (left : ℕ) → CyclePc  -- at the test of the loop of `txandrx_PD`, with tries left
  swapping : CyclePc  -- before the exchange of the pointers

-- `sent` is no variable of the program: the frame and the handle of the last `ni_->tx`.
pub record Plant (Net : Type 0) : Type 0 where
  pub driver : Driver Net
  pub cycle : CyclePc
  pub pc : ℕ → Pc
  pub sent : Option (ℕ × ℤ)

-- The driver before its first cycle, with no thread in `txandrx_once`.
abbrev pub at_rest : {Net : Type 0} → Driver Net → Plant Net
at_rest d = record { driver = d; cycle = between; pc = λ _. out; sent = none }

-- The network and the out-of-band object, with the threads round it.
abbrev pub around : {Net : Type 0} → Plant Net → System Net
around s = record { net = s.driver.net; oob = s.driver.oob_com; pc = s.pc; sent = s.sent }

abbrev pub with_network : {Net : Type 0} → Driver Net → Net → Oob → Driver Net
with_network d net o = record d { net = net; oob_com = o }

module _ {Net : Type 0} (lib : Library Net) where
  pub data Step (s : Plant Net) : Plant Net → Type 0 where
    client :
        (i : ℕ) {net' : Net} {o' : Oob} {p : Pc}
        → Move lib i s.driver.net s.driver.oob_com (s.pc i) net' o' p
        → Step s (record s { driver = with_network s.driver net' o'; pc = at s.pc i p })
    pack :
        (demands targets : ℕ → ℕ) (d : Driver Net)
        → s.cycle ≡ between
        → pack_racing demands targets s.driver ≡ some d
        → Step s (record s { driver = d; cycle = trying max_pd_retries })
    try :
        (left : ℕ) (d : Driver Net) (success : Bool)
        → s.cycle ≡ trying (suc left)
        → exchange lib s.driver ≡ some (d, success)
        → Step s (record s { driver = d; cycle = if success then swapping else trying left })
    give_turn :
        (net' : Net) (o' : Oob)
        → s.cycle ≡ trying zero
        → tx lib rt_thread s.driver.net s.driver.oob_com ≡ some (net', o')
        → Step s (record s {
          driver = with_network s.driver net' o';
          cycle = swapping;
          sent = noted lib s.driver.net s.driver.oob_com s.sent;
        })
    swap :
        s.cycle ≡ swapping → Step s (record s { driver = swap_buffers s.driver; cycle = between })

  pub data Reach (s : Plant Net) : Plant Net → Type 0 where
    here : Reach s s
    next : {t u : Plant Net} → Reach s t → Step t u → Reach s u
