-- ===== src/Com/Oob/Channel.antt =====
-- What an `EthercatOobCom` promises, with its lock and its threads left out: a channel that takes
-- one frame at a time, sends it once and gives its answer to the thread that asked.
pub mod Moves
pub mod Refinement
use pr2_ether_cat_no_ros.Base.{
  ℕ, ◌≡◌, ◌≢◌, refl, sym, ◌∙◌, ap, subst, Bool, true, false, Option, none, some, arith, ◌⊎◌, inl,
  inr, Option-cases, Bool-cases, List,
}
use pr2_ether_cat_no_ros.Base.Int.{ℤ, negsuc}
use pr2_ether_cat_no_ros.Eml.Library.{Library}
use pr2_ether_cat_no_ros.Com.Oob.{
  Oob, idle, ready_to_send, waiting_to_recv, new_oob, lock, unlock, trylock, is_ready, send_pending,
  complete, tx,
}
use pr2_ether_cat_no_ros.Com.Oob.Threads.{
  Pc, out, looking, pending, leaving, receiving, Move, call, enter, refused, share, share_again,
  publish, wake, wait_again, go_on, receive, fail, leave, System, at, Step, thread, real_time,
  start, Reach, here, next,
}
use pr2_ether_cat_no_ros.Com.Oob.Effect.{active, holds}
use pr2_ether_cat_no_ros.Com.Oob.Invariant.{Inv, Reach-Inv}
use pr2_ether_cat_no_ros.Com.Oob.Safety.{receipt, complete-receipt}

pub data Channel : Type 0 where
  free : Channel
  asked : (thread frame : ℕ) → Channel  -- the thread has handed the frame over
  sent : (thread frame : ℕ) (handle : ℤ) → Channel  -- it is on the network, under the handle
  answered : (thread : ℕ) (success : Bool) → Channel  -- the thread is about to return the answer

module _ {Net : Type 0} (lib : Library Net) where
  -- One step of the channel and the network.
  pub data Change (net : Net) : Channel → Net → Channel → Type 0 where
    rest : {c : Channel} → Change net c net c
    ask : (i f : ℕ) → Change net free net (asked i f)
    send :
        {i f : ℕ} → Change net (asked i f) (lib.netif_tx net f).0 (sent i f (lib.netif_tx net f).1)
    answer :
        {i f : ℕ} {h : ℤ}
        → Change net (sent i f h) (receipt lib net f h).0 (answered i (receipt lib net f h).1)
    give : {i : ℕ} {success : Bool} → Change net (answered i success) net free
    cycle : {c : Channel} (frame : List ℕ) → Change net c (lib.txandrx_pd net frame).0 c  -- process data

  -- Any number of them, from the free channel on.
  pub data Run (net : Net) : Net → Channel → Type 0 where
    opened : Run net net free
    change :
        {net1 net2 : Net} {c c' : Channel}
        → Run net net1 c
        → Change net1 c net2 c'
        → Run net net2 c'

-- The answer that a thread is about to return.
abbrev pub answer_of : Pc → Option Bool
answer_of (leaving b) = some b
answer_of _ = none

-- The state of the channel that the object and its threads stand for.
abbrev pub Represents : Oob → (ℕ → Pc) → Channel → Type 0
Represents o pc free =
    (o.state ≡ idle) × ((j : ℕ) → active (pc j) ≡ none) × ((j : ℕ) → answer_of (pc j) ≡ none)
Represents o pc (asked i f) =
    (o.state ≡ ready_to_send) × (active (pc i) ≡ some f) × ((j : ℕ) → answer_of (pc j) ≡ none)
Represents o pc (sent i f h) =
    (o.state ≡ waiting_to_recv)
    × (active (pc i) ≡ some f)
    × (o.handle ≡ h)
    × ((j : ℕ) → answer_of (pc j) ≡ none)
Represents o pc (answered i b) =
    (o.state ≡ idle) × (answer_of (pc i) ≡ some b) × ((j : ℕ) → active (pc j) ≡ none)

module _ {Net : Type 0} (lib : Library Net) where
  -- The channel moves along with what one step did to the object.
  abbrev pub Follows : Net → Channel → Net → Oob → (ℕ → Pc) → Type 0
  Follows net c net' o' pc' = (c' : Channel) × Change lib net c net' c' × Represents o' pc' c'
