-- ===== src/Com/Oob/Alone.antt =====
-- A thread in `txandrx_once` that runs alone: its steps from the answer of the network to its
-- return.
use pr2_ether_cat_no_ros.Base.{ℕ, ◌≡◌, refl, none, some, arith}
use pr2_ether_cat_no_ros.Base.Int.{negsuc}
use pr2_ether_cat_no_ros.Eml.Library.{Library}
use pr2_ether_cat_no_ros.Com.Oob.{Oob, idle, waiting_to_recv, unlock}
use pr2_ether_cat_no_ros.Com.Oob.Threads.{
  Pc, out, pending, taken, Move, wake, go_on, receive, leave,
}
use pr2_ether_cat_no_ros.Com.Oob.Safety.{receipt, complete-receipt}

module _ {Net : Type 0} (lib : Library Net) where
  -- Any number of steps of the thread `i`.
  pub data Moves (i : ℕ) (net : Net) (o : Oob) (p : Pc) : Net → Oob → Pc → Type 0 where
    still : Moves i net o p net o p
    move :
        {net1 net2 : Net} {o1 o2 : Oob} {p1 p2 : Pc}
        → Moves i net o p net1 o1 p1
        → Move lib i net1 o1 p1 net2 o2 p2
        → Moves i net o p net2 o2 p2

  -- A thread returns, and leaves the object free.
  abbrev pub Returns : ℕ → Net → Oob → Pc → Type 0
  Returns i net o p =
      (net' : Net) × (o' : Oob) × Moves i net o p net' o' out
      × (o'.state ≡ idle)
      × (o'.owner ≡ none)

  unlock-free :
      (j : ℕ) (o : Oob)
      → o.owner ≡ some j
      → ((unlock j o).0.owner ≡ none) × ((unlock j o).0.state ≡ o.state)
  unfolding unlock
  unlock-free j o e = (ground arith, ground arith)

  pub sent-Returns :
      (j f : ℕ) (net : Net) (o : Oob)
      → o.owner ≡ none
      → o.state ≡ waiting_to_recv
      → o.frame ≡ some f
      → Returns j net o (pending f)
  sent-Returns j f net o free w framed =
      let got = receipt lib net f (o.handle) in
      let o' : Oob = record (taken j o) { handle = negsuc 0; state = idle } in
      let (a, b) = unlock-free j o' refl in
      (
        got.0,
        (unlock j o').0,
        move
            (move (move (move still (wake free)) (go_on w))
              (receive (got.0) o' (got.1) (complete-receipt lib net (taken j o) f framed)))
            leave,
        b,
        a,
      )
