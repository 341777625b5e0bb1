-- ===== src/Com/Retry/Answers.antt =====
-- What a result of `EthercatOobCom::txandrx` says of the network.
use pr2_ether_cat_no_ros.Base.{ℕ, ◌≡◌, Bool, some}
use pr2_ether_cat_no_ros.Eml.Library.{Library}
use pr2_ether_cat_no_ros.Com.Oob.{Oob}
use pr2_ether_cat_no_ros.Com.Oob.Threads.{
  Pc, out, entering, looking, sharing, pending, woken, receiving, leaving, null_frame, crashed,
  System, start, Reach,
}
use pr2_ether_cat_no_ros.Com.Oob.Threads
use pr2_ether_cat_no_ros.Com.Oob.Safety.{receipt}

module _ {Net : Type 0} (lib : Library Net) (net : Net) (i f : ℕ) where
  -- The thread was about to receive its frame, under the handle of the last `ni_->tx`, which was of
  -- that frame, and `rx` gave this answer.
  abbrev pub Received : Bool → Type 0
  Received success =
      (u : System Net) × Reach lib (start net) u
      × (u.pc i ≡ receiving f)
      × (u.sent ≡ some (f, u.oob.handle))
      × ((receipt lib u.net f u.oob.handle).1 ≡ success)

  -- A thread in a call with the frame, and the receipt that it brings back.
  abbrev Carries : Pc → Type 0
  Carries out = ⊥
  Carries (entering g) = g ≡ f
  Carries (looking g) = g ≡ f
  Carries (sharing g) = g ≡ f
  Carries (pending g) = g ≡ f
  Carries (woken g) = g ≡ f
  Carries (receiving g) = g ≡ f
  Carries (leaving success) = Received success
  Carries null_frame = Unit
  Carries crashed = Unit
