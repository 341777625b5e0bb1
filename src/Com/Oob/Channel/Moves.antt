-- ===== src/Com/Oob/Channel/Moves.antt =====
-- Each step of a thread in `txandrx_once` is a step of the channel.
use pr2_ether_cat_no_ros.Base.{
  ℕ, ◌≡◌, ◌≢◌, refl, sym, ◌∙◌, ap, subst, Bool, true, Option, none, some, arith, inl, inr,
  Option-cases,
}
use pr2_ether_cat_no_ros.Base.Int.{ℤ}
use pr2_ether_cat_no_ros.Eml.Library.{Library}
use pr2_ether_cat_no_ros.Com.Oob.{Oob, idle, ready_to_send, lock, unlock, complete}
use pr2_ether_cat_no_ros.Com.Oob.Threads.{
  Pc, out, looking, pending, leaving, receiving, Move, call, call_null, enter, refused, share,
  share_again, publish, wake, wait_again, go_on, receive, fail, leave, at,
}
use pr2_ether_cat_no_ros.Com.Oob.Effect.{active, holds}
use pr2_ether_cat_no_ros.Com.Oob.Invariant.{Inv}
use pr2_ether_cat_no_ros.Com.Oob.Safety.{receipt, complete-receipt}
use pr2_ether_cat_no_ros.Com.Oob.Channel.{
  Channel, free, asked, sent, answered, Change, rest, ask, answer, give, answer_of, Represents,
  Follows,
}

-- A move that leaves the message and the thread's part in it alone.
quiet_move :
    (i : ℕ) (o o' : Oob) (pc : ℕ → Pc) (p' : Pc) (c : Channel)
    → o'.state ≡ o.state
    → o'.handle ≡ o.handle
    → active p' ≡ active (pc i)
    → answer_of p' ≡ answer_of (pc i)
    → Represents o pc c
    → Represents o' (at pc i p') c
quiet_move i o o' pc p' free s h a b (x, y, z) =
    (s ∙ x, λ j. ground (arith, y j), λ j. ground (arith, z j))
quiet_move i o o' pc p' (asked k f) s h a b (x, y, z) =
    (s ∙ x, ground arith, λ j. ground (arith, z j))
quiet_move i o o' pc p' (sent k f n) s h a b (x, y, n', z) =
    (s ∙ x, ground arith, h ∙ n', λ j. ground (arith, z j))
quiet_move i o o' pc p' (answered k f) s h a b (x, y, z) =
    (s ∙ x, ground arith, λ j. ground (arith, z j))

module _ {Net : Type 0} (lib : Library Net) where
  answer_of-holds : (p : Pc) (b : Bool) → answer_of p ≡ some b → holds p ≡ true
  answer_of-holds (leaving b') b e = refl
  answer_of-holds p b e = ground arith

  module _ {note : Option (ℕ × ℤ)} (i : ℕ) (net : Net) (o : Oob) (pc : ℕ → Pc) (p : Pc)
      (stands : pc i ≡ p) (inv : Inv o pc note) where
    -- The only thread with an answer to return is the one that holds the lock.
    no_other_answer :
        (k : ℕ) (b : Bool) → holds p ≡ true → answer_of (pc k) ≡ some b → answer_of p ≡ some b
    no_other_answer k b h e =
        let a = answer_of-holds (pc k) b e in ground (arith, inv.owner_is i, inv.owner_is k)

    no_other_answers : (j : ℕ) → holds p ≡ true → i ≢ j → answer_of (pc j) ≡ none
    no_other_answers j h ne = elim (Option-cases (answer_of (pc j))) [
      | inl e ↦ e
      | inr (b, e) ↦
          let a = answer_of-holds (pc j) b e in ground (arith, inv.owner_is i, inv.owner_is j)
    ]

    no_other_frame : (f j : ℕ) → active (pc i) ≡ some f → i ≢ j → active (pc j) ≡ none
    no_other_frame f j mine ne = elim (Option-cases (active (pc j))) [
      | inl e ↦ e
      | inr (g, e) ↦ absurd (ne (inv.unique i j f g mine e))
    ]

    publish-Follows :
        (f : ℕ) (c : Channel)
        → o.state ≡ idle
        → p ≡ looking f
        → Represents o pc c
        → Follows lib net c net
            (record o { owner = none; state = ready_to_send; frame = some f })
            (at pc i (pending f))
    publish-Follows f free e q (x, y, z) =
        (asked i f, ask i f, (refl, ground arith, λ j. ground (arith, z j)))
    publish-Follows f (asked k g) e q (x, y, z) = cc
    publish-Follows f (sent k g m) e q (x, y, m', z) = cc
    publish-Follows f (answered k b) e q (x, y, z) =
        let same = no_other_answer k b (ap holds q) y in cc

    receive-Follows :
        (f : ℕ) (net' : Net) (o' : Oob) (success : Bool) (c : Channel)
        → p ≡ receiving f
        → complete lib f net o ≡ some (net', o', success)
        → Represents o pc c
        → Follows lib net c net' o' (at pc i (leaving success))
    receive-Follows f net' o' success free q e (x, y, z) = let w = inv.recv i f (stands ∙ q) in cc
    receive-Follows f net' o' success (asked k g) q e (x, y, z) =
        let w = inv.recv i f (stands ∙ q) in cc
    receive-Follows f net' o' success (sent k g m) q e (x, y, m', z) =
        let mine : active (pc i) ≡ some f = ap active (stands ∙ q) in
        let got = sym e ∙ complete-receipt lib net o f (inv.frame_is i f mine).0 in
        let who : k ≡ i = inv.unique k i g f y mine in
        let what : g ≡ f = cc in
        let n : net' ≡ (receipt lib net g m).0 = cc in
        let b : success ≡ (receipt lib net g m).1 = cc in
        let left : o'.state ≡ idle = cc in
        (
          answered k success,
          subst (λ u. Change lib net (sent k g m) u (answered k success)) (sym n)
              (subst (λ u. Change lib net (sent k g m) (receipt lib net g m).0 (answered k u))
                (sym b) answer),
          (left, ground arith, λ j. ground (arith, no_other_frame f j mine)),
        )
    receive-Follows f net' o' success (answered k b) q e (x, y, z) =
        let w = inv.recv i f (stands ∙ q) in cc

    leave-Follows :
        (b : Bool) (c : Channel)
        → p ≡ leaving b
        → Represents o pc c
        → Follows lib net c net (unlock i o).0 (at pc i out)
    unfolding unlock
    leave-Follows b free q (x, y, z) = let n = z i in cc
    leave-Follows b (asked k g) q (x, y, z) = let n = z i in cc
    leave-Follows b (sent k g m) q (x, y, m', z) = let n = z i in cc
    leave-Follows b (answered k b') q (x, y, z) = (
      free,
      give,
      (ground arith, (λ j. ground (arith, z j)), λ j. ground (arith, no_other_answers j)),
    )

  quiet-Follows :
      (i : ℕ) (net : Net) (o o' : Oob) (pc : ℕ → Pc) (p p' : Pc) (c : Channel)
      → pc i ≡ p
      → Represents o pc c
      → o'.state ≡ o.state
      → o'.handle ≡ o.handle
      → active p' ≡ active p
      → answer_of p' ≡ answer_of p
      → Follows lib net c net o' (at pc i p')
  quiet-Follows i net o o' pc p p' c e r s h a b =
      (c, rest, quiet_move i o o' pc p' c s h (a ∙ sym (ap active e)) (b ∙ sym (ap answer_of e)) r)

  pub Move-Follows :
      {note : Option (ℕ × ℤ)} (i : ℕ) (net net' : Net) (o o' : Oob) (pc : ℕ → Pc) (p p' : Pc)
      (c : Channel)
      → pc i ≡ p
      → Inv o pc note
      → Represents o pc c
      → Move lib i net o p net' o' p'
      → Follows lib net c net' o' (at pc i p')
  unfolding lock
  Move-Follows i net net' o o' pc p p' c e inv r (call f) =
      quiet-Follows i net o o' pc p p' c e r refl refl refl refl
  Move-Follows i net net' o o' pc p p' c e inv r call_null =
      quiet-Follows i net o o' pc p p' c e r refl refl refl refl
  Move-Follows i net net' o o' pc p p' c e inv r (enter o1 l) =
      quiet-Follows i net o o' pc p p' c e r (ground arith) (ground arith) refl refl
  Move-Follows i net net' o o' pc p p' c e inv r (refused o1 l) =
      quiet-Follows i net o o' pc p p' c e r (ground arith) (ground arith) refl refl
  Move-Follows i net net' o o' pc p p' c e inv r (share ne) =
      quiet-Follows i net o o' pc p p' c e r refl refl refl refl
  Move-Follows i net net' o o' pc p p' c e inv r (share_again l) =
      quiet-Follows i net o o' pc p p' c e r refl refl refl refl
  Move-Follows i net net' o o' pc p p' c e inv r (publish {f} l) =
      publish-Follows i net o pc p e inv f c l refl r
  Move-Follows i net net' o o' pc p p' c e inv r (wake l) =
      quiet-Follows i net o o' pc p p' c e r refl refl refl refl
  Move-Follows i net net' o o' pc p p' c e inv r (wait_again ne) =
      quiet-Follows i net o o' pc p p' c e r refl refl refl refl
  Move-Follows i net net' o o' pc p p' c e inv r (go_on l) =
      quiet-Follows i net o o' pc p p' c e r refl refl refl refl
  Move-Follows i net net' o o' pc p p' c e inv r (receive {f} n1 o1 b l) =
      receive-Follows i net o pc p e inv f n1 o1 b c refl l r
  Move-Follows i net net' o o' pc p p' c e inv r (fail {f} l) =
      let got = complete-receipt lib net o f (inv.frame_is i f (ap active e)).0 in cc
  Move-Follows i net net' o o' pc p p' c e inv r (leave {success = b}) =
      leave-Follows i net o pc p e inv b c refl r
