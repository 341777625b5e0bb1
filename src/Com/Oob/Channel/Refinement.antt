-- ===== src/Com/Oob/Channel/Refinement.antt =====
-- `tx` and `txandrx_once` of all threads together are a run of the channel.
use pr2_ether_cat_no_ros.Base.{
  ℕ, ◌≡◌, refl, sym, ◌∙◌, ap, subst, Option, none, some, arith, ◌⊎◌, inl, inr, Option-cases,
  Bool-cases,
}
use pr2_ether_cat_no_ros.Base.Int.{ℤ}
use pr2_ether_cat_no_ros.Eml.Library.{Library}
use pr2_ether_cat_no_ros.Com.Oob.{
  Oob, ready_to_send, waiting_to_recv, new_oob, unlock, trylock, is_ready, send_pending, tx,
}
use pr2_ether_cat_no_ros.Com.Oob.Threads.{
  Pc, System, Step, thread, real_time, process_data, start, Reach, here, next,
}
use pr2_ether_cat_no_ros.Com.Oob.Invariant.{Inv, Reach-Inv}
use pr2_ether_cat_no_ros.Com.Oob.Channel.{
  Channel, free, asked, sent, answered, Change, rest, send, cycle, Run, opened, change, Represents,
  Follows,
}
use pr2_ether_cat_no_ros.Com.Oob.Channel.Moves.{Move-Follows}

module _ {Net : Type 0} (lib : Library Net) where
  tx_cases :
      (me : ℕ) (net net' : Net) (o o' : Oob)
      → tx lib me net o ≡ some (net', o')
      → ((net' ≡ net) × (o'.state ≡ o.state) × (o'.handle ≡ o.handle))
        ⊎ ((f : ℕ) × (o.owner ≡ none)
            × (o.state ≡ ready_to_send)
            × (o.frame ≡ some f)
            × (o'.state ≡ waiting_to_recv)
            × (net' ≡ (lib.netif_tx net f).0)
            × (o'.handle ≡ (lib.netif_tx net f).1))
  unfolding tx trylock unlock send_pending
  tx_cases me net net' o o' e = elim (Bool-cases (is_ready o.state)) [
    | inr busy ↦ inl (ground arith, ground arith, ground arith)
    | inl due ↦ elim (Option-cases (o.owner)) [
      | inr (other, locked) ↦ inl (ground arith, ground arith, ground arith)
      | inl unlocked ↦ elim (Option-cases (o.frame)) [
        | inl missing ↦ absurd (ground arith)
        | inr (f, framed) ↦
            inr (f, unlocked, ground arith, framed, ground arith, ground arith, ground arith)
      ]
    ]
  ]

  same_message :
      (o o' : Oob) (pc : ℕ → Pc) (c : Channel)
      → o'.state ≡ o.state
      → o'.handle ≡ o.handle
      → Represents o pc c
      → Represents o' pc c
  same_message o o' pc free s h (x, y, z) = (s ∙ x, y, z)
  same_message o o' pc (asked i f) s h (x, y, z) = (s ∙ x, y, z)
  same_message o o' pc (sent i f n) s h (x, y, m, z) = (s ∙ x, y, h ∙ m, z)
  same_message o o' pc (answered i b) s h (x, y, z) = (s ∙ x, y, z)

  send-Follows :
      {note : Option (ℕ × ℤ)} (net : Net) (o o' : Oob) (pc : ℕ → Pc) (f : ℕ) (c : Channel)
      → Inv o pc note
      → o.owner ≡ none
      → o.state ≡ ready_to_send
      → o.frame ≡ some f
      → o'.state ≡ waiting_to_recv
      → o'.handle ≡ (lib.netif_tx net f).1
      → Represents o pc c
      → Follows lib net c (lib.netif_tx net f).0 o' pc
  send-Follows net o o' pc f free inv l s e s' h (x, y, z) = cc
  send-Follows net o o' pc f (asked i g) inv l s e s' h (x, y, z) =
      let same : f ≡ g = ground (arith, inv.frame_is i g y) in
      (
        sent i f (lib.netif_tx net f).1,
        subst
            (λ u.
              Change lib net (asked i u) (lib.netif_tx net f).0 (sent i f (lib.netif_tx net f).1))
            same send,
        (s', y ∙ ap some (sym same), h, z),
      )
  send-Follows net o o' pc f (sent i g n) inv l s e s' h (x, y, m, z) = cc
  send-Follows net o o' pc f (answered i b) inv l s e s' h (x, y, z) = cc

  tx-Follows :
      {note : Option (ℕ × ℤ)} (me : ℕ) (net net' : Net) (o o' : Oob) (pc : ℕ → Pc) (c : Channel)
      → Inv o pc note
      → Represents o pc c
      → tx lib me net o ≡ some (net', o')
      → Follows lib net c net' o' pc
  tx-Follows me net net' o o' pc c inv r e = elim (tx_cases me net net' o o' e) [
    | inl (n, s, h) ↦
        subst (λ u. Follows lib net c u o' pc) (sym n) (c, rest, same_message o o' pc c s h r)
    | inr (f, free_lock, s, framed, s', n, h) ↦
        subst (λ u. Follows lib net c u o' pc) (sym n)
          (send-Follows net o o' pc f c inv free_lock s framed s' h r)
  ]

  -- Each step of the threads is a step of the channel.
  Step-Follows :
      (s t : System Net) (c : Channel)
      → Inv s.oob s.pc s.sent
      → Represents s.oob s.pc c
      → Step lib s t
      → Follows lib s.net c t.net t.oob t.pc
  Step-Follows s t c inv r (thread i {net' = net'} {o' = o'} {p = p'} m) =
      Move-Follows lib i s.net net' s.oob o' s.pc (s.pc i) p' c refl inv r m
  Step-Follows s t c inv r (real_time me net' o' e) =
      tx-Follows me s.net net' s.oob o' s.pc c inv r e
  Step-Follows s t c inv r (process_data frame) = (c, cycle frame, r)

  -- Whatever any number of threads in `txandrx_once` and the real-time loop in `tx` do, in any
  -- interleaving, is a run of the channel: it is free, takes the frame of one thread, sends that
  -- frame once, receives with the handle of that sending, and gives the answer to that thread. The
  -- network ends in the state in which the run of the channel leaves it, and the object and its
  -- threads stand for the state of the channel.
  pub Reach-Run :
      (net : Net) (s : System Net)
      → Reach lib (start net) s
      → (c : Channel) × Run lib net s.net c × Represents s.oob s.pc c
  unfolding new_oob
  Reach-Run net s here = (free, opened, (refl, (λ j. refl), λ j. refl))
  Reach-Run net s (next {t} before m) =
      let (c, run, r) = Reach-Run net t before in
      let (c', ch, r') = Step-Follows t s c (Reach-Inv lib net t before) r m in
      (c', change run ch, r')
