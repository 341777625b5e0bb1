-- ===== src/Com/Oob/Invariant.antt =====
-- What every step of the threads and of the real-time loop keeps.
use pr2_ether_cat_no_ros.Base.{
  ℕ, ◌≡◌, ◌≢◌, true, Option, none, some, arith, ◌⊎◌, inl, inr, Option-cases, ap,
}
use pr2_ether_cat_no_ros.Base.Int.{ℤ}
use pr2_ether_cat_no_ros.Eml.Library.{Library}
use pr2_ether_cat_no_ros.Com.Oob.{
  Oob, idle, ready_to_send, waiting_to_recv, new_oob, trylock, unlock, send_pending, tx,
}
use pr2_ether_cat_no_ros.Com.Oob.Tx.{IsSound, tx-IsSound}
use pr2_ether_cat_no_ros.Com.Oob.Threads.{
  Pc, out, receiving, crashed, System, at, noted, Step, thread, real_time, process_data, start,
  Reach, here, next,
}
use pr2_ether_cat_no_ros.Com.Oob.Effect.{active, holds, Effect, Move-Effect}

pub record Inv (o : Oob) (pc : ℕ → Pc) (sent : Option (ℕ × ℤ)) : Type 0 where
  pub frame_is : (j f : ℕ) → active (pc j) ≡ some f → (o.frame ≡ some f) × (o.state ≢ idle)
  pub unique : (j k f g : ℕ) → active (pc j) ≡ some f → active (pc k) ≡ some g → j ≡ k
  pub owner_is : (j : ℕ) → holds (pc j) ≡ true → o.owner ≡ some j
  pub recv : (j f : ℕ) → pc j ≡ receiving f → o.state ≡ waiting_to_recv
  pub sent_is : (f : ℕ) → o.state ≡ waiting_to_recv → o.frame ≡ some f → sent ≡ some (f, o.handle)
  pub sound : IsSound o
  pub fine : (j : ℕ) → pc j ≢ crashed

Inv-start : Inv new_oob (λ _. out) none
unfolding new_oob
Inv-start = record {
  frame_is = λ j f e. cc;
  unique = λ j k f g e. cc;
  owner_is = λ j e. cc;
  recv = λ j f e. cc;
  sent_is = λ f e. cc;
  sound = λ e. cc;
  fine = λ j e. cc;
}

module _ {i : ℕ} {o o' : Oob} {pc : ℕ → Pc} {sent : Option (ℕ × ℤ)} {p' : Pc} (inv : Inv o pc sent)
    (eff : Effect i o (pc i) o' p') where
  -- The thread whose frame is received is the only one with a frame.
  alone : active (pc i) ≢ none → (j f : ℕ) → active (pc j) ≡ some f → i ≢ j → ⊥
  alone b j f e ne = elim (Option-cases (active (pc i))) [
    | inl h ↦ b h
    | inr (g, h) ↦ ne (inv.unique i j g f h e)
  ]

  frame-after : (j f : ℕ) → active (at pc i p' j) ≡ some f → (o'.frame ≡ some f) × (o'.state ≢ idle)
  frame-after j f e = elim (eff.kind) [
    | inl (a, b, c, d) ↦ ground (arith, inv.frame_is j f, inv.frame_is i f)
    | inr (inl (a, b, c, d, h')) ↦ ground (arith, inv.frame_is j f, inv.frame_is i f)
    | inr (inr (a, b, c, d)) ↦ ground (arith, alone b j f)
  ]

  unique-after :
      (j k f g : ℕ) → active (at pc i p' j) ≡ some f → active (at pc i p' k) ≡ some g → j ≡ k
  unique-after j k f g e h = elim (eff.kind) [
    | inl (a, b, c, d) ↦ ground (arith, inv.unique j k f g)
    | inr (inl (a, b, c, d, h')) ↦ ground (arith, inv.frame_is j f, inv.frame_is k g)
    | inr (inr (a, b, c, d)) ↦ ground (arith, inv.unique j k f g)
  ]

  owner-after : (j : ℕ) → holds (at pc i p' j) ≡ true → o'.owner ≡ some j
  owner-after j h = ground (arith, eff.mine, eff.others j, inv.owner_is j)

  recv-after : (j f : ℕ) → at pc i p' j ≡ receiving f → o'.state ≡ waiting_to_recv
  recv-after j f h = elim (eff.kind) [
    | inl (a, b, c, d) ↦ ground (arith, eff.ready_to_receive f, inv.recv j f)
    | inr (inl (a, b, c, d, h')) ↦ ground (arith, eff.ready_to_receive f, inv.recv j f)
    | inr (inr (a, b, c, d)) ↦
        ground (arith, eff.ready_to_receive f, alone b j f, λ (e : pc j ≡ receiving f). ap active e)
  ]

  sent-after : (f : ℕ) → o'.state ≡ waiting_to_recv → o'.frame ≡ some f → sent ≡ some (f, o'.handle)
  sent-after f s e = elim (eff.kind) [
    | inl (a, b, c, d) ↦ ground (arith, inv.sent_is f)
    | inr (inl (a, b, c, d, h')) ↦ cc
    | inr (inr (a, b, c, d)) ↦ cc
  ]

  IsSound-after : IsSound o'
  IsSound-after r = elim (eff.kind) [
    | inl (a, b, c, d) ↦ ground (arith, inv.sound)
    | inr (inl (a, b, c, d, h')) ↦ ground arith
    | inr (inr (a, b, c, d)) ↦ cc
  ]

  fine-after : (j : ℕ) → at pc i p' j ≢ crashed
  fine-after j h = ground (arith, eff.no_crash, inv.fine j)

  Inv-after : Inv o' (at pc i p') sent
  Inv-after = record {
    frame_is = frame-after;
    unique = unique-after;
    owner_is = owner-after;
    recv = recv-after;
    sent_is = sent-after;
    sound = IsSound-after;
    fine = fine-after;
  }

-- `tx` leaves the message, or sends it.
abbrev pub Sends : Oob → Oob → Type 0
Sends o o' =
    (o'.owner ≡ o.owner)
    × (o'.frame ≡ o.frame)
    × (((o'.state ≡ o.state) × (o'.handle ≡ o.handle))
        ⊎ ((o.state ≡ ready_to_send) × (o'.state ≡ waiting_to_recv)))

module _ {Net : Type 0} (lib : Library Net) where
  pub tx-Sends :
      (me : ℕ) (net net' : Net) (o o' : Oob) → tx lib me net o ≡ some (net', o') → Sends o o'
  unfolding tx trylock unlock send_pending
  tx-Sends me net net' o o' e = (ground arith, ground arith, ground arith)

  tx-noted :
      (me : ℕ) (net net' : Net) (o o' : Oob) (sent : Option (ℕ × ℤ)) (f : ℕ)
      → tx lib me net o ≡ some (net', o')
      → o'.state ≡ waiting_to_recv
      → o'.frame ≡ some f
      → (o.state ≡ waiting_to_recv → o.frame ≡ some f → sent ≡ some (f, o.handle))
      → noted lib net o sent ≡ some (f, o'.handle)
  unfolding tx trylock unlock send_pending
  tx-noted me net net' o o' sent f e w framed before = ground arith

  tx-Inv :
      (me : ℕ) (net net' : Net) (o o' : Oob) (pc : ℕ → Pc) (sent : Option (ℕ × ℤ))
      → Inv o pc sent
      → tx lib me net o ≡ some (net', o')
      → Inv o' pc (noted lib net o sent)
  tx-Inv me net net' o o' pc sent inv e =
      let (a, b, c) = tx-Sends me net net' o o' e in
      record {
        frame_is = λ j f h. ground (arith, inv.frame_is j f);
        unique = inv.unique;
        owner_is = λ j h. ground (arith, inv.owner_is j);
        recv = λ j f h. ground (arith, inv.recv j f);
        sent_is = λ f s h. tx-noted me net net' o o' sent f e s h (inv.sent_is f);
        sound = tx-IsSound lib me net o (net', o') inv.sound e;
        fine = inv.fine;
      }

  Step-Inv : (s t : System Net) → Inv s.oob s.pc s.sent → Step lib s t → Inv t.oob t.pc t.sent
  Step-Inv s t inv (thread i m) =
      Inv-after inv (Move-Effect lib m (inv.owner_is i) (inv.frame_is i))
  Step-Inv s t inv (real_time me net' o' e) = tx-Inv me s.net net' s.oob o' s.pc s.sent inv e
  Step-Inv s t inv (process_data frame) = inv

  pub Reach-Inv : (net : Net) (s : System Net) → Reach lib (start net) s → Inv s.oob s.pc s.sent
  Reach-Inv net s here = Inv-start
  Reach-Inv net s (next {t} r m) = Step-Inv t s (Reach-Inv net t r) m
