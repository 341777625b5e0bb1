-- ===== src/Com/Oob/Owner.antt =====
-- The lock of an `EthercatOobCom` and the threads that hold it.
use pr2_ether_cat_no_ros.Base.{ℕ, ◌≡◌, ◌≢◌, refl, sym, ◌∙◌, true, some, arith, ◌⊎◌}
use pr2_ether_cat_no_ros.Eml.Library.{Library}
use pr2_ether_cat_no_ros.Com.Oob.{Oob, new_oob, lock, unlock, complete}
use pr2_ether_cat_no_ros.Com.Oob.Threads.{
  Pc, crashed, Move, call, call_null, enter, refused, share, share_again, publish, wake, wait_again,
  go_on, receive, fail, leave, System, at, Step, thread, real_time, process_data, start, Reach,
  here, next,
}
use pr2_ether_cat_no_ros.Com.Oob.Effect.{holds}
use pr2_ether_cat_no_ros.Com.Oob.Invariant.{Reach-Inv, tx-Sends}

-- Whoever owns the lock stands between a `lock` and an `unlock`.
abbrev pub Held : Oob → (ℕ → Pc) → Type 0
Held o pc = (j : ℕ) → o.owner ≡ some j → holds (pc j) ≡ true

-- The owner after a step of the thread `i`: that thread, or the owner from before if that is
-- another.
abbrev Passes : ℕ → Oob → Oob → Pc → Type 0
Passes i o o' p' =
    (j : ℕ) → o'.owner ≡ some j → ((i ≡ j) × (holds p' ≡ true)) ⊎ ((i ≢ j) × (o.owner ≡ some j))

module _ {Net : Type 0} (lib : Library Net) where
  Move-Passes :
      {i : ℕ} {net net' : Net} {o o' : Oob} {p p' : Pc}
      → Move lib i net o p net' o' p'
      → (holds p ≡ true → o.owner ≡ some i)
      → (o.owner ≡ some i → holds p ≡ true)
      → p' ≢ crashed
      → Passes i o o' p'
  unfolding lock unlock complete
  Move-Passes (call f) own held fine j e = ground arith
  Move-Passes call_null own held fine j e = ground arith
  Move-Passes (enter o' h) own held fine j e = ground arith
  Move-Passes (refused o' h) own held fine j e = ground arith
  Move-Passes (share h) own held fine j e = ground arith
  Move-Passes (share_again h) own held fine j e = ground arith
  Move-Passes (publish h) own held fine j e = ground arith
  Move-Passes (wake h) own held fine j e = ground arith
  Move-Passes (wait_again h) own held fine j e = ground arith
  Move-Passes (go_on h) own held fine j e = ground arith
  Move-Passes (receive net' o' success h) own held fine j e = ground arith
  Move-Passes (fail h) own held fine j e = absurd (fine refl)
  Move-Passes leave own held fine j e = ground arith

  Held-at :
      (i : ℕ) (o o' : Oob) (pc : ℕ → Pc) (p' : Pc)
      → Held o pc
      → Passes i o o' p'
      → Held o' (at pc i p')
  Held-at i o o' pc p' h passes j e = ground (arith, passes j e, h j)

  Step-Held :
      (net : Net) (s t : System Net)
      → Reach lib (start net) s
      → Step lib s t
      → Held s.oob s.pc
      → Held t.oob t.pc
  Step-Held net s t r (thread i {o' = o'} {p = p'} m) h =
      let inv = Reach-Inv lib net s r in
      let fine = (Reach-Inv lib net t (next r (thread i m))).fine i in
      Held-at i s.oob o' s.pc p' h
        (Move-Passes m (inv.owner_is i) (h i) (λ e. fine (ground (arith, e))))
  Step-Held net s t r (real_time me net' o' e) h =
      λ j own. h j (sym (tx-Sends lib me s.net net' s.oob o' e).0 ∙ own)
  Step-Held net s t r (process_data frame) h = h

  -- In every state that the threads reach, the owner of the lock is a thread that has it.
  pub Reach-Held : (net : Net) (s : System Net) → Reach lib (start net) s → Held s.oob s.pc
  unfolding new_oob
  Reach-Held net s here = λ j e. cc
  Reach-Held net s (next {t} r m) = Step-Held net t s r m (Reach-Held net t r)
