-- ===== src/Com/Oob/Effect.antt =====
-- What one step of a thread in `txandrx_once` does to the shared object.
use pr2_ether_cat_no_ros.Base.{
  ℕ, ◌≡◌, ◌≢◌, refl, Bool, true, false, Option, none, some, arith, ◌⊎◌, inl, inr,
}
use pr2_ether_cat_no_ros.Eml.Library.{Library}
use pr2_ether_cat_no_ros.Com.Oob.{Oob, idle, ready_to_send, waiting_to_recv, lock, unlock, complete}
use pr2_ether_cat_no_ros.Com.Oob.Threads.{
  Pc, looking, pending, woken, receiving, leaving, crashed, Move, call, call_null, enter, refused,
  share, share_again, publish, wake, wait_again, go_on, receive, fail, leave,
}

-- The frame that a thread has published and not received yet.
abbrev pub active : Pc → Option ℕ
active (pending f) = some f
active (woken f) = some f
active (receiving f) = some f
active _ = none

-- Whether a thread has the lock.
abbrev pub holds : Pc → Bool
holds (looking _) = true
holds (woken _) = true
holds (receiving _) = true
holds (leaving _) = true
holds _ = false

-- A thread leaves the message alone, or hands a frame over, or has received one.
abbrev pub Keeps : Oob → Pc → Oob → Pc → Type 0
Keeps o p o' p' =
    (active p' ≡ active p) × (o'.frame ≡ o.frame) × (o'.state ≡ o.state) × (o'.handle ≡ o.handle)

abbrev pub Publishes : Oob → Pc → Oob → Pc → Type 0
Publishes o p o' p' =
    (o.state ≡ idle)
    × (o'.state ≡ ready_to_send)
    × (active p' ≡ o'.frame)
    × (o'.frame ≢ none)
    × (holds p ≡ true)

abbrev pub Receives : Oob → Pc → Oob → Pc → Type 0
Receives o p o' p' = (o'.state ≡ idle) × (active p ≢ none) × (active p' ≡ none) × (holds p ≡ true)

pub record Effect (i : ℕ) (o : Oob) (p : Pc) (o' : Oob) (p' : Pc) : Type 0 where
  pub kind : Keeps o p o' p' ⊎ (Publishes o p o' p' ⊎ Receives o p o' p')
  pub mine : holds p' ≡ true → o'.owner ≡ some i
  pub others : (j : ℕ) → j ≢ i → o.owner ≡ some j → o'.owner ≡ some j
  pub ready_to_receive : (f : ℕ) → p' ≡ receiving f → o'.state ≡ waiting_to_recv
  pub no_crash : p' ≢ crashed

module _ {Net : Type 0} (lib : Library Net) where
  pub Move-Effect :
      {i : ℕ} {net net' : Net} {o o' : Oob} {p p' : Pc}
      → Move lib i net o p net' o' p'
      → (holds p ≡ true → o.owner ≡ some i)
      → ((f : ℕ) → active p ≡ some f → (o.frame ≡ some f) × (o.state ≢ idle))
      → Effect i o p o' p'
  unfolding lock unlock complete
  Move-Effect (call f) own fr = record {
    kind = inl (refl, refl, refl, refl);
    mine = λ h. cc;
    others = λ j ne e. e;
    ready_to_receive = λ f e. cc;
    no_crash = λ e. cc;
  }
  Move-Effect call_null own fr = record {
    kind = inl (refl, refl, refl, refl);
    mine = λ h. cc;
    others = λ j ne e. e;
    ready_to_receive = λ f e. cc;
    no_crash = λ e. cc;
  }
  Move-Effect (enter o' e) own fr = record {
    kind = ground arith;
    mine = ground arith;
    others = λ j ne h. ground arith;
    ready_to_receive = λ f h. cc;
    no_crash = λ h. cc;
  }
  Move-Effect (receive net' o' success e) own fr = record {
    kind = inr (inr (ground arith, ground arith, ground arith, ground arith));
    mine = ground arith;
    others = λ j ne h. ground arith;
    ready_to_receive = λ f h. cc;
    no_crash = λ h. cc;
  }
  Move-Effect (fail {f} e) own fr = absurd (ground (arith, fr f refl, e))
  Move-Effect (refused o' e) own fr = record {
    kind = ground arith;
    mine = ground arith;
    others = λ j ne h. ground arith;
    ready_to_receive = λ f h. cc;
    no_crash = λ h. cc;
  }
  Move-Effect (share ne) own fr = record {
    kind = inl (refl, refl, refl, refl);
    mine = ground arith;
    others = λ j ne h. ground arith;
    ready_to_receive = λ f h. cc;
    no_crash = λ h. cc;
  }
  Move-Effect (share_again e) own fr = record {
    kind = inl (refl, refl, refl, refl);
    mine = ground arith;
    others = λ j ne h. ground arith;
    ready_to_receive = λ f h. cc;
    no_crash = λ h. cc;
  }
  Move-Effect (publish e) own fr = record {
    kind = inr (inl (ground arith, refl, refl, (λ h. cc), refl));
    mine = ground arith;
    others = λ j ne h. ground arith;
    ready_to_receive = λ f h. cc;
    no_crash = λ h. cc;
  }
  Move-Effect (wake e) own fr = record {
    kind = inl (refl, refl, refl, refl);
    mine = ground arith;
    others = λ j ne h. ground arith;
    ready_to_receive = λ f h. cc;
    no_crash = λ h. cc;
  }
  Move-Effect (wait_again ne) own fr = record {
    kind = inl (refl, refl, refl, refl);
    mine = ground arith;
    others = λ j ne h. ground arith;
    ready_to_receive = λ f h. cc;
    no_crash = λ h. cc;
  }
  Move-Effect (go_on e) own fr = record {
    kind = inl (refl, refl, refl, refl);
    mine = ground arith;
    others = λ j ne h. ground arith;
    ready_to_receive = λ f h. e;
    no_crash = λ h. cc;
  }
  Move-Effect leave own fr = record {
    kind = ground arith;
    mine = ground arith;
    others = λ j ne h. ground arith;
    ready_to_receive = λ f h. cc;
    no_crash = λ h. cc;
  }
