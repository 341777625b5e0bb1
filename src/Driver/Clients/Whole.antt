-- ===== src/Driver/Clients/Whole.antt =====
-- The threads of the driver are threads of its out-of-band object.
use pr2_ether_cat_no_ros.Base.{
  ℕ, ◌≡◌, refl, sym, ap, ◌∙◌, subst, Bool, true, Option, none, some, arith, List, ◌⊎◌, inl, inr,
  Option-cases,
}
use pr2_ether_cat_no_ros.Base.Memory.{read_bytes}
use pr2_ether_cat_no_ros.Eml.Library.{Library}
use pr2_ether_cat_no_ros.Com.Oob.{new_oob}
use pr2_ether_cat_no_ros.Com.Oob.Threads.{System, thread, real_time, process_data}
use pr2_ether_cat_no_ros.Com.Oob.Threads
use pr2_ether_cat_no_ros.Com.Oob.Channel.{Channel, Run, Represents}
use pr2_ether_cat_no_ros.Com.Oob.Channel.Refinement.{Reach-Run}
use pr2_ether_cat_no_ros.Driver.State.{Driver}
use pr2_ether_cat_no_ros.Driver.ProcessData.{exchange, with_reply, swap_buffers}
use pr2_ether_cat_no_ros.Driver.ProcessData.Ready.{pack_racing-net}
use pr2_ether_cat_no_ros.Driver.Clients.{
  Plant, at_rest, around, Step, client, pack, try, give_turn, swap, Reach, here, next,
}

module _ {Net : Type 0} (lib : Library Net) where
  -- What a try does to the network: it exchanges some frame, and succeeds if that is answered.
  abbrev pub Exchanges : Driver Net → Driver Net → Bool → Type 0
  Exchanges d d' success =
      (frame : List ℕ) × (d'.net ≡ (lib.txandrx_pd d.net frame).0)
      × (d'.oob_com ≡ d.oob_com)
      × ((got : List ℕ) → (lib.txandrx_pd d.net frame).1 ≡ some got → success ≡ true)

  with_reply-Exchanges :
      (d d' : Driver Net) (frame : List ℕ) (success : Bool) (r : Net × Option (List ℕ))
      → lib.txandrx_pd d.net frame ≡ r
      → with_reply d r ≡ (d', success)
      → Exchanges d d' success
  with_reply-Exchanges d d' frame success (net, none) e h =
      (frame, ground arith, ground arith, λ got f. ground arith)
  with_reply-Exchanges d d' frame success (net, some got) e h =
      (frame, ground arith, ground arith, λ got f. ground arith)

  pub exchange-Exchanges :
      (d d' : Driver Net) (success : Bool)
      → exchange lib d ≡ some (d', success)
      → Exchanges d d' success
  unfolding exchange
  exchange-Exchanges d d' success e =
      elim (Option-cases (read_bytes d.master_buffer 0 d.master_buffer_size)) [
        | inl fault ↦ absurd (ground arith)
        | inr (frame, read) ↦
            with_reply-Exchanges d d' frame success (lib.txandrx_pd d.net frame) refl (ground arith)
      ]

  -- A step of the driver is one of its out-of-band object, or none.
  Step-around :
      (s t : Plant Net)
      → Step lib s t
      → Threads.Step lib (around s) (around t) ⊎ (around s ≡ around t)
  unfolding swap_buffers
  Step-around s t (client i m) = inl (thread i m)
  Step-around s t (pack demands targets d at_start e) =
      let (a, b) = pack_racing-net demands targets s.driver d e in
      inr (
        ap (λ n. record { net = n; oob = s.driver.oob_com; pc = s.pc; sent = s.sent }) (sym a)
        ∙ ap (λ o. record { net = d.net; oob = o; pc = s.pc; sent = s.sent }) (sym b))
  Step-around s t (try left d success at_try e) =
      let (frame, a, b, c) = exchange-Exchanges s.driver d success e in
      inl (
        subst
          (λ n.
            Threads.Step lib (around s)
              (record { net = n; oob = d.oob_com; pc = s.pc; sent = s.sent }))
          (sym a)
          (subst
            (λ o. Threads.Step lib (around s) (record {
              net = (lib.txandrx_pd s.driver.net frame).0;
              oob = o;
              pc = s.pc;
              sent = s.sent;
            }))
            (sym b) (process_data frame)))
  Step-around s t (give_turn net' o' at_end e) = inl (real_time _ net' o' e)
  Step-around s t (swap at_swap) = inr refl

  pub Reach-around : (s t : Plant Net) → Reach lib s t → Threads.Reach lib (around s) (around t)
  Reach-around s t here = Threads.here
  Reach-around s u (next {t} r m) = elim (Step-around t u m) [
    | inl step ↦ Threads.next (Reach-around s t r) step
    | inr same ↦ subst (λ w. Threads.Reach lib (around s) w) same (Reach-around s t r)
  ]

  pub reaches :
      (d : Driver Net) (t : Plant Net)
      → d.oob_com ≡ new_oob
      → Reach lib (at_rest d) t
      → Threads.Reach lib (Threads.start d.net) (around t)
  reaches d t fresh r =
      subst
        (λ o.
          Threads.Reach lib (record { net = d.net; oob = o; pc = λ _. Threads.out; sent = none })
            (around t))
        fresh (Reach-around (at_rest d) t r)

  -- In the whole driver, with any number of threads in `txandrx_once` and the real-time thread
  -- between any two tries of its process data, the out-of-band object is the channel of one frame:
  -- from a new object and no thread in a call, in any interleaving, the network ends in the state
  -- in which a run of the channel and of exchanges of process data leaves it, and the object and
  -- its threads stand for the state of the channel.
  pub clients-Run :
      (d : Driver Net) (t : Plant Net)
      → d.oob_com ≡ new_oob
      → Reach lib (at_rest d) t
      → (c : Channel) × Run lib d.net t.driver.net c × Represents t.driver.oob_com t.pc c
  clients-Run d t fresh r = Reach-Run lib d.net (around t) (reaches d t fresh r)

  pub Reach-trans : (s t u : Plant Net) → Reach lib s t → Reach lib t u → Reach lib s u
  Reach-trans s t u r here = r
  Reach-trans s t w r (next {t = u} more m) = next (Reach-trans s t u r more) m
