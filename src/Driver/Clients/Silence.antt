-- ===== src/Driver/Clients/Silence.antt =====
-- Out-of-band frames on a bus that works: `txandrx_PD` calls `tx` only after its last failure.
use pr2_ether_cat_no_ros.Base.{
  ℕ, zero, ◌≡◌, ◌≢◌, refl, sym, ap, ◌∙◌, subst, Bool, true, false, none, some, arith, List,
}
use pr2_ether_cat_no_ros.Eml.Library.{Library}
use pr2_ether_cat_no_ros.Com.Oob.{Oob, waiting_to_recv, new_oob, lock}
use pr2_ether_cat_no_ros.Com.Oob.Threads.{
  Pc, out, receiving, leaving, crashed, Move, call, call_null, enter, refused, share, share_again,
  publish, wake, wait_again, go_on, receive, fail, leave,
}
use pr2_ether_cat_no_ros.Com.Oob.Effect.{holds}
use pr2_ether_cat_no_ros.Com.Oob.Owner.{Held, Reach-Held}
use pr2_ether_cat_no_ros.Driver.State.{Driver}
use pr2_ether_cat_no_ros.Driver.ProcessData.{swap_buffers}
use pr2_ether_cat_no_ros.Driver.ProcessData.Ready.{pack_racing-net}
use pr2_ether_cat_no_ros.Driver.Clients.{
  Plant, trying, at_rest, around, Step, client, pack, try, give_turn, swap, Reach, here, next,
}
use pr2_ether_cat_no_ros.Driver.Clients.Whole.{reaches, exchange-Exchanges, Reach-trans}

-- Whether a thread has not got past the second loop of `txandrx_once`.
abbrev pub unanswered : Pc → Bool
unanswered (receiving _) = false
unanswered (leaving _) = false
unanswered crashed = false
unanswered _ = true

-- The states of the network in which the bus works, by a property that each exchange keeps.
pub record Works {Net : Type 0} (lib : Library Net) (Good : Net → Type 0) : Type 0 where
  pub answers :
      (net : Net) (frame : List ℕ)
      → Good net
      → (got : List ℕ) × ((lib.txandrx_pd net frame).1 ≡ some got)
  pub stays : (net : Net) (frame : List ℕ) → Good net → Good (lib.txandrx_pd net frame).0

module _ {Net : Type 0} (lib : Library Net) where
  Move-unanswered :
      {i : ℕ} {net net' : Net} {o o' : Oob} {p p' : Pc}
      → Move lib i net o p net' o' p'
      → o.state ≢ waiting_to_recv
      → unanswered p ≡ true
      → (net' ≡ net) × (o'.state ≢ waiting_to_recv) × (unanswered p' ≡ true)
  unfolding lock
  Move-unanswered (call f) s u = (refl, s, refl)
  Move-unanswered call_null s u = (refl, s, refl)
  Move-unanswered (enter o' h) s u = (refl, ground arith, refl)
  Move-unanswered (refused o' h) s u = (refl, ground arith, refl)
  Move-unanswered (share h) s u = (refl, s, refl)
  Move-unanswered (share_again h) s u = (refl, s, refl)
  Move-unanswered (publish h) s u = (refl, (λ e. cc), refl)
  Move-unanswered (wake h) s u = (refl, s, refl)
  Move-unanswered (wait_again h) s u = (refl, s, refl)
  Move-unanswered (go_on h) s u = absurd (s h)
  Move-unanswered (receive net' o' success h) s u = cc
  Move-unanswered (fail h) s u = cc
  Move-unanswered leave s u = cc

  -- A thread that is in a call, and not past its second loop, stays in it.
  Move-stays :
      {i : ℕ} {net net' : Net} {o o' : Oob} {p p' : Pc}
      → Move lib i net o p net' o' p'
      → (o.owner ≡ some i → holds p ≡ true)
      → unanswered p ≡ true
      → p ≢ out
      → p' ≢ out
  unfolding lock
  Move-stays (call f) held u ne = λ e. cc
  Move-stays call_null held u ne = λ e. cc
  Move-stays (enter o' h) held u ne = λ e. cc
  Move-stays (refused o' h) held u ne = λ e. ground arith
  Move-stays (share h) held u ne = λ e. cc
  Move-stays (share_again h) held u ne = λ e. cc
  Move-stays (publish h) held u ne = λ e. cc
  Move-stays (wake h) held u ne = λ e. cc
  Move-stays (wait_again h) held u ne = λ e. cc
  Move-stays (go_on h) held u ne = λ e. cc
  Move-stays (receive net' o' success h) held u ne = λ e. cc
  Move-stays (fail h) held u ne = λ e. cc
  Move-stays leave held u ne = cc

  module _ (Good : Net → Type 0) (works : Works lib Good) where
    -- All that holds while the bus works.
    pub record Silent (s : Plant Net) : Type 0 where
      pub good : Good s.driver.net
      pub no_turn : s.cycle ≢ trying zero
      pub not_sent : s.sent ≡ none
      pub not_waiting : s.driver.oob_com.state ≢ waiting_to_recv
      pub no_answer : (j : ℕ) → unanswered (s.pc j) ≡ true

    Step-Silent : (s t : Plant Net) → Step lib s t → Silent s → Silent t
    unfolding swap_buffers
    Step-Silent s t (client i {net' = net'} {o' = o'} {p = p'} m) inv =
        let (same, not_waiting, no_answer) = Move-unanswered m inv.not_waiting (inv.no_answer i) in
        record {
          good = subst Good (sym same) inv.good;
          no_turn = inv.no_turn;
          not_sent = inv.not_sent;
          not_waiting = not_waiting;
          no_answer = λ j. ground (arith, inv.no_answer j);
        }
    Step-Silent s t (pack demands targets d at_start e) inv =
        let (a, b) = pack_racing-net demands targets s.driver d e in
        record {
          good = subst Good (sym a) inv.good;
          no_turn = λ h. cc;
          not_sent = inv.not_sent;
          not_waiting = λ h. inv.not_waiting (ap (λ (o : Oob). o.state) (sym b) ∙ h);
          no_answer = inv.no_answer;
        }
    Step-Silent s t (try left d success at_try e) inv =
        let (frame, a, b, c) = exchange-Exchanges lib s.driver d success e in
        let (got, came) = works.answers s.driver.net frame inv.good in
        let succeeds = c got came in
        record {
          good = subst Good (sym a) (works.stays s.driver.net frame inv.good);
          no_turn = λ h. ground arith;
          not_sent = inv.not_sent;
          not_waiting = λ h. inv.not_waiting (ap (λ (o : Oob). o.state) (sym b) ∙ h);
          no_answer = inv.no_answer;
        }
    Step-Silent s t (give_turn net' o' at_end e) inv = absurd (inv.no_turn at_end)
    Step-Silent s t (swap at_swap) inv = record {
      good = inv.good;
      no_turn = λ h. cc;
      not_sent = inv.not_sent;
      not_waiting = inv.not_waiting;
      no_answer = inv.no_answer;
    }

    Reach-Silent :
        (d : Driver Net) (t : Plant Net)
        → d.oob_com ≡ new_oob
        → Good d.net
        → Reach lib (at_rest d) t
        → Silent t
    unfolding new_oob
    Reach-Silent d t fresh good here = record {
      good = good;
      no_turn = λ h. cc;
      not_sent = refl;
      not_waiting = λ h. ground arith;
      no_answer = λ j. refl;
    }
    Reach-Silent d u fresh good (next {t} r m) = Step-Silent t u m (Reach-Silent d t fresh good r)

    -- No step takes a thread out of its call.
    Step-stays :
        (s t : Plant Net) (j : ℕ)
        → Silent s
        → Held s.driver.oob_com s.pc
        → Step lib s t
        → s.pc j ≢ out
        → t.pc j ≢ out
    Step-stays s t j inv held (client i {p = p'} m) ne =
        let moves : s.pc i ≢ out → p' ≢ out = Move-stays m (held i) (inv.no_answer i) in
        λ e. ground (arith, moves, ne, e)
    Step-stays s t j inv held (pack demands targets d at_start e) ne = ne
    Step-stays s t j inv held (try left d success at_try e) ne = ne
    Step-stays s t j inv held (give_turn net' o' at_end e) ne = ne
    Step-stays s t j inv held (swap at_swap) ne = ne

    -- On a bus that answers every exchange of process data, from a new out-of-band object with no
    -- thread in a call and in any interleaving: no frame of a thread is ever given to the network,
    -- and a thread that has called `txandrx_once` never comes back.
    pub no_call_returns :
        (d : Driver Net) (t u : Plant Net) (j : ℕ)
        → d.oob_com ≡ new_oob
        → Good d.net
        → Reach lib (at_rest d) t
        → t.pc j ≢ out
        → Reach lib t u
        → (u.sent ≡ none) × (u.pc j ≢ out)
    no_call_returns d t u j fresh good r ne here = ((Reach-Silent d t fresh good r).not_sent, ne)
    no_call_returns d t w j fresh good r ne (next {t = u} more m) =
        let to_u = Reach-trans lib (at_rest d) t u r more in
        let inv = Reach-Silent d u fresh good to_u in
        let held = Reach-Held lib d.net (around u) (reaches lib d u fresh to_u) in
        let (_, in_call) = no_call_returns d t u j fresh good r ne more in
        ((Step-Silent u w m inv).not_sent, Step-stays u w j inv held m in_call)
