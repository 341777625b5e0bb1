-- ===== src/Com/Oob/Safety.antt =====
-- What `txandrx_once` and `tx` promise to the threads that share an `EthercatOobCom`.
use pr2_ether_cat_no_ros.Base.{
  ℕ, ◌≡◌, ◌≢◌, refl, Bool, true, false, none, some, if◌then◌else◌, arith, ap, sym, ◌∙◌, subst,
  Bool-cases, inl, inr, ◌==◌,
}
use pr2_ether_cat_no_ros.Base.Int.{ℤ, negsuc}
use pr2_ether_cat_no_ros.Eml.Library.{Library}
use pr2_ether_cat_no_ros.Com.Oob.{
  Oob, idle, ready_to_send, waiting_to_recv, trylock, unlock, is_handle, send_pending, complete, tx,
}
use pr2_ether_cat_no_ros.Com.Oob.Tx.{tx_total, tx-ne-none}
use pr2_ether_cat_no_ros.Com.Oob.Threads.{
  Pc, out, pending, woken, receiving, leaving, null_frame, crashed, taken, Move, call, call_null,
  enter, refused, share, share_again, publish, wait_again, fail, process_data, wake, go_on, receive,
  leave, System, at, noted, Step, thread, real_time, start, Reach, here, next,
}
use pr2_ether_cat_no_ros.Com.Oob.Effect.{active, holds}
use pr2_ether_cat_no_ros.Com.Oob.Invariant.{Reach-Inv}

module _ {Net : Type 0} (lib : Library Net) where
  -- In every state that the threads reach, in any interleaving, at most one thread has a frame that
  -- it has handed over and not received, and that is the frame in `frame_`; `state_` is then not
  -- `IDLE`.
  pub one_frame :
      (net : Net) (s : System Net) (j k f g : ℕ)
      → Reach lib (start net) s
      → active (s.pc j) ≡ some f
      → active (s.pc k) ≡ some g
      → (j ≡ k) × (s.oob.frame ≡ some f) × (s.oob.state ≢ idle)
  one_frame net s j k f g r a b =
      let inv = Reach-Inv lib net s r in
      let (c, d) = inv.frame_is j f a in (inv.unique j k f g a b, c, d)

  -- No two threads hold the lock.
  pub one_holder :
      (net : Net) (s : System Net) (j k : ℕ)
      → Reach lib (start net) s
      → holds (s.pc j) ≡ true
      → holds (s.pc k) ≡ true
      → j ≡ k
  one_holder net s j k r a b =
      let inv = Reach-Inv lib net s r in ground (arith, inv.owner_is j a, inv.owner_is k b)

  -- Whether a call passes a frame, and no `NULL`.
  abbrev pub passes_frame :
      {i : ℕ} {net net' : Net} {o o' : Oob} {p p' : Pc} → Move lib i net o p net' o' p' → Bool
  passes_frame call_null = false
  passes_frame _ = true

  abbrev pub gives_frame : {s t : System Net} → Step lib s t → Bool
  gives_frame (thread i m) = passes_frame m
  gives_frame _ = true

  -- All calls on the way have done so.
  abbrev pub AllFrames : {s t : System Net} → Reach lib s t → Type 0
  AllFrames here = Unit
  AllFrames (next r m) = AllFrames r × (gives_frame m ≡ true)

  Move-null :
      {i : ℕ} {net net' : Net} {o o' : Oob} {p p' : Pc} (m : Move lib i net o p net' o' p')
      → passes_frame m ≡ true
      → p' ≢ null_frame
  Move-null call_null h = cc
  Move-null (call f) h = λ e. cc
  Move-null (enter o' l) h = λ e. cc
  Move-null (refused o' l) h = λ e. cc
  Move-null (share ne) h = λ e. cc
  Move-null (share_again l) h = λ e. cc
  Move-null (publish l) h = λ e. cc
  Move-null (wake l) h = λ e. cc
  Move-null (wait_again ne) h = λ e. cc
  Move-null (go_on l) h = λ e. cc
  Move-null (receive n o' b l) h = λ e. cc
  Move-null (fail l) h = λ e. cc
  Move-null leave h = λ e. cc

  null_frame-Reach :
      (net : Net) (s : System Net) (j : ℕ) (r : Reach lib (start net) s)
      → AllFrames r
      → s.pc j ≢ null_frame
  null_frame-Reach net s j here h e = cc
  null_frame-Reach net s j (next {t} r (thread i {p = p'} m)) (h, given) e =
      elim (Bool-cases (i == j)) [
        | inl same ↦ Move-null m given (ground (arith, e))
        | inr other ↦ null_frame-Reach net t j r h (ground (arith, e))
      ]
  null_frame-Reach net s j (next {t} r (real_time me net' o' l)) (h, given) e =
      null_frame-Reach net t j r h e
  null_frame-Reach net s j (next {t} r (process_data frame)) (h, given) e =
      null_frame-Reach net t j r h e

  -- When no call of `txandrx_once` has passed `NULL`, then in every state that the threads reach, in
  -- any interleaving, the next `tx` does not fail `assert(frame_!=NULL)`, and no thread has failed
  -- `assert(frame != NULL)` or `assert(frame_ == frame)`.
  pub no_assertion_fails :
      (net : Net) (s : System Net) (me j : ℕ) (r : Reach lib (start net) s)
      → AllFrames r
      → (tx lib me s.net s.oob ≢ none) × (s.pc j ≢ null_frame) × (s.pc j ≢ crashed)
  no_assertion_fails net s me j r given =
      let inv = Reach-Inv lib net s r in
      (tx-ne-none lib me s.net s.oob inv.sound, null_frame-Reach net s j r given, inv.fine j)

  -- What `rx` gives for the frame and the handle of the last `ni_->tx`.
  abbrev pub receipt : Net → ℕ → ℤ → Net × Bool
  receipt net f h = if is_handle h then lib.netif_rx net f h else (net, false)

  pub complete-receipt :
      (net : Net) (o : Oob) (f : ℕ)
      → o.frame ≡ some f
      → complete lib f net o
        ≡ some (
          (receipt net f o.handle).0,
          record o { handle = negsuc 0; state = idle },
          (receipt net f o.handle).1,
        )
  unfolding complete
  complete-receipt net o f e = ground arith

  -- In every reachable state in which a thread is about to receive, the last `ni_->tx` was that of
  -- its own frame and gave the handle in `handle_`; the thread then calls `rx` with both, unless
  -- the handle is negative, returns the answer, and sets the object back to `IDLE`.
  pub receives_own :
      (net : Net) (s : System Net) (j f : ℕ)
      → Reach lib (start net) s
      → s.pc j ≡ receiving f
      → (s.sent ≡ some (f, s.oob.handle))
        × (complete lib f s.net s.oob
            ≡ some (
              (receipt s.net f s.oob.handle).0,
              record s.oob { handle = negsuc 0; state = idle },
              (receipt s.net f s.oob.handle).1,
            ))
  receives_own net s j f r e =
      let inv = Reach-Inv lib net s r in
      let framed : s.oob.frame ≡ some f = (inv.frame_is j f (ap active e)).0 in
      (inv.sent_is f (inv.recv j f e) framed, complete-receipt s.net s.oob f framed)

  at-same : (pc : ℕ → Pc) (j : ℕ) (p : Pc) → at pc j p j ≡ p
  at-same pc j p = ground arith

  pub advance :
      (s : System Net) (i : ℕ) (p p' : Pc) (net' : Net) (o' : Oob)
      → s.pc i ≡ p
      → Move lib i s.net s.oob p net' o' p'
      → Step lib s (record { net = net'; oob = o'; pc = at s.pc i p'; sent = s.sent })
  advance s i p p' net' o' e m =
      thread i (subst (λ q. Move lib i s.net s.oob q net' o' p') (sym e) m)

  -- The frame of the thread `j` has been answered, and the message and the lock are free again.
  abbrev pub Answered : System Net → ℕ → Type 0
  Answered s j =
      (t : System Net) × Reach lib s t
      × (t.oob.state ≡ idle)
      × (t.oob.owner ≡ none)
      × (t.pc j ≡ out)

  unlock-owner : (j : ℕ) (o : Oob) → o.owner ≡ some j → (unlock j o).0.owner ≡ none
  unfolding unlock
  unlock-owner j o e = ground arith

  unlock-state : (j : ℕ) (o : Oob) → (unlock j o).0.state ≡ o.state
  unfolding unlock
  unlock-state j o = ground arith

  last_steps :
      (s t : System Net) (j f : ℕ)
      → Reach lib s t
      → t.pc j ≡ pending f
      → t.oob.owner ≡ none
      → t.oob.state ≡ waiting_to_recv
      → t.oob.frame ≡ some f
      → Answered s j
  last_steps s t j f r e free w framed =
      let o = taken j (t.oob) in
      let a : System Net = record {
        net = t.net;
        oob = o;
        pc = at t.pc j (woken f);
        sent = t.sent;
      } in
      let b : System Net = record a { pc = at a.pc j (receiving f) } in
      let got = receipt t.net f (o.handle) in
      let o' : Oob = record o { handle = negsuc 0; state = idle } in
      let c : System Net = record b { net = got.0; oob = o'; pc = at b.pc j (leaving (got.1)) } in
      let d : System Net = record c { oob = (unlock j o').0; pc = at c.pc j out } in
      (
        d,
        next
            (next
              (next (next r (advance t j (pending f) (woken f) t.net o e (wake free)))
                (advance a j (woken f) (receiving f) a.net o (at-same t.pc j _) (go_on w)))
              (advance b j (receiving f) (leaving (got.1)) (got.0) o' (at-same a.pc j _)
                (receive (got.0) o' (got.1) (complete-receipt t.net o f framed))))
            (advance c j (leaving (got.1)) out c.net d.oob (at-same b.pc j _) leave),
        unlock-state j o',
        unlock-owner j o' refl,
        at-same c.pc j out,
      )

  tx-sent :
      (me : ℕ) (net net' : Net) (o o' : Oob)
      → o.owner ≡ none
      → o.state ≡ ready_to_send
      → tx lib me net o ≡ some (net', o')
      → (o'.owner ≡ none) × (o'.state ≡ waiting_to_recv) × (o'.frame ≡ o.frame)
  unfolding tx trylock unlock send_pending
  tx-sent me net net' o o' e r h = (ground arith, ground arith, ground arith)

  -- From every reachable state in which a thread waits for the answer of its frame and the lock is
  -- free, there are steps to one in which it has returned, the object is `IDLE` and the lock free.
  pub pending-Answered :
      (net : Net) (s : System Net) (me j f : ℕ)
      → Reach lib (start net) s
      → s.pc j ≡ pending f
      → s.oob.owner ≡ none
      → Answered s j
  pending-Answered net s me j f r e free =
      let inv = Reach-Inv lib net s r in
      let (framed, busy) = inv.frame_is j f (ap active e) in
      elim (s.oob.state) as (λ x. s.oob.state ≡ x → Answered s j) [
        | idle ↦ λ h. absurd (busy h)
        | ready_to_send ↦ λ h.
            let ((net', o'), sent, ok) = tx_total lib me s.net s.oob inv.sound in
            let (a, b, c) = tx-sent me s.net net' s.oob o' free h sent in
            last_steps s (record s { net = net'; oob = o'; sent = noted lib s.net s.oob s.sent }) j
              f (next here (real_time me net' o' sent)) e a b (c ∙ framed)
        | waiting_to_recv ↦ λ h. last_steps s s j f here e free h framed
      ]
        refl
