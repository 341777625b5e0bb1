-- ===== src/Com/Oob/Threads.antt =====
-- The threads round an `EthercatOobCom`: any number of them in `txandrx_once`, and the real-time
-- loop in `tx` and in the exchanges of its process data, interleaved in any order.
use pr2_ether_cat_no_ros.Base.{
  ℕ, ◌≡◌, ◌≢◌, Bool, true, false, Option, none, some, ◌==◌, if◌then◌else◌, List,
}
use pr2_ether_cat_no_ros.Base.Int.{ℤ}
use pr2_ether_cat_no_ros.Eml.Library.{Library}
use pr2_ether_cat_no_ros.Com.Oob.{
  Oob, idle, ready_to_send, waiting_to_recv, new_oob, lock, unlock, is_ready, complete, tx,
}

-- Where a thread stands in `txandrx_once(frame)`.
pub data Pc : Type 0 where
  out : Pc  -- not in the function
  entering : (frame : ℕ) → Pc  -- before `lock`
  looking : (frame : ℕ) → Pc  -- at the test of the first `while`, with the lock
  sharing : (frame : ℕ) → Pc  -- in `pthread_cond_wait(&share_cond_, …)`
  pending : (frame : ℕ) → Pc  -- in `pthread_cond_wait(&busy_cond_, …)`
  woken : (frame : ℕ) → Pc  -- at the test of the second loop, with the lock
  receiving : (frame : ℕ) → Pc  -- after the second loop, with the lock
  leaving : (success : Bool) → Pc  -- before the last `unlock`
  null_frame : Pc  -- `assert(frame != NULL)` has failed
  crashed : Pc  -- `assert(frame_ == frame)` has failed

-- `owner` given up, as a wait does, and taken, as its return does.
abbrev pub released : Oob → Oob
released o = record o { owner = none }

abbrev pub taken : ℕ → Oob → Oob
taken i o = record o { owner = some i }

-- The threads, with the thread `i` at `p`.
abbrev pub at : (ℕ → Pc) → ℕ → Pc → ℕ → Pc
at pc i p j = if i == j then p else pc j

-- `sent` is no variable of the program: the frame and the handle of the last `ni_->tx`.
pub record System (Net : Type 0) : Type 0 where
  pub net : Net
  pub oob : Oob
  pub pc : ℕ → Pc
  pub sent : Option (ℕ × ℤ)

abbrev pub start : {Net : Type 0} → Net → System Net
start net = record { net = net; oob = new_oob; pc = λ _. out; sent = none }

module _ {Net : Type 0} (lib : Library Net) where
  -- `sent` after a call of `tx`: with the lock free and a frame that waits, it is that frame with
  -- the library's handle for it.
  abbrev pub noted : Net → Oob → Option (ℕ × ℤ) → Option (ℕ × ℤ)
  noted net before sent =
      if is_ready (before.state)
      then elim (before.owner) [
        | none ↦ elim (before.frame) [ none ↦ sent | some f ↦ some (f, (lib.netif_tx net f).1) ]
        | some other ↦ sent
      ]
      else sent

  -- One step of the thread `i`. A call passes a frame or `NULL`; a failed `assert` ends the program,
  -- so that the steps of the other threads behind it are more than there are. A wait may end at any time at which the lock is free, as POSIX
  -- allows, so what the signals add is only that it ends. 150 is the line of the `lock`.
  pub data Move (i : ℕ) (net : Net) (o : Oob) : Pc → Net → Oob → Pc → Type 0 where
    call : (f : ℕ) → Move i net o out net o (entering f)
    call_null : Move i net o out net o null_frame
    enter :
        {f : ℕ} (o' : Oob)
        → lock i 150 o ≡ some (o', true)
        → Move i net o (entering f) net o' (looking f)
    refused :
        {f : ℕ} (o' : Oob) → lock i 150 o ≡ some (o', false) → Move i net o (entering f) net o' out
    share : {f : ℕ} → o.state ≢ idle → Move i net o (looking f) net (released o) (sharing f)
    share_again : {f : ℕ} → o.owner ≡ none → Move i net o (sharing f) net (taken i o) (looking f)
    publish :
        {f : ℕ}
        → o.state ≡ idle
        → Move i net o
            (looking f)
            net
            (record o { owner = none; state = ready_to_send; frame = some f })
            (pending f)
    wake : {f : ℕ} → o.owner ≡ none → Move i net o (pending f) net (taken i o) (woken f)
    wait_again :
        {f : ℕ} → o.state ≢ waiting_to_recv → Move i net o (woken f) net (released o) (pending f)
    go_on : {f : ℕ} → o.state ≡ waiting_to_recv → Move i net o (woken f) net o (receiving f)
    receive :
        {f : ℕ} (net' : Net) (o' : Oob) (success : Bool)
        → complete lib f net o ≡ some (net', o', success)
        → Move i net o (receiving f) net' o' (leaving success)
    fail : {f : ℕ} → complete lib f net o ≡ none → Move i net o (receiving f) net o crashed
    leave : {success : Bool} → Move i net o (leaving success) net (unlock i o).0 out

  pub data Step (s : System Net) : System Net → Type 0 where
    thread :
        (i : ℕ) {net' : Net} {o' : Oob} {p : Pc}
        → Move i s.net s.oob (s.pc i) net' o' p
        → Step s (record { net = net'; oob = o'; pc = at s.pc i p; sent = s.sent })
    real_time :
        (me : ℕ) (net' : Net) (o' : Oob)
        → tx lib me s.net s.oob ≡ some (net', o')
        → Step s (record { net = net'; oob = o'; pc = s.pc; sent = noted s.net s.oob s.sent })
    process_data : (frame : List ℕ) → Step s (record s { net = (lib.txandrx_pd s.net frame).0 })

  pub data Reach (s : System Net) : System Net → Type 0 where
    here : Reach s s
    next : {t u : System Net} → Reach s t → Step t u → Reach s u
