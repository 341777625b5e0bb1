-- ===== src/Tests/Threads.antt =====
-- A run of `txandrx_once` on the frame 7 by the thread 3, and the theorems on it.
use pr2_ether_cat_no_ros.Base.{ℕ, ◌≡◌, ◌≢◌, refl, true, none, some}
use pr2_ether_cat_no_ros.Base.Int.{pos, negsuc}
use pr2_ether_cat_no_ros.Com.Oob.{
  idle, ready_to_send, waiting_to_recv, new_oob, lock, trylock, unlock, send_pending, complete, tx,
}
use pr2_ether_cat_no_ros.Com.Oob.Threads.{
  out, entering, looking, pending, woken, receiving, null_frame, crashed, System, at, start, Reach,
  here, next, thread, real_time, call, enter, publish, wake, go_on, leaving,
}
use pr2_ether_cat_no_ros.Com.Oob.Safety.{
  AllFrames, one_frame, no_assertion_fails, receipt, receives_own,
}
use pr2_ether_cat_no_ros.Tests.{loopback}

abbrev called : System ℕ
called = record (start 0) { pc = at (λ _. out) 3 (entering 7) }

abbrev entered : System ℕ
entered = record called {
  oob = record { owner = some 3; state = idle; frame = none; handle = negsuc 0; line = 150 };
  pc = at called.pc 3 (looking 7);
}

abbrev published : System ℕ
published = record entered {
  oob = record {
    owner = none;
    state = ready_to_send;
    frame = some 7;
    handle = negsuc 0;
    line = 150;
  };
  pc = at entered.pc 3 (pending 7);
}

abbrev sent : System ℕ
sent = record published {
  oob = record { owner = none; state = waiting_to_recv; frame = some 7; handle = pos 7; line = 0 };
  sent = some (7, pos 7);
}

abbrev awake : System ℕ
awake = record sent {
  oob = record {
    owner = some 3;
    state = waiting_to_recv;
    frame = some 7;
    handle = pos 7;
    line = 0;
  };
  pc = at sent.pc 3 (woken 7);
}

abbrev received : System ℕ
received = record awake { pc = at awake.pc 3 (receiving 7) }

to_published : Reach loopback (start 0) published
unfolding new_oob lock
to_published =
    next (next (next here (thread 3 (call 7))) (thread 3 (enter entered.oob refl)))
      (thread 3 (publish refl))

to_received : Reach loopback (start 0) received
unfolding tx trylock unlock send_pending
to_received =
    next (next (next to_published (real_time 0 0 sent.oob refl)) (thread 3 (wake refl)))
      (thread 3 (go_on refl))

published-AllFrames : AllFrames loopback to_published
unfolding to_published
published-AllFrames = (((tt, refl), refl), refl)

one_frame_example : (◌≡◌ {A = ℕ} 3 3) × (received.oob.frame ≡ some 7) × (received.oob.state ≢ idle)
one_frame_example = one_frame loopback 0 received 3 3 7 7 to_received refl refl

no_assertion_fails_example :
    (tx loopback 0 published.net published.oob ≢ none)
    × (published.pc 3 ≢ null_frame)
    × (published.pc 3 ≢ crashed)
no_assertion_fails_example =
    no_assertion_fails loopback 0 published 0 3 to_published published-AllFrames

receives_own_example :
    (received.sent ≡ some (7, pos 7))
    × (complete loopback 7 0 received.oob
        ≡ some (
          (receipt loopback 0 7 (pos 7)).0,
          record received.oob { handle = negsuc 0; state = idle },
          (receipt loopback 0 7 (pos 7)).1,
        ))
receives_own_example = receives_own loopback 0 received 3 7 to_received refl

-- The rest of the call, up to its last `unlock`.
abbrev served : System ℕ
served = record received {
  oob = record { owner = some 3; state = idle; frame = some 7; handle = negsuc 0; line = 0 };
  pc = at received.pc 3 (leaving true);
}

abbrev served_out : System ℕ
served_out = record served { oob = (unlock 3 served.oob).0; pc = at served.pc 3 out }
