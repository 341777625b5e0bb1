-- ===== src/Tests/Clients.antt =====
-- The thread 3 in `txandrx_once` with the frame 7, beside the cycles of a bus that works and of one
-- that does not.
use pr2_ether_cat_no_ros.Base.{ℕ, ◌≡◌, ◌≢◌, refl, none, some, ◌+◌, arith}
use pr2_ether_cat_no_ros.Base.Int.{negsuc}
use pr2_ether_cat_no_ros.Eml.Library.{Library, IsDocumented}
use pr2_ether_cat_no_ros.Com.Oob.{Oob, idle, ready_to_send, new_oob, lock}
use pr2_ether_cat_no_ros.Com.Oob.Threads.{out, entering, looking, pending, at, call, enter, publish}
use pr2_ether_cat_no_ros.Com.Oob.Channel.{Channel, Run, Represents}
use pr2_ether_cat_no_ros.Driver.State.{Driver}
use pr2_ether_cat_no_ros.Driver.ProcessData.{update}
use pr2_ether_cat_no_ros.Driver.ProcessData.Ready.{IsReady}
use pr2_ether_cat_no_ros.Driver.ProcessData.Replies.{first_reply}
use pr2_ether_cat_no_ros.Driver.ProcessData.Update.{update_total}
use pr2_ether_cat_no_ros.Driver.Clients.{Plant, at_rest, with_network, client, Reach, here, next}
use pr2_ether_cat_no_ros.Driver.Clients.Whole.{clients-Run}
use pr2_ether_cat_no_ros.Driver.Clients.Pending.{tries_of}
use pr2_ether_cat_no_ros.Driver.Clients.Answer.{Returned, silence_answers}
use pr2_ether_cat_no_ros.Driver.Clients.Silence.{Works, no_call_returns}
use pr2_ether_cat_no_ros.Tests.{loopback, loopback-IsDocumented, ready_driver, ready_driver-IsReady}

-- A bus that never answers an exchange of process data.
abbrev dead : Library ℕ
dead = record loopback { txandrx_pd = λ net sent. (net + 1, none) }

dead-IsDocumented : IsDocumented dead
dead-IsDocumented = record {
  fmmu_fields = loopback-IsDocumented.fmmu_fields;
  fmmu_room = loopback-IsDocumented.fmmu_room;
  sync_man_room = loopback-IsDocumented.sync_man_room;
  sync_man_start = loopback-IsDocumented.sync_man_start;
  sync_man_length = loopback-IsDocumented.sync_man_length;
  sync_man_buffer_type = loopback-IsDocumented.sync_man_buffer_type;
  sync_man_direction = loopback-IsDocumented.sync_man_direction;
  received_length = λ net sent got e. cc;
  received_bytes = λ net sent got e. cc;
}

abbrev locked_oob : Oob
locked_oob = record { owner = some 3; state = idle; frame = none; handle = negsuc 0; line = 150 }

abbrev waiting_oob : Oob
waiting_oob = record {
  owner = none;
  state = ready_to_send;
  frame = some 7;
  handle = negsuc 0;
  line = 150;
}

abbrev waiting_driver : Driver ℕ
waiting_driver = with_network ready_driver 0 waiting_oob

abbrev called : Plant ℕ
called = record (at_rest ready_driver) { pc = at (λ _. out) 3 (entering 7) }

abbrev entered : Plant ℕ
entered = record called {
  driver = with_network ready_driver 0 locked_oob;
  pc = at called.pc 3 (looking 7);
}

abbrev waiting : Plant ℕ
waiting = record entered { driver = waiting_driver; pc = at entered.pc 3 (pending 7) }

to_waiting : (lib : Library ℕ) → Reach lib (at_rest ready_driver) waiting
unfolding lock
to_waiting lib =
    next (next (next here (client 3 (call 7))) (client 3 (enter locked_oob refl)))
      (client 3 (publish refl))

waiting_driver-IsReady : IsReady waiting_driver
waiting_driver-IsReady = record {
  framed = record { sized = refl; bytes = ready_driver-IsReady.bytes; oob_sound = λ e h. cc };
  frame_size = refl;
  few = omega arith;
  halves = ready_driver-IsReady.halves;
}

fresh : ready_driver.oob_com ≡ new_oob
unfolding new_oob
fresh = refl

loopback-Works : Works loopback (λ _. Unit)
loopback-Works = record { answers = λ net frame good. (_, refl); stays = λ net frame good. tt }

clients-Run_example :
    (c : Channel) × Run loopback 0 waiting.driver.net c
    × Represents waiting.driver.oob_com waiting.pc c
clients-Run_example = clients-Run loopback ready_driver waiting fresh (to_waiting loopback)

no_call_returns_example : (waiting.sent ≡ none) × (waiting.pc 3 ≢ out)
no_call_returns_example =
    no_call_returns loopback (λ _. Unit) loopback-Works ready_driver waiting waiting 3 fresh tt
      (to_waiting loopback) (λ e. cc) here

abbrev after_dead : Driver ℕ
after_dead = (update_total dead dead-IsDocumented 10 waiting_driver waiting_driver-IsReady).0

after_dead-update : update dead 10 waiting_driver ≡ some after_dead
after_dead-update = (update_total dead dead-IsDocumented 10 waiting_driver waiting_driver-IsReady).1

no_answer : (tries_of dead 10 waiting_driver).1 ≡ none
unfolding first_reply
no_answer = refl

silence_answers_example : Returned dead waiting 3
silence_answers_example =
    silence_answers dead dead-IsDocumented ready_driver after_dead waiting 10 3 7 fresh
      (to_waiting dead) waiting_driver-IsReady (omega arith) refl refl refl after_dead-update
      no_answer
