-- ===== src/Program.antt =====
-- `main` of test/main.cpp: the start, the threads until the operator ends them, and the close.
pub mod Operator
pub mod Ready
pub mod Events
pub mod Played
pub mod Whole
pub mod Bare
pub mod Threads
use pr2_ether_cat_no_ros.Base.{
  ℕ, zero, suc, Bool, true, false, Option, none, some, List, [], ◌∷◌, ◌++◌, ◌&&◌, if◌then◌else◌,
  ◌>>=◌,
}
use pr2_ether_cat_no_ros.Base.Int.{ℤ, pos}
use pr2_ether_cat_no_ros.Driver.Monitor.{Monitor, monitor_changes}
use pr2_ether_cat_no_ros.Eml.Library.{Library}
use pr2_ether_cat_no_ros.Driver.State.{Driver}
use pr2_ether_cat_no_ros.Driver.ProcessData.{update_racing}
use pr2_ether_cat_no_ros.Driver.Startup.{
  Answers, Outcome, then_run, or_fault, initialize_pr2_ethercat_slaves, close_operational_slaves,
}

-- The two variables of driver/wg05.h that `main` sets for the real-time thread.
pub record Panel {ℓ} (A : Type ℓ) : Type ℓ where
  pub current_amplitude : A
  pub current_disp : Bool

-- `scanf("%lf", &amplitude)`, whose result is not looked at: without a number the variable keeps
-- its value.
abbrev pub scanned {ℓ} : {A : Type ℓ} → Option A → A → A
scanned none amplitude = amplitude
scanned (some a) amplitude = a

-- The loop of `main` over the amplitudes, for at most that many rounds. `input i` is what the
-- `i`-th `scanf` finds, and `is_positive` is `amplitude > 0` on `double`.
module _ {ℓ} {A : Type ℓ} (is_positive : A → Bool) (input : ℕ → Option A) where
  unfoldable pub human_loop : ℕ → ℕ → A → Panel A → Option (Panel A)
  human_loop zero i amplitude s = none
  human_loop (suc fuel) i amplitude s =
      let a = scanned (input i) amplitude in
      let rest =
        human_loop fuel (suc i) a (record { current_amplitude = a; current_disp = true }) in
      if is_positive a then rest else some s

-- `ENCODER_THRESHOLD_MOVEMENT`
abbrev pub encoder_threshold_movement : ℤ
encoder_threshold_movement = pos 1

-- What the three threads do between the start and the close: a round of the real-time loop, with
-- the values of the sine and of `target_slave` that `packCommand` reads for each slave; a call of
-- `kul::monitorChanges`; and what `main` reads in between. Of an amplitude it is the result of the
-- test `amplitude > 0`: its value reaches the driver in the demands of the cycles behind it.
pub data Event : Type 0 where
  cycle : (demands targets : ℕ → ℕ) → Event
  checked : Event
  entered_target : (slave : ℕ) → Event
  entered_amplitude : (positive : Bool) → Event

-- `asking` is `human_loop`, and `printed` what the monitor has printed.
pub record Run (Net : Type 0) : Type 0 where
  pub driver : Driver Net
  pub monitor : Monitor
  pub asking : Bool
  pub printed : List (ℕ × ℤ)

-- After both calls of `pthread_create`.
abbrev pub begun : {Net : Type 0} → List ℕ → Driver Net → Run Net
begun backup d = record {
  driver = d;
  monitor = record { delta_init = false; backup = backup };
  asking = true;
  printed = [];
}

-- How far `main` has come.
pub data Ending (Net : Type 0) : Type 0 where
  came_back : Driver Net → Ending Net
  still_asking : Driver Net → Ending Net

module _ {Net : Type 0} (lib : Library Net) where
  -- Once the operator has ended the loop `main` reads nothing more, but a call that one of the other
  -- two threads is in still comes to its end.
  unfoldable pub happen : Event → Run Net → Option (Run Net)
  happen (cycle demands targets) s = do
    d ← update_racing lib demands targets (s.driver)
    some (record s { driver = d })
  happen checked s = do
    r ← monitor_changes encoder_threshold_movement (s.driver) (s.monitor)
    some (record s { monitor = r.1; printed = s.printed ++ r.0 })
  happen (entered_target slave) s =
      if s.asking
      then some (record s { driver = record (s.driver) { target_slave = slave } })
      else some s
  happen (entered_amplitude positive) s = some (record s { asking = s.asking && positive })

  unfoldable pub session : List Event → Run Net → Option (Run Net)
  session [] s = some s
  session (e ∷ es) s = do t ← happen e s; session es t

  -- What follows the events: nothing while the operator is asked, and else, with both threads at
  -- their end, the close, whose result is not looked at.
  unfoldable pub end_main : Bool → Driver Net → Option (Ending Net)
  end_main true d = some (still_asking d)
  end_main false d = do r ← close_operational_slaves lib d; some (came_back (r.0))

  -- `main`, with the three threads taking turns at their calls.
  unfoldable pub main_program : Answers → List ℕ → List Event → Driver Net → Outcome (Ending Net)
  main_program a backup es d =
      then_run (initialize_pr2_ethercat_slaves lib a d)
        (λ d1. or_fault (do s ← session es (begun backup d1); end_main (s.asking) (s.driver)))
