-- ===== src/Timer/Tests.antt =====
-- Runs of timer.c at concrete lists, and the theorems there.
use pcboot.Prelude.{◌≡◌, refl, true, false, List, [], ◌∷◌, none, some, arith}
use pcboot.Timer.{Timer, init_timer, set_alarm, cancel_alarm, timer_handler, run}
use pcboot.Timer.Queue
use pcboot.Timer.Queue.{Op, alarm, cancel_of, tick, expired, elapse}
use pcboot.Timer.Refine.{alarms, IsPending, in_ticks, run_refines}
use pcboot.Timer.Bounds.{ticks, ticks-expired}

-- Alarm 7 in two ticks, alarm 8 in two, alarm 9 in five.
abbrev three_alarms : Timer
three_alarms = record {
  nticks = 41;
  evlist =
      record { dt = 2; func = 7 } ∷ record { dt = 0; func = 8 } ∷ record { dt = 3; func = 9 } ∷ [];
  enabled = true;
}

reload_count : init_timer ≡ (0x36, 0x43) ∷ (0xa5, 0x40) ∷ (0x12, 0x40) ∷ []
unfolding init_timer
reload_count = refl

three_alarms_due : alarms three_alarms ≡ (2, 7) ∷ (2, 8) ∷ (5, 9) ∷ []
three_alarms_due = refl

-- 16 milliseconds are four ticks.
abbrev script : List Op
script = tick ∷ alarm 16 3 ∷ tick ∷ cancel_of 9 ∷ tick ∷ tick ∷ tick ∷ []

script_runs : run three_alarms script ≡ [] ∷ [] ∷ (7 ∷ 8 ∷ []) ∷ [] ∷ [] ∷ [] ∷ (3 ∷ []) ∷ []
unfolding run set_alarm cancel_alarm timer_handler
script_runs = refl

no_node : set_alarm false 16 3 three_alarms ≡ none
unfolding set_alarm
no_node = refl

run_refines_example : run three_alarms script ≡ Queue.run (alarms three_alarms) (in_ticks script)
run_refines_example = run_refines script three_alarms (omega arith)

ticks-expired_example :
    ((ticks 4 three_alarms).0 ≡ expired 4 (alarms three_alarms))
    × (alarms (ticks 4 three_alarms).1 ≡ elapse 4 (alarms three_alarms))
    × IsPending (ticks 4 three_alarms).1
ticks-expired_example = ticks-expired 4 three_alarms (omega arith)

abbrev with_fourth : Timer
with_fourth = record {
  nticks = 41;
  evlist =
      record { dt = 2; func = 7 }
      ∷ record { dt = 0; func = 8 }
      ∷ record { dt = 2; func = 3 }
      ∷ record { dt = 1; func = 9 }
      ∷ [];
  enabled = true;
}

sets_fourth : set_alarm true 16 3 three_alarms ≡ some with_fourth
unfolding set_alarm
sets_fourth = refl
