-- ===== src/Runner/Examples.antt =====
-- vector_lake/runner_supervision.py: the theorems on the loop, applied to a few rounds.
use vector_lake.Prelude.{
  ◌+◌, ◌*◌, ◌≤◌, ◌≡◌, true, false, none, some, [], ◌∷◌, ◌++◌, All, arith, refl, inr,
}
use vector_lake.Runner.{
  RunnerPlan, plan_runner_autostart, supervision_enabled, Round, wrote, spawned, ended, slept, idle,
  processing, error, backoff, after_child, supervise_once, supervise, runner_supervisor_loop,
}
use vector_lake.Runner.Delays.{IsBoundedWait, spawns, total_sleep, runner_supervisor_loop-IsPaced}
use vector_lake.Runner.Ladder.{delays, ladder, IsCrash, supervise-ladder}
use vector_lake.Runner.Children.{handle, free_rounds, runner_supervisor_loop-handle}
use vector_lake.Runner.Stopping.{EndsIdle, runner_supervisor_loop-Stops}

abbrev resident : RunnerPlan
resident = record {
  enabled = true;
  reason = supervision_enabled;
  shadow = false;
  no_shadow_argument = true;
}

-- With nothing set, a runner is kept, and it writes.
default_plan :
    plan_runner_autostart
      (λ t. t)
      (λ t. t)
      (record { runner_expected = none; runner_autostart = none; runner_shadow = none })
      true
    ≡ resident
unfolding plan_runner_autostart
default_plan = refl

abbrev crash : Round
crash = record {
  stop_at_head = false;
  supervisor_running = false;
  selection_matches = true;
  starts = true;
  beats = 2;
  wait_failed = false;
  stop_in_run = false;
  elapsed = 130000;
  stop_in_sleep = false;
}

abbrev adopted : Round
adopted = record crash { supervisor_running = true }

abbrev stopped : Round
stopped = record crash { starts = false; stop_in_sleep = true }

runner_supervisor_loop-IsPaced_example :
    All IsBoundedWait (runner_supervisor_loop resident (crash ∷ adopted ∷ crash ∷ stopped ∷ []))
    × (5 * spawns (runner_supervisor_loop resident (crash ∷ adopted ∷ crash ∷ stopped ∷ []))
        ≤ total_sleep (runner_supervisor_loop resident (crash ∷ adopted ∷ crash ∷ stopped ∷ []))
          + 5)
runner_supervisor_loop-IsPaced_example =
    runner_supervisor_loop-IsPaced resident (crash ∷ adopted ∷ crash ∷ stopped ∷ [])

-- Two supervisors are started, and a third fails to start.
two_starts :
    runner_supervisor_loop resident (crash ∷ crash ∷ stopped ∷ [])
    ≡ spawned
      ∷ wrote processing
      ∷ wrote processing
      ∷ wrote processing
      ∷ ended
      ∷ wrote error
      ∷ slept 5
      ∷ spawned
      ∷ wrote processing
      ∷ wrote processing
      ∷ wrote processing
      ∷ ended
      ∷ wrote error
      ∷ slept 15
      ∷ wrote error
      ∷ wrote error
      ∷ slept 60
      ∷ wrote idle
      ∷ []
unfolding runner_supervisor_loop supervise_once after_child backoff
two_starts = refl

runner_supervisor_loop-handle_example :
    (handle false (runner_supervisor_loop resident (crash ∷ adopted ∷ [])) ≡ some false)
    × (spawns (runner_supervisor_loop resident (crash ∷ adopted ∷ []))
        ≤ free_rounds (crash ∷ adopted ∷ []))
runner_supervisor_loop-handle_example =
    runner_supervisor_loop-handle resident (crash ∷ adopted ∷ [])

runner_supervisor_loop-Stops_example :
    (runner_supervisor_loop resident ((crash ∷ []) ++ (stopped ∷ crash ∷ []))
      ≡ runner_supervisor_loop resident ((crash ∷ []) ++ (stopped ∷ [])))
    × EndsIdle (runner_supervisor_loop resident ((crash ∷ []) ++ (stopped ∷ [])))
runner_supervisor_loop-Stops_example =
    runner_supervisor_loop-Stops resident (crash ∷ []) stopped (crash ∷ []) (inr refl)

crash-IsCrash : IsCrash crash
crash-IsCrash = record {
  on = refl;
  free = refl;
  starts = refl;
  unstopped = refl;
  lasting = omega arith;
  brief = omega arith;
  unstopped_sleep = refl;
}

supervise-ladder_example : delays (supervise 1 (crash ∷ crash ∷ [])) ≡ ladder 1 (crash ∷ crash ∷ [])
supervise-ladder_example =
    supervise-ladder 1 (crash ∷ crash ∷ []) (crash-IsCrash, (crash-IsCrash, tt))
