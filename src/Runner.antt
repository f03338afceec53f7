-- ===== src/Runner.antt =====
-- vector_lake/runner_supervision.py: whether an ingest runner is kept, and the loop that keeps it.
pub mod Loop
pub mod Delays
pub mod Ladder
pub mod Children
pub mod Stopping
mod Examples
use vector_lake.Prelude.{
  text_eq, ℕ, zero, suc, ◌+◌, ◌-◌, ◌*◌, Bool, true, false, ◌&&◌, ◌||◌, not, Option, none, some,
  List, [], ◌∷◌, ◌++◌, ltb, leb, ◌==◌, if◌then◌else◌, min,
}

abbrev pub is_one_of : List (List ℕ) → List ℕ → Bool
is_one_of [] t = false
is_one_of (w ∷ ws) t = text_eq t w || is_one_of ws t

abbrev zero_text : List ℕ
zero_text = b'0' ∷ []

abbrev one_text : List ℕ
one_text = b'1' ∷ []

abbrev off_text : List ℕ
off_text = b'o' ∷ b'f' ∷ b'f' ∷ []

abbrev on_text : List ℕ
on_text = b'o' ∷ b'n' ∷ []

abbrev false_text : List ℕ
false_text = b'f' ∷ b'a' ∷ b'l' ∷ b's' ∷ b'e' ∷ []

abbrev true_text : List ℕ
true_text = b't' ∷ b'r' ∷ b'u' ∷ b'e' ∷ []

abbrev yes_text : List ℕ
yes_text = b'y' ∷ b'e' ∷ b's' ∷ []

-- The variables of the environment that the plan reads, `none` where one is not set.
pub record Env : Type 0 where
  pub runner_expected : Option (List ℕ)
  pub runner_autostart : Option (List ℕ)
  pub runner_shadow : Option (List ℕ)

pub data PlanReason : Type 0 where
  not_expected managed_by_hand script_missing supervision_enabled : PlanReason

pub record RunnerPlan : Type 0 where
  pub enabled : Bool
  pub reason : PlanReason
  pub shadow : Bool
  pub no_shadow_argument : Bool

abbrev pub disabled : PlanReason → RunnerPlan
disabled reason = record {
  enabled = false;
  reason = reason;
  shadow = false;
  no_shadow_argument = false;
}

abbrev pub or_text : List ℕ → Option (List ℕ) → List ℕ
or_text default none = default
or_text default (some t) = t

-- `strip` and `lower` are those of Python.
module _ (strip lower : List ℕ → List ℕ) where
  unfoldable pub truthy : Option (List ℕ) → Bool
  truthy value =
      is_one_of (one_text ∷ on_text ∷ true_text ∷ yes_text ∷ []) (lower (strip (or_text [] value)))

  unfoldable pub plan_runner_autostart : Env → Bool → RunnerPlan
  unfolding truthy
  plan_runner_autostart env script_is_file =
      if text_eq (strip (or_text one_text env.runner_expected)) zero_text
      then disabled not_expected
      else if is_one_of (zero_text ∷ off_text ∷ false_text ∷ [])
          (lower (strip (or_text one_text env.runner_autostart)))
      then disabled managed_by_hand
      else if not script_is_file
      then disabled script_missing
      else record {
        enabled = true;
        reason = supervision_enabled;
        shadow = truthy env.runner_shadow;
        no_shadow_argument = not (truthy env.runner_shadow);
      }

-- The lock is held by another supervisor: its directory is there, and it cannot be taken.
unfoldable pub supervisor_is_running : Bool → Bool → Bool
supervisor_is_running directory_made lock_taken = directory_made && not lock_taken

-- BACKOFF_SECONDS
abbrev pub backoff_seconds : ℕ → ℕ
backoff_seconds zero = 5
backoff_seconds (suc zero) = 15
backoff_seconds (suc (suc zero)) = 60
backoff_seconds (suc (suc (suc n))) = 300

-- BACKOFF_SECONDS[min(n, len(BACKOFF_SECONDS) - 1)]
unfoldable pub backoff : ℕ → ℕ
backoff n = backoff_seconds (min n 3)

abbrev pub healthy_run_seconds : ℕ
healthy_run_seconds = 900

abbrev pub fast_exit_seconds : ℕ
fast_exit_seconds = 10

abbrev pub fast_exit_poll_seconds : ℕ
fast_exit_poll_seconds = 60

-- What one round of the loop meets. The flags tell whether the stop event is set at the head of the
-- loop, when the child has ended, and before the wait at the end of the round is over; `beats` is how
-- often the wait for the child timed out, `elapsed` the life of the child in milliseconds.
pub record Round : Type 0 where
  pub stop_at_head : Bool
  pub supervisor_running : Bool
  pub selection_matches : Bool
  pub starts : Bool
  pub beats : ℕ
  pub wait_failed : Bool
  pub stop_in_run : Bool
  pub elapsed : ℕ
  pub stop_in_sleep : Bool

pub data ComponentState : Type 0 where
  idle processing error : ComponentState

-- What the loop does: a status line, a child started, its end (or the loss of its handle when the
-- wait for it failed), and a wait of so many seconds.
pub data Action : Type 0 where
  wrote : ComponentState → Action
  spawned ended lost : Action
  slept : ℕ → Action

abbrev pub heartbeats : ℕ → List Action
heartbeats zero = []
heartbeats (suc n) = wrote processing ∷ heartbeats n

-- `if _sleep(event, …): break`, and the restarts that the next round begins with.
abbrev pub unless_stopped : Bool → ℕ → Option ℕ
unless_stopped stop restarts = if stop then none else some restarts

-- After the child: a healthy run resets the ladder.
abbrev pub restarts_after : ℕ → ℕ → ℕ
restarts_after restarts elapsed =
    (if leb (healthy_run_seconds * 1000) elapsed then 0 else restarts) + 1

unfoldable pub after_child : ℕ → Round → List Action × Option ℕ
after_child restarts r =
    let restarts' = restarts_after restarts r.elapsed in
    if r.stop_in_run
    then ([], none)
    else if ltb r.elapsed (fast_exit_seconds * 1000)
    then (wrote idle ∷ slept fast_exit_poll_seconds ∷ [], unless_stopped r.stop_in_sleep restarts')
    else (
      wrote error ∷ slept (backoff (restarts' - 1)) ∷ [],
      unless_stopped r.stop_in_sleep restarts',
    )

-- One round: what it does, and the restarts that the next one begins with, `none` after a `break`.
unfoldable pub supervise_once : ℕ → Round → List Action × Option ℕ
supervise_once restarts r =
    if r.supervisor_running
    then (
      wrote (if r.selection_matches then processing else error) ∷ slept fast_exit_poll_seconds ∷ [],
      unless_stopped r.stop_in_sleep restarts,
    )
    else if not r.starts
    then (
      wrote error ∷ wrote error ∷ slept (backoff restarts) ∷ [],
      unless_stopped r.stop_in_sleep (restarts + 1),
    )
    else (
      (spawned ∷ wrote processing ∷ heartbeats r.beats)
          ++ ((if r.wait_failed then lost else ended) ∷ (after_child restarts r).0),
      (after_child restarts r).1,
    )

-- The loop over the rounds that it meets. It ends with the status that supervision stopped.
unfoldable pub supervise : ℕ → List Round → List Action
supervise restarts [] = []
supervise restarts (r ∷ rs) = elim r.stop_at_head [
  | true ↦ wrote idle ∷ []
  | false ↦ (supervise_once restarts r).0 ++ elim (supervise_once restarts r).1 [
    | none ↦ wrote idle ∷ []
    | some restarts' ↦ supervise restarts' rs
  ]
]

-- `runner_supervisor_loop`, for a plan that was made.
unfoldable pub runner_supervisor_loop : RunnerPlan → List Round → List Action
unfolding supervise
runner_supervisor_loop plan rounds = if plan.enabled then supervise 0 rounds else wrote idle ∷ []
