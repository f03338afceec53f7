-- ===== src/Runner/Children.antt =====
-- vector_lake/runner_supervision.py, `runner_supervisor_loop`: the child that it holds.
use vector_lake.Prelude.{
  ℕ, zero, suc, ◌+◌, ◌*◌, ◌≤◌, ◌≡◌, Bool, true, false, Option, none, some, List, [], ◌∷◌, ◌++◌,
  arith, if◌then◌else◌, Bool-cases, inl, inr, refl, ◌∙◌, ltb,
}
use vector_lake.Runner.Loop.{
  at_head, breaks, goes_on, way, supervise-head, supervise-break, supervise-next,
}
use vector_lake.Runner.{
  Round, Action, wrote, spawned, ended, lost, slept, idle, heartbeats, after_child, supervise_once,
  supervise, RunnerPlan, runner_supervisor_loop, fast_exit_seconds,
}
use vector_lake.Runner.Delays.{spawns, spawns-append, supervise_once-IsPaced}

-- The child handle over a run of actions: `none` where a child would be started over another one, or
-- an end reported with no child.
abbrev pub handle : Bool → List Action → Option Bool
handle owned [] = some owned
handle true (spawned ∷ as') = none
handle false (spawned ∷ as') = handle true as'
handle true (ended ∷ as') = handle false as'
handle false (ended ∷ as') = none
handle true (lost ∷ as') = handle false as'
handle false (lost ∷ as') = none
handle owned (wrote c ∷ as') = handle owned as'
handle owned (slept n ∷ as') = handle owned as'

handle-append :
    (owned next : Bool) (as' bs : List Action)
    → handle owned as' ≡ some next
    → handle owned (as' ++ bs) ≡ handle next bs
handle-append owned next [] bs e = ground arith
handle-append true next (spawned ∷ as') bs e = cc
handle-append false next (spawned ∷ as') bs e = handle-append true next as' bs e
handle-append true next (ended ∷ as') bs e = handle-append false next as' bs e
handle-append false next (ended ∷ as') bs e = cc
handle-append true next (lost ∷ as') bs e = handle-append false next as' bs e
handle-append false next (lost ∷ as') bs e = cc
handle-append true next (wrote c ∷ as') bs e = handle-append true next as' bs e
handle-append false next (wrote c ∷ as') bs e = handle-append false next as' bs e
handle-append true next (slept n ∷ as') bs e = handle-append true next as' bs e
handle-append false next (slept n ∷ as') bs e = handle-append false next as' bs e

heartbeats-handle : (n : ℕ) → handle true (heartbeats n) ≡ some true
heartbeats-handle zero = refl
heartbeats-handle (suc n) = heartbeats-handle n

after_child-handle : (n : ℕ) (r : Round) → handle false (after_child n r).0 ≡ some false
unfolding after_child
after_child-handle n r = elim (Bool-cases r.stop_in_run) [
  | inl stop ↦ simp stop
  | inr on ↦ elim (Bool-cases (ltb r.elapsed (fast_exit_seconds * 1000))) [
    | inl fast ↦ simp (on, fast)
    | inr slow ↦ simp (on, slow)
  ]
]

ended_or_lost-handle :
    (failed : Bool) (as' : List Action)
    → handle true ((if failed then lost else ended) ∷ as') ≡ handle false as'
ended_or_lost-handle true as' = refl
ended_or_lost-handle false as' = refl

supervise_once-handle : (n : ℕ) (r : Round) → handle false (supervise_once n r).0 ≡ some false
unfolding supervise_once
supervise_once-handle n r = elim (Bool-cases r.supervisor_running) [
  | inl adopted ↦ simp adopted
  | inr free ↦ elim (Bool-cases r.starts) [
    | inr failed ↦ simp (free, failed)
    | inl started ↦
        let rest = (if r.wait_failed then lost else ended) ∷ (after_child n r).0 in
        simp (free, started)
          (handle-append true true (heartbeats r.beats) rest (heartbeats-handle r.beats)
            ∙ ended_or_lost-handle r.wait_failed (after_child n r).0
            ∙ after_child-handle n r)
  ]
]

supervise-handle : (n : ℕ) (rounds : List Round) → handle false (supervise n rounds) ≡ some false
unfolding supervise
supervise-handle n [] = refl
supervise-handle n (r ∷ rs) =
    let acts = (supervise_once n r).0 in
    let once = supervise_once-handle n r in
    elim (way n r rs) [
      | at_head e ↦ rw (supervise-head n r rs e) refl
      | breaks e f ↦
          rw (supervise-break n r rs e f) (handle-append false false acts (wrote idle ∷ []) once)
      | goes_on m e f ↦
          rw (supervise-next n r rs m e f)
            (handle-append false false acts (supervise m rs) once ∙ supervise-handle m rs)
    ]

-- The rounds that find the lock of the supervisor free.
abbrev pub free_rounds : List Round → ℕ
free_rounds [] = 0
free_rounds (r ∷ rs) = (if r.supervisor_running then 0 else 1) + free_rounds rs

adopted-spawns :
    (n : ℕ) (r : Round) → r.supervisor_running ≡ true → spawns (supervise_once n r).0 ≡ 0
unfolding supervise_once
adopted-spawns n r adopted = simp adopted

supervise_once-spawns :
    (n : ℕ) (r : Round) → spawns (supervise_once n r).0 ≤ (if r.supervisor_running then 0 else 1)
supervise_once-spawns n r = elim (Bool-cases r.supervisor_running) [
  | inl adopted ↦ simp adopted (omega (arith, adopted-spawns n r adopted))
  | inr free ↦ simp free (supervise_once-IsPaced n r).once
]

supervise-spawns : (n : ℕ) (rounds : List Round) → spawns (supervise n rounds) ≤ free_rounds rounds
unfolding supervise
supervise-spawns n [] = omega arith
supervise-spawns n (r ∷ rs) =
    let acts = (supervise_once n r).0 in
    let once = supervise_once-spawns n r in
    elim (way n r rs) [
      | at_head e ↦ rw (supervise-head n r rs e) (omega arith)
      | breaks e f ↦
          rw (supervise-break n r rs e f)
            (omega (arith, spawns-append acts (wrote idle ∷ []), once))
      | goes_on m e f ↦
          rw (supervise-next n r rs m e f)
            (omega (arith, spawns-append acts (supervise m rs), once, supervise-spawns m rs))
    ]

-- Whatever the loop meets, it never starts a child while it holds one, reports an end only of a
-- child that it holds, holds none when it is done or between two rounds, and starts at most one in
-- each round that finds the lock of the supervisor free and none in the others, so that a running
-- supervisor is adopted and not duplicated.
pub runner_supervisor_loop-handle :
    (plan : RunnerPlan) (rounds : List Round)
    → (handle false (runner_supervisor_loop plan rounds) ≡ some false)
      × (spawns (runner_supervisor_loop plan rounds) ≤ free_rounds rounds)
unfolding runner_supervisor_loop
runner_supervisor_loop-handle plan rounds = elim (Bool-cases plan.enabled) [
  | inl on ↦ simp on (supervise-handle 0 rounds, supervise-spawns 0 rounds)
  | inr off ↦ simp off (refl, omega arith)
]
