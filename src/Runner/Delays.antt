-- ===== src/Runner/Delays.antt =====
-- vector_lake/runner_supervision.py, `runner_supervisor_loop`: how long it waits, and how often it
-- starts a supervisor.
use vector_lake.Prelude.{
  ℕ, zero, suc, ◌+◌, ◌-◌, ◌*◌, ◌≤◌, ◌≡◌, Bool, true, false, Option, some, List, [], ◌∷◌, ◌++◌, All,
  arith, ltb, if◌then◌else◌, Bool-cases, inl, inr, refl, min,
}
use vector_lake.Prelude.Keys.{All-append}
use vector_lake.Runner.Loop.{
  at_head, breaks, goes_on, way, supervise-head, supervise-break, supervise-next,
}
use vector_lake.Runner.{
  backoff, Round, Action, wrote, spawned, ended, lost, slept, idle, heartbeats, restarts_after,
  after_child, supervise_once, supervise, RunnerPlan, runner_supervisor_loop, fast_exit_seconds,
}

-- A wait of the loop lasts from five seconds to five minutes.
abbrev pub IsBoundedWait : Action → Type 0
IsBoundedWait (slept n) = (5 ≤ n) × (n ≤ 300)
IsBoundedWait _ = Unit

abbrev pub starts_of : Action → ℕ
starts_of spawned = 1
starts_of _ = 0

abbrev pub seconds_of : Action → ℕ
seconds_of (slept n) = n
seconds_of _ = 0

abbrev pub spawns : List Action → ℕ
spawns [] = 0
spawns (a ∷ as') = starts_of a + spawns as'

abbrev pub total_sleep : List Action → ℕ
total_sleep [] = 0
total_sleep (a ∷ as') = seconds_of a + total_sleep as'

pub backoff_bounds : (n : ℕ) → (5 ≤ backoff n) × (backoff n ≤ 300)
unfolding backoff
backoff_bounds zero = omega arith
backoff_bounds (suc zero) = omega arith
backoff_bounds (suc (suc zero)) = omega arith
backoff_bounds (suc (suc (suc n))) =
    let last : min (suc (suc (suc n))) 3 ≡ 3 = omega arith in rw last (omega arith)

pub spawns-append : (as' bs : List Action) → spawns (as' ++ bs) ≡ spawns as' + spawns bs
spawns-append [] bs = omega arith
spawns-append (a ∷ as') bs = omega (arith, spawns-append as' bs)

total_sleep-append :
    (as' bs : List Action) → total_sleep (as' ++ bs) ≡ total_sleep as' + total_sleep bs
total_sleep-append [] bs = omega arith
total_sleep-append (a ∷ as') bs = omega (arith, total_sleep-append as' bs)

heartbeats-quiet :
    (n : ℕ)
    → (spawns (heartbeats n) ≡ 0)
      × (total_sleep (heartbeats n) ≡ 0)
      × All IsBoundedWait (heartbeats n)
heartbeats-quiet zero = (refl, refl, tt)
heartbeats-quiet (suc n) =
    let (a, b, c) = heartbeats-quiet n in (omega (arith, a), omega (arith, b), (tt, c))

-- What a round costs: it starts a supervisor at most once, and if the loop goes on it has waited
-- five seconds for that.
pub record IsPaced (acts : List Action) (next : Option ℕ) : Type 0 where
  pub waits : All IsBoundedWait acts
  pub once : spawns acts ≤ 1
  pub paid : (n : ℕ) → next ≡ some n → 5 * spawns acts ≤ total_sleep acts

after_child-IsPaced :
    (restarts : ℕ) (r : Round)
    → (spawns (after_child restarts r).0 ≡ 0)
      × All IsBoundedWait (after_child restarts r).0
      × ((n : ℕ) → (after_child restarts r).1 ≡ some n → 5 ≤ total_sleep (after_child restarts r).0)
unfolding after_child
after_child-IsPaced restarts r =
    let b = backoff_bounds (restarts_after restarts r.elapsed - 1) in
    elim (Bool-cases r.stop_in_run) [
      | inl stop ↦ rw (stop, if◌then◌else◌) (refl, tt, λ n e. cc)
      | inr on ↦ elim (Bool-cases (ltb r.elapsed (fast_exit_seconds * 1000))) [
        | inl fast ↦
            rw (on, fast, if◌then◌else◌) (refl, (tt, (omega arith, tt)), λ n e. omega arith)
        | inr slow ↦ rw (on, slow, if◌then◌else◌) (refl, (tt, (b, tt)), λ n e. omega (arith, b))
      ]
    ]

ended_or_lost : (failed : Bool) → IsBoundedWait (if failed then lost else ended)
ended_or_lost true = tt
ended_or_lost false = tt

pub supervise_once-IsPaced :
    (restarts : ℕ) (r : Round) → IsPaced (supervise_once restarts r).0 (supervise_once restarts r).1
unfolding supervise_once
supervise_once-IsPaced restarts r = elim (Bool-cases r.supervisor_running) [
  | inl adopted ↦
      simp adopted
        (record { waits = (tt, (omega arith, tt)); once = omega arith; paid = λ n e. omega arith })
  | inr free ↦
      let b = backoff_bounds restarts in
      elim (Bool-cases r.starts) [
        | inr failed ↦
            simp (free, failed)
              (record {
                waits = (tt, (tt, (b, tt)));
                once = omega arith;
                paid = λ n e. omega arith;
              })
        | inl started ↦
            let (none_more, waits, paid) = after_child-IsPaced restarts r in
            let (quiet, silent, calm) = heartbeats-quiet r.beats in
            let rest = (if r.wait_failed then lost else ended) ∷ (after_child restarts r).0 in
            let ending : spawns rest ≡ 0 = ground (arith, none_more) in
            let waits' : All IsBoundedWait rest = (ended_or_lost r.wait_failed, waits) in
            let slept_on : total_sleep (after_child restarts r).0 ≡ total_sleep rest =
              ground arith in
            simp (free, started)
              (record {
                waits = (tt, (tt, All-append IsBoundedWait (heartbeats r.beats) rest calm waits'));
                once = omega (arith, spawns-append (heartbeats r.beats) rest, quiet, ending);
                paid = λ n e. omega (
                  arith,
                  spawns-append (heartbeats r.beats) rest,
                  total_sleep-append (heartbeats r.beats) rest,
                  quiet,
                  silent,
                  ending,
                  slept_on,
                  paid n e,
                );
              })
      ]
]

-- From any step of the ladder.
supervise-IsPaced :
    (restarts : ℕ) (rounds : List Round)
    → All IsBoundedWait (supervise restarts rounds)
      × (5 * spawns (supervise restarts rounds) ≤ total_sleep (supervise restarts rounds) + 5)
unfolding supervise
supervise-IsPaced restarts [] = (tt, omega arith)
supervise-IsPaced restarts (r ∷ rs) =
    let acts = (supervise_once restarts r).0 in
    let paced = supervise_once-IsPaced restarts r in
    elim (way restarts r rs) [
      | at_head e ↦ rw (supervise-head restarts r rs e) ((tt, tt), omega arith)
      | breaks e f ↦ rw (supervise-break restarts r rs e f) (
        All-append IsBoundedWait acts (wrote idle ∷ []) paced.waits (tt, tt),
        omega (arith, spawns-append acts (wrote idle ∷ []), paced.once),
      )
      | goes_on n e f ↦
          let (waits, rate) = supervise-IsPaced n rs in
          rw (supervise-next restarts r rs n e f) (
            All-append IsBoundedWait acts (supervise n rs) paced.waits waits,
            omega (
              arith,
              spawns-append acts (supervise n rs),
              total_sleep-append acts (supervise n rs),
              paced.paid n f,
              rate,
            ),
          )
    ]

-- Whatever the loop meets, each of its waits lasts from five seconds to five minutes, and it starts
-- a supervisor at most once for every five seconds that it has waited, and once more: no failure,
-- lock conflict or crash turns it into a storm of starts.
pub runner_supervisor_loop-IsPaced :
    (plan : RunnerPlan) (rounds : List Round)
    → All IsBoundedWait (runner_supervisor_loop plan rounds)
      × (5 * spawns (runner_supervisor_loop plan rounds)
          ≤ total_sleep (runner_supervisor_loop plan rounds) + 5)
unfolding runner_supervisor_loop
runner_supervisor_loop-IsPaced plan rounds = elim (Bool-cases plan.enabled) [
  | inl on ↦ rw (on, if◌then◌else◌) (supervise-IsPaced 0 rounds)
  | inr off ↦ rw (off, if◌then◌else◌) ((tt, tt), omega arith)
]
