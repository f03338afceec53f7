-- ===== src/Runner/Ladder.antt =====
-- vector_lake/runner_supervision.py, `runner_supervisor_loop`: the waits after crashes.
use vector_lake.Prelude.{
  ℕ, zero, suc, ◌+◌, ◌-◌, ◌*◌, ◌≤◌, ◌<◌, ◌≡◌, Bool, true, false, some, List, [], ◌∷◌, ◌++◌, All,
  arith, ltb, if◌then◌else◌, refl, ◌∙◌, ap,
}
use vector_lake.Runner.Loop.{supervise-next}
use vector_lake.Runner.{
  backoff, Round, Action, wrote, spawned, ended, lost, slept, error, heartbeats, restarts_after,
  after_child, supervise_once, supervise, healthy_run_seconds, fast_exit_seconds,
}

-- A supervisor that ran for a while, and not long enough to count as healthy.
pub record IsCrash (r : Round) : Type 0 where
  pub on : r.stop_at_head ≡ false
  pub free : r.supervisor_running ≡ false
  pub starts : r.starts ≡ true
  pub unstopped : r.stop_in_run ≡ false
  pub lasting : fast_exit_seconds * 1000 ≤ r.elapsed
  pub brief : r.elapsed < healthy_run_seconds * 1000
  pub unstopped_sleep : r.stop_in_sleep ≡ false

-- The delays of a ladder from its step `n` on.
abbrev pub ladder : ℕ → List Round → List ℕ
ladder n [] = []
ladder n (r ∷ rs) = backoff n ∷ ladder (n + 1) rs

abbrev pub waits_of : Action → List ℕ
waits_of (slept n) = n ∷ []
waits_of _ = []

abbrev pub delays : List Action → List ℕ
delays [] = []
delays (a ∷ as') = waits_of a ++ delays as'

delays-append : (as' bs : List Action) → delays (as' ++ bs) ≡ delays as' ++ delays bs
delays-append [] bs = refl
delays-append (wrote c ∷ as') bs = delays-append as' bs
delays-append (spawned ∷ as') bs = delays-append as' bs
delays-append (ended ∷ as') bs = delays-append as' bs
delays-append (lost ∷ as') bs = delays-append as' bs
delays-append (slept n ∷ as') bs = ap (λ t. n ∷ t) (delays-append as' bs)

heartbeats-delays : (n : ℕ) → delays (heartbeats n) ≡ []
heartbeats-delays zero = refl
heartbeats-delays (suc n) = heartbeats-delays n

after_child-crash :
    (n : ℕ) (r : Round)
    → IsCrash r
    → after_child n r ≡ (wrote error ∷ slept (backoff n) ∷ [], some (n + 1))
unfolding after_child
after_child-crash n r h =
    let slow : ltb r.elapsed (fast_exit_seconds * 1000) ≡ false = ground (arith, h.lasting) in
    let sick : restarts_after n r.elapsed ≡ n + 1 = ground (arith, h.brief) in
    let step : n + 1 - 1 ≡ n = omega arith in
    simp (h.unstopped, slow, sick, step, h.unstopped_sleep)

ended_or_lost-delays :
    (failed : Bool) (as' : List Action)
    → delays ((if failed then lost else ended) ∷ as') ≡ delays as'
ended_or_lost-delays true as' = refl
ended_or_lost-delays false as' = refl

crash-delay :
    (n : ℕ) (r : Round)
    → IsCrash r
    → (delays (supervise_once n r).0 ≡ backoff n ∷ []) × ((supervise_once n r).1 ≡ some (n + 1))
unfolding supervise_once
crash-delay n r h =
    let crashed = after_child-crash n r h in
    simp (h.free, h.starts, crashed, delays-append, heartbeats-delays, ended_or_lost-delays)
      (refl, refl)

-- While supervisors crash one after the other, the waits go up the ladder step by step: the wait
-- after the k-th crash is the one of step n + k.
pub supervise-ladder :
    (n : ℕ) (rounds : List Round)
    → All IsCrash rounds
    → delays (supervise n rounds) ≡ ladder n rounds
unfolding supervise
supervise-ladder n [] h = refl
supervise-ladder n (r ∷ rs) h =
    let (wait, next) = crash-delay n r h.0 in
    rw (supervise-next n r rs (n + 1) h.0.on next) (
      delays-append (supervise_once n r).0 (supervise (n + 1) rs)
      ∙ rw (wait, supervise-ladder (n + 1) rs h.1) refl)
