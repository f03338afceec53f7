-- ===== src/Runner/Stopping.antt =====
-- vector_lake/runner_supervision.py, `runner_supervisor_loop`: how it ends.
use vector_lake.Prelude.{
  ℕ, ◌≡◌, ◌⊎◌, true, none, List, [], ◌∷◌, ◌++◌, Bool-cases, inl, inr, refl, sym, ◌∙◌, ap, ltb, ◌*◌,
}
use mathlib.Core.List.{append_assoc}
use vector_lake.Runner.Loop.{
  at_head, breaks, goes_on, way, supervise-head, supervise-break, supervise-next,
}
use vector_lake.Runner.{
  Round, Action, wrote, idle, after_child, supervise_once, supervise, RunnerPlan,
  runner_supervisor_loop, fast_exit_seconds,
}

-- The stop event is set when the round begins, or before its last wait is over.
abbrev pub Stops : Round → Type 0
Stops r = (r.stop_at_head ≡ true) ⊎ (r.stop_in_sleep ≡ true)

-- The actions end with the status that supervision stopped.
abbrev pub EndsIdle : List Action → Type 0
EndsIdle as' = (before : List Action) × (as' ≡ before ++ (wrote idle ∷ []))

after_child-stop : (n : ℕ) (r : Round) → r.stop_in_sleep ≡ true → (after_child n r).1 ≡ none
unfolding after_child
after_child-stop n r stop = elim (Bool-cases r.stop_in_run) [
  | inl e ↦ simp e
  | inr e ↦ elim (Bool-cases (ltb r.elapsed (fast_exit_seconds * 1000))) [
    | inl fast ↦ simp (e, fast, stop)
    | inr slow ↦ simp (e, slow, stop)
  ]
]

supervise_once-stop : (n : ℕ) (r : Round) → r.stop_in_sleep ≡ true → (supervise_once n r).1 ≡ none
unfolding supervise_once
supervise_once-stop n r stop = elim (Bool-cases r.supervisor_running) [
  | inl adopted ↦ simp (adopted, stop)
  | inr free ↦ elim (Bool-cases r.starts) [
    | inr failed ↦ simp (free, failed, stop)
    | inl started ↦ simp (free, started) (after_child-stop n r stop)
  ]
]

-- A round that stops is the last, whatever would come after it.
stop-last :
    (n : ℕ) (r : Round) (post : List Round)
    → Stops r
    → (supervise n (r ∷ post) ≡ supervise n (r ∷ [])) × EndsIdle (supervise n (r ∷ []))
stop-last n r post (inl e) =
    let alone = supervise-head n r [] e in (supervise-head n r post e ∙ sym alone, ([], alone))
stop-last n r post (inr stop) = elim (Bool-cases r.stop_at_head) [
  | inl e ↦
      let alone = supervise-head n r [] e in (supervise-head n r post e ∙ sym alone, ([], alone))
  | inr e ↦
      let f = supervise_once-stop n r stop in
      let alone = supervise-break n r [] e f in
      (supervise-break n r post e f ∙ sym alone, ((supervise_once n r).0, alone))
]

supervise-Stops :
    (n : ℕ) (pre : List Round) (r : Round) (post : List Round)
    → Stops r
    → (supervise n (pre ++ (r ∷ post)) ≡ supervise n (pre ++ (r ∷ [])))
      × EndsIdle (supervise n (pre ++ (r ∷ [])))
supervise-Stops n [] r post stop = stop-last n r post stop
supervise-Stops n (q ∷ pre) r post stop = elim (way n q pre) [
  | at_head e ↦
      let alone = supervise-head n q (pre ++ (r ∷ [])) e in
      (supervise-head n q (pre ++ (r ∷ post)) e ∙ sym alone, ([], alone))
  | breaks e f ↦
      let alone = supervise-break n q (pre ++ (r ∷ [])) e f in
      (supervise-break n q (pre ++ (r ∷ post)) e f ∙ sym alone, ((supervise_once n q).0, alone))
  | goes_on m e f ↦
      let alone = supervise-next n q (pre ++ (r ∷ [])) m e f in
      let (same, (before, ends)) = supervise-Stops m pre r post stop in
      (
        supervise-next n q (pre ++ (r ∷ post)) m e f
            ∙ ap (λ t. (supervise_once n q).0 ++ t) same
            ∙ sym alone,
        (
          (supervise_once n q).0 ++ before,
          alone
              ∙ ap (λ t. (supervise_once n q).0 ++ t) ends
              ∙ sym (append_assoc (supervise_once n q).0 before (wrote idle ∷ [])),
        ),
      )
]

-- Once the stop event is set at the head of a round or before its last wait is over, the loop ends in
-- that round if not before: what it would have met later changes nothing of what it does, and its
-- last act is the status that supervision stopped.
pub runner_supervisor_loop-Stops :
    (plan : RunnerPlan) (pre : List Round) (r : Round) (post : List Round)
    → Stops r
    → (runner_supervisor_loop plan (pre ++ (r ∷ post))
        ≡ runner_supervisor_loop plan (pre ++ (r ∷ [])))
      × EndsIdle (runner_supervisor_loop plan (pre ++ (r ∷ [])))
unfolding runner_supervisor_loop
runner_supervisor_loop-Stops plan pre r post stop = elim (Bool-cases plan.enabled) [
  | inl on ↦ simp on (supervise-Stops 0 pre r post stop)
  | inr off ↦ simp off (refl, ([], refl))
]
