-- ===== src/Runner/Loop.antt =====
-- vector_lake/runner_supervision.py, `runner_supervisor_loop`: the equations of its loop.
use vector_lake.Prelude.{
  ℕ, ◌≡◌, true, false, none, some, List, [], ◌∷◌, ◌++◌, Bool-cases, Option-cases, inl, inr,
}
use vector_lake.Runner.{Round, wrote, idle, supervise_once, supervise}

module _ (restarts : ℕ) (r : Round) (rs : List Round) where
  pub supervise-head : r.stop_at_head ≡ true → supervise restarts (r ∷ rs) ≡ wrote idle ∷ []
  unfolding supervise
  supervise-head e = simp e

  pub supervise-break :
      r.stop_at_head ≡ false
      → (supervise_once restarts r).1 ≡ none
      → supervise restarts (r ∷ rs) ≡ (supervise_once restarts r).0 ++ (wrote idle ∷ [])
  unfolding supervise
  supervise-break e f = simp (e, f)

  pub supervise-next :
      (n : ℕ)
      → r.stop_at_head ≡ false
      → (supervise_once restarts r).1 ≡ some n
      → supervise restarts (r ∷ rs) ≡ (supervise_once restarts r).0 ++ supervise n rs
  unfolding supervise
  supervise-next n e f = simp (e, f)

  -- The three ways of a round.
  pub data Way : Type 0 where
    at_head : r.stop_at_head ≡ true → Way
    breaks : r.stop_at_head ≡ false → (supervise_once restarts r).1 ≡ none → Way
    goes_on : (n : ℕ) → r.stop_at_head ≡ false → (supervise_once restarts r).1 ≡ some n → Way

  pub way : Way
  way = elim (Bool-cases r.stop_at_head) [
    | inl e ↦ at_head e
    | inr e ↦ elim (Option-cases (supervise_once restarts r).1) [
      | inl f ↦ breaks e f
      | inr (n, f) ↦ goes_on n e f
    ]
  ]
