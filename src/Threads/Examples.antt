-- ===== src/Threads/Examples.antt =====
-- vector_lake/thread_supervision.py: the theorems on the registry, applied to small registries.
use vector_lake.Prelude.{◌+◌, ◌≡◌, false, true, refl, List, [], ◌∷◌}
use vector_lake.Threads.{Loop, new_loop, start, supervise_once, supervise_each, judge, is_dead}
use vector_lake.Threads.Budget.{here, next, started, supervised, IsSupervised, Reach-IsSupervised}

Reach-IsSupervised_example :
    IsSupervised (supervise_once (λ t. false) (λ t. false) (λ n. n + 100) (start 1 10 5 20 [])).1
Reach-IsSupervised_example = Reach-IsSupervised (
    next (next here (started 1 10 5 20 []))
      (supervised (λ t. false) (λ t. false) (λ n. n + 100) (start 1 10 5 20 [])))

-- A loop that declared its end, and whose thread ends between the two looks, is reported as dead.
abbrev finished_loop : List Loop
finished_loop = record (new_loop 1 10 0 20) { finished = true } ∷ []

ended_between_looks :
    (supervise_once (λ t. true) (λ t. false) (λ n. n + 100) finished_loop).0 ≡ (1, is_dead) ∷ []
unfolding supervise_once supervise_each judge
ended_between_looks = refl
