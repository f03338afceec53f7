-- ===== src/Threads/Reporting.antt =====
-- vector_lake/thread_supervision.py: `supervise_once` and then `describe`.
use vector_lake.Prelude.{
  ℕ, ◌≡◌, Bool, true, false, ◌&&◌, ◌||◌, not, List, [], ◌∷◌, arith, leb, refl, ◌∙◌,
}
use vector_lake.Threads.{
  Loop, Outcome, is_dead, is_alive, is_finished, is_restarted, State, error, dead_outcome, judge,
  is_nonempty, names_of, note, is_known, act, supervise_each, supervise_once, describe,
}

-- Not running at the second look, and not seen as finished and ended at the first, with its restarts
-- spent. `alive` and `alive'` are the two looks: a finished loop that ends between them is down.
abbrev pub is_down : (ℕ → Bool) → (ℕ → Bool) → Loop → Bool
is_down alive alive' l =
    not (alive' l.thread) && (alive l.thread || not l.finished) && leb l.restart_limit l.restarts

abbrev pub any_down : (ℕ → Bool) → (ℕ → Bool) → List Loop → Bool
any_down alive alive' [] = false
any_down alive alive' (l ∷ ls) = is_down alive alive' l || any_down alive alive' ls

abbrev pub is_error : State → Bool
is_error error = true
is_error _ = false

judge-dead :
    (alive alive' : ℕ → Bool) (l : Loop)
    → dead_outcome (judge alive alive' l) ≡ is_down alive alive' l
unfolding judge
judge-dead alive alive' l = ground arith

note-dead :
    (l : Loop) (o : Outcome) (loops : List Loop) (outcomes : List (ℕ × Outcome))
    → is_nonempty (names_of dead_outcome (note (is_known l o loops) l.name o outcomes))
      ≡ (dead_outcome o || is_nonempty (names_of dead_outcome outcomes))
unfolding names_of
note-dead l is_dead loops outcomes = refl
note-dead l is_alive loops outcomes = refl
note-dead l is_finished loops outcomes = refl
note-dead l is_restarted loops outcomes = ground arith

supervise_each-dead :
    (alive alive' : ℕ → Bool) (fresh : ℕ → ℕ) (ls loops : List Loop)
    → is_nonempty (names_of dead_outcome (supervise_each alive alive' fresh ls loops).0)
      ≡ any_down alive alive' ls
unfolding supervise_each names_of
supervise_each-dead alive alive' fresh [] loops = refl
supervise_each-dead alive alive' fresh (l ∷ ls) loops =
    let o = judge alive alive' l in
    let loops' = act fresh l o loops in
    note-dead l o loops (supervise_each alive alive' fresh ls loops').0
    ∙ rw (judge-dead alive alive' l, supervise_each-dead alive alive' fresh ls loops') refl

-- The state that `describe` makes of the outcomes of a supervision is an error exactly if a loop is
-- down.
pub describe-error_iff_down :
    (alive alive' : ℕ → Bool) (fresh : ℕ → ℕ) (loops : List Loop)
    → is_error (describe (supervise_once alive alive' fresh loops).0).0
      ≡ any_down alive alive' loops
unfolding supervise_once describe
describe-error_iff_down alive alive' fresh loops =
    let dead = supervise_each-dead alive alive' fresh loops loops in ground (arith, dead)
