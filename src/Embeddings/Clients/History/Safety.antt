-- ===== src/Embeddings/Clients/History/Safety.antt =====
-- vector_lake/embedding_scheduler.py, `_ClientManager`: a client that a caller holds is not closed.
use vector_lake.Prelude.{ℕ, ◌≤◌, ◌<◌, ◌≡◌, true, some, length, All, subst, arith, refl, ◌∙◌, ap}
use vector_lake.Prelude.Sql.{All-imp, All-find_key, find_key-key}
use vector_lake.Embeddings.Clients.{ClientGeneration, is_open}
use vector_lake.Embeddings.Clients.Rows.{is_allowed, IsSound}
use vector_lake.Embeddings.Clients.Changes.{find_key-listed}
use vector_lake.Embeddings.Clients.History.{World, Step, Reach, IsConsistent, generation_of}
use vector_lake.Embeddings.Clients.History.Keeping.{
  invalidate-IsConsistent, remove-IsConsistent, release-IsConsistent, close_fails-IsConsistent,
  held_of_idle,
}
use vector_lake.Embeddings.Clients.History.Borrowing.{Leaves, attempt-Leaves, finish-IsConsistent}

Step-IsConsistent : {v w : World} → Step v w → IsConsistent v → IsConsistent w
unfolding Leaves
Step-IsConsistent (Step.invalidated shutdown reopen m held next) c =
    invalidate-IsConsistent m held next c shutdown reopen
Step-IsConsistent (Step.borrowed key i m m' held next e) c =
    subst (Leaves held next) e (attempt-Leaves key m held next c)
Step-IsConsistent (Step.reserved key m m' held next e) c =
    subst (Leaves held next) e (attempt-Leaves key m held next c)
Step-IsConsistent (Step.waits key m m' held next e) c =
    subst (Leaves held next) e (attempt-Leaves key m held next c)
Step-IsConsistent (Step.constructed i expired g m held next found state) c =
    finish-IsConsistent i expired g m held next c found state
Step-IsConsistent (Step.construction_failed i g m held next found state) c =
    remove-IsConsistent m held next c i (held_of_idle m held next c i g found (rw state refl))
Step-IsConsistent (Step.released i m held next holds) c = release-IsConsistent m held next c i holds
Step-IsConsistent (Step.closed i g m held next found state) c =
    remove-IsConsistent m held next c i (held_of_idle m held next c i g found (rw state refl))
Step-IsConsistent (Step.close_failed i g m held next found state) c =
    close_fails-IsConsistent m held next c i (held_of_idle m held next c i g found (rw state refl))

Reach-IsConsistent : {w : World} → Reach w → IsConsistent w
Reach-IsConsistent Reach.start = record {
  keyed = tt;
  few = omega arith;
  sound = tt;
  listed = λ i h. absurd (omega (arith, h));
  fresh = λ i _. refl;
}
Reach-IsConsistent (Reach.after r s) = Step-IsConsistent s (Reach-IsConsistent r)

-- The manager holds two generations at most, an active one is of the current epoch and there is none
-- after a shutdown, and the generation `i` is open with the number of its callers.
abbrev pub IsServed : World → ℕ → Type 0
IsServed w i =
    (length w.manager.generations ≤ 2)
    × All (λ g. is_allowed w.manager.epoch w.manager.stopped g ≡ true) w.manager.generations
    × ((g : ClientGeneration) × (generation_of i w.manager ≡ some g)
        × (is_open g.state ≡ true)
        × (g.borrowers ≡ w.held i))

-- After any run of the blocks of any threads, when a caller holds the client of a generation: the
-- generation is on the list of the manager, active or retired, so that no thread closes or removes
-- it, and it counts the callers that hold it; the list has two generations at most, those that
-- nobody may borrow any more are borrowed by nobody, and the active ones are of the current epoch of
-- a manager that is not shut down.
pub held-IsServed : {w : World} → Reach w → (i : ℕ) → 0 < w.held i → IsServed w i
held-IsServed {w} r i holds =
    let c = Reach-IsConsistent r in
    let (g, found) = find_key-listed i w.manager.generations (c.listed i holds) in
    let ((counted, known), allowed) =
      All-find_key (λ x. x.id) (IsSound w.held w.next w.manager) i w.manager.generations c.sound
        found in
    let count : g.borrowers ≡ w.held i =
      counted ∙ ap w.held (find_key-key (λ x. x.id) i w.manager.generations found) in
    (
      c.few,
      All-imp (IsSound w.held w.next w.manager)
          (λ x. is_allowed w.manager.epoch w.manager.stopped x ≡ true) (λ x h. h.1)
          w.manager.generations c.sound,
      (g, found, ground (arith, allowed, count, holds), count),
    )
