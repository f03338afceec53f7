-- ===== src/Embeddings/Clients.antt =====
-- vector_lake/embedding_scheduler.py, `_ClientManager`: the clients that threads share. Each block
-- under the condition is one function; a thread names a client by the identity of its generation.
pub mod Rows
pub mod Changes
pub mod History
use vector_lake.Prelude.{
  ℕ, ◌+◌, ◌-◌, Bool, true, false, ◌&&◌, ◌||◌, not, Option, none, some, List, [], ◌∷◌, ◌++◌, map,
  ltb, ◌==◌, if◌then◌else◌, length,
}
use vector_lake.Prelude.Sql.{update_where, select, row_count, fetch_one, find_key}

pub data GenerationState : Type 0 where
  constructing active retired closing close_failed : GenerationState

-- `_ClientGeneration`, with an identity in place of the object; keys of clients are numbers.
pub record ClientGeneration : Type 0 where
  pub id : ℕ
  pub key : ℕ
  pub epoch : ℕ
  pub state : GenerationState
  pub borrowers : ℕ

pub record ClientManager : Type 0 where
  pub epoch : ℕ
  pub stopped : Bool
  pub generations : List ClientGeneration

abbrev pub is_active : GenerationState → Bool
is_active active = true
is_active _ = false

abbrev pub is_constructing : GenerationState → Bool
is_constructing constructing = true
is_constructing _ = false

abbrev pub is_retired : GenerationState → Bool
is_retired retired = true
is_retired _ = false

-- active or retired
abbrev pub is_open : GenerationState → Bool
is_open active = true
is_open retired = true
is_open _ = false

-- The loop over the generations: an active one is retired, and a retired one that nobody borrows is
-- closing.
abbrev pub settled_row : ClientGeneration → ClientGeneration
settled_row g =
    if is_open g.state
    then record g { state = if g.borrowers == 0 then closing else retired }
    else g

-- It is put on the list `closing`.
abbrev pub is_closable : ClientGeneration → Bool
is_closable g = is_open g.state && g.borrowers == 0

unfoldable pub invalidate : Bool → Bool → ClientManager → ClientManager
invalidate shutdown reopen m = record {
  epoch = m.epoch + 1;
  stopped = if shutdown then true else if reopen then false else m.stopped;
  generations = map settled_row m.generations;
}

abbrev pub borrowed_row : ClientGeneration → ClientGeneration
borrowed_row g = record g { borrowers = g.borrowers + 1 }

abbrev pub reserved_row : ℕ → ℕ → ℕ → ClientGeneration
reserved_row id key epoch = record {
  id = id;
  key = key;
  epoch = epoch;
  state = constructing;
  borrowers = 0;
}

-- What a round of `borrow` comes to: it is refused, borrows a client, reserves a generation to
-- construct, or closes and waits before the next round.
pub data Attempt : Type 0 where
  refused : Attempt
  borrowed : ℕ → ClientManager → Attempt
  reserved : ClientManager → Attempt
  waits : ClientManager → Attempt

abbrev pub with_generations : ClientManager → List ClientGeneration → ClientManager
with_generations m gens = record m { generations = gens }

-- No client is selected: the others are retired, and there may be room for a new one. `id` is the
-- identity of the new object.
unfoldable pub make_room : ℕ → ℕ → ClientManager → Attempt
make_room key id m =
    let settled = map settled_row m.generations in
    if row_count is_closable m.generations == 0
      && ltb (length settled) 2
      && row_count (λ g. is_constructing g.state) settled == 0
    then reserved (with_generations m (settled ++ reserved_row id key m.epoch ∷ []))
    else waits (with_generations m settled)

-- The first block of a round of `borrow`, for a caller whose deadline has not passed.
unfoldable pub attempt : ℕ → ℕ → ClientManager → Attempt
attempt key id m =
    if m.stopped
    then refused
    else elim (fetch_one (λ g. is_active g.state && g.key == key) m.generations) [
      | some g ↦
          borrowed g.id
            (with_generations m (update_where (λ x. x.id == g.id) borrowed_row m.generations))
      | none ↦ make_room key id m
    ]

-- The block after the construction: the client is handed out, or closing.
abbrev pub is_unwanted : Bool → ClientManager → ClientGeneration → Bool
is_unwanted expired m g = m.stopped || not (g.epoch == m.epoch) || expired

abbrev pub constructed_row : Bool → ClientManager → ClientGeneration → ClientGeneration
constructed_row expired m g =
    if is_unwanted expired m g
    then record g { state = closing }
    else record g { state = active; borrowers = 1 }

unfoldable pub finish : ℕ → Bool → ClientManager → ClientManager
finish i expired m =
    with_generations m (update_where (λ x. x.id == i) (constructed_row expired m) m.generations)

-- generations.remove(…): after a constructor that failed, and after a close.
unfoldable pub remove : ℕ → ClientManager → ClientManager
remove i m = with_generations m (select (λ x. not (x.id == i)) m.generations)

-- The `finally` of `borrow`.
abbrev pub released_row : ClientGeneration → ClientGeneration
released_row g = record g {
  borrowers = g.borrowers - 1;
  state = if is_retired g.state && g.borrowers - 1 == 0 then closing else g.state;
}

unfoldable pub release : ℕ → ClientManager → ClientManager
release i m = with_generations m (update_where (λ x. x.id == i) released_row m.generations)

abbrev pub failed_row : ClientGeneration → ClientGeneration
failed_row g = record g { state = close_failed }

-- `_close` of a client whose close() raises.
unfoldable pub close_fails : ℕ → ClientManager → ClientManager
close_fails i m = with_generations m (update_where (λ x. x.id == i) failed_row m.generations)
