-- ===== src/Threads.antt =====
-- vector_lake/thread_supervision.py: the registry of the daemon's loop threads. A name, a factory, a
-- thread and a reason are numbers, 0 for the empty reason. `is_alive()` is the operating system's
-- answer, a parameter; each call runs without another one in between.
pub mod Budget
pub mod Reporting
mod Examples
use vector_lake.Prelude.{
  ℕ, ◌+◌, ◌-◌, Bool, true, false, ◌&&◌, not, Option, none, some, List, [], ◌∷◌, ◌++◌, map, leb,
  ◌==◌, if◌then◌else◌, is_some, length,
}
use vector_lake.Prelude.Sql.{update_where, select, find_key, order_by}

pub record Loop : Type 0 where
  pub name : ℕ
  pub factory : ℕ
  pub thread : ℕ
  pub restarts : ℕ
  pub restart_limit : ℕ
  pub last_exit_reason : ℕ
  pub finished : Bool

abbrev pub default_restart_limit : ℕ
default_restart_limit = 5

abbrev pub new_loop : ℕ → ℕ → ℕ → ℕ → Loop
new_loop name factory restart_limit thread = record {
  name = name;
  factory = factory;
  thread = thread;
  restarts = 0;
  restart_limit = restart_limit;
  last_exit_reason = 0;
  finished = false;
}

-- `_loops[name] = …`
unfoldable pub start : ℕ → ℕ → ℕ → ℕ → List Loop → List Loop
start name factory restart_limit thread loops =
    if is_some (find_key (λ l. l.name) name loops)
    then update_where (λ l. l.name == name) (λ _. new_loop name factory restart_limit thread) loops
    else loops ++ new_loop name factory restart_limit thread ∷ []

-- The end of `_run`: the body returned, or raised, for a reason.
unfoldable pub run_ended : ℕ → ℕ → List Loop → List Loop
run_ended name reason loops =
    update_where (λ l. l.name == name) (λ l. record l { last_exit_reason = reason }) loops

-- `finished_text` is the text that stands for an empty reason.
unfoldable pub finish : ℕ → ℕ → ℕ → List Loop → List Loop
finish finished_text name reason loops =
    update_where (λ l. l.name == name)
      (λ l. record l {
        finished = true;
        last_exit_reason = if reason == 0 then finished_text else reason;
      })
      loops

pub data Outcome : Type 0 where
  is_finished is_alive is_dead is_restarted : Outcome

abbrev pub dead_outcome : Outcome → Bool
dead_outcome is_dead = true
dead_outcome _ = false

abbrev pub restarted_outcome : Outcome → Bool
restarted_outcome is_restarted = true
restarted_outcome _ = false

abbrev pub finished_outcome : Outcome → Bool
finished_outcome is_finished = true
finished_outcome _ = false

-- What becomes of one loop: `alive` and `alive'` are the two looks at its thread.
unfoldable pub judge : (ℕ → Bool) → (ℕ → Bool) → Loop → Outcome
judge alive alive' l =
    if l.finished && not (alive l.thread)
    then is_finished
    else if alive' l.thread
    then is_alive
    else if leb l.restart_limit l.restarts
    then is_dead
    else is_restarted

abbrev pub replaced : ℕ → Loop → Loop
replaced thread l = record l { thread = thread; restarts = l.restarts + 1; last_exit_reason = 0 }

abbrev pub note : Bool → ℕ → Outcome → List (ℕ × Outcome) → List (ℕ × Outcome)
note known name outcome outcomes = if known then (name, outcome) ∷ outcomes else outcomes

-- One round: a loop that is to be restarted is looked up again, and gets a new thread.
abbrev pub act : (ℕ → ℕ) → Loop → Outcome → List Loop → List Loop
act fresh l is_restarted loops =
    update_where (λ x. x.name == l.name) (replaced (fresh l.name)) loops
act fresh l _ loops = loops

-- A loop that is gone when it is looked up again has no outcome.
abbrev pub is_known : Loop → Outcome → List Loop → Bool
is_known l is_restarted loops = is_some (find_key (λ x. x.name) l.name loops)
is_known l _ loops = true

unfoldable pub supervise_each :
    (ℕ → Bool) → (ℕ → Bool) → (ℕ → ℕ) → List Loop → List Loop → List (ℕ × Outcome) × List Loop
unfolding judge
supervise_each alive alive' fresh [] loops = ([], loops)
supervise_each alive alive' fresh (l ∷ ls) loops =
    let o = judge alive alive' l in
    let (outcomes, loops') = supervise_each alive alive' fresh ls (act fresh l o loops) in
    (note (is_known l o loops) l.name o outcomes, loops')

unfoldable pub supervise_once :
    (ℕ → Bool) → (ℕ → Bool) → (ℕ → ℕ) → List Loop → List (ℕ × Outcome) × List Loop
unfolding supervise_each
supervise_once alive alive' fresh loops = supervise_each alive alive' fresh loops loops

pub record LoopState : Type 0 where
  pub alive : Bool
  pub restarts : ℕ
  pub restart_limit : ℕ
  pub finished : Bool
  pub last_exit_reason : ℕ

unfoldable pub snapshot : (ℕ → Bool) → List Loop → List (ℕ × LoopState)
snapshot alive loops =
    map
      (λ l. (
        l.name,
        record {
          alive = alive l.thread;
          restarts = l.restarts;
          restart_limit = l.restart_limit;
          finished = l.finished;
          last_exit_reason = l.last_exit_reason;
        },
      ))
      loops

-- The state of a status write, and its message with the names and numbers that it shows.
pub data State : Type 0 where
  error processing idle : State

pub data Message : Type 0 where
  dead_loops restarted_loops finished_by_design : List ℕ → Message
  partly_finished : ℕ → List ℕ → Message
  all_alive : ℕ → Message

unfoldable pub names_of : (Outcome → Bool) → List (ℕ × Outcome) → List ℕ
names_of p [] = []
names_of p (o ∷ os) = let rest = names_of p os in if p o.1 then o.0 ∷ rest else rest

abbrev pub is_nonempty : List ℕ → Bool
is_nonempty [] = false
is_nonempty (x ∷ xs) = true

abbrev pub sorted : List ℕ → List ℕ
sorted xs = order_by (λ x. x) xs

unfoldable pub describe : List (ℕ × Outcome) → State × Message
unfolding names_of
describe outcomes =
    let dead = names_of dead_outcome outcomes in
    let restarted = names_of restarted_outcome outcomes in
    let finished = names_of finished_outcome outcomes in
    if is_nonempty dead
    then (error, dead_loops (sorted dead))
    else if is_nonempty restarted
    then (processing, restarted_loops (sorted restarted))
    else if is_nonempty finished && length finished == length outcomes
    then (idle, finished_by_design (sorted finished))
    else if is_nonempty finished
    then (idle, partly_finished (length outcomes - length finished) (sorted finished))
    else (idle, all_alive (length outcomes))
