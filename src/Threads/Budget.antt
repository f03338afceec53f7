-- ===== src/Threads/Budget.antt =====
-- vector_lake/thread_supervision.py: the restarts of a loop over a run of calls.
use vector_lake.Prelude.{
  ℕ, ◌+◌, ◌≤◌, ◌≡◌, ◌≢◌, Bool, true, List, [], ◌∷◌, All, arith, ◌==◌, ==_iff, if◌then◌else◌, inl,
  inr, refl, sym, ◌∙◌, ◌⊎◌, some, Option-cases,
}
use vector_lake.Prelude.Sql.{update_where, All-update_where, All-imp, All-intro, find_key}
use vector_lake.Prelude.Keys.{
  All-append, All-both, All-ne_of_none, Forall2-update_where, IsKeyed, IsKeyed-snoc,
  IsKeyed-Forall2, All-found, All-same,
}
use vector_lake.Threads.{
  Loop, Outcome, is_finished, is_alive, is_dead, is_restarted, new_loop, start, run_ended, finish,
  judge, replaced, act, supervise_each, supervise_once,
}

abbrev pub IsBudgeted : Loop → Type 0
IsBudgeted l = l.restarts ≤ l.restart_limit

-- A call of the module, and the end of a loop.
pub data Step : List Loop → List Loop → Type 0 where
  started :
      (name factory restart_limit thread : ℕ) (loops : List Loop)
      → Step loops (start name factory restart_limit thread loops)
  ended : (name reason : ℕ) (loops : List Loop) → Step loops (run_ended name reason loops)
  completed :
      (finished_text name reason : ℕ) (loops : List Loop)
      → Step loops (finish finished_text name reason loops)
  supervised :
      (alive alive' : ℕ → Bool) (fresh : ℕ → ℕ) (loops : List Loop)
      → Step loops (supervise_once alive alive' fresh loops).1

pub data Reach : List Loop → List Loop → Type 0 where
  here : {loops : List Loop} → Reach loops loops
  next : {a b c : List Loop} → Reach a b → Step b c → Reach a c

SameName : Loop → Loop → Type 0
SameName l m = m.name ≡ l.name

update-IsKeyed :
    (p : Loop → Bool) (g : Loop → Loop) (loops : List Loop)
    → ((l : Loop) → p l ≡ true → (g l).name ≡ l.name)
    → IsKeyed (λ l. l.name) loops
    → IsKeyed (λ l. l.name) (update_where p g loops)
unfolding SameName
update-IsKeyed p g loops same =
    IsKeyed-Forall2 SameName (λ l. l.name) (λ l m e. e) loops (update_where p g loops)
      (Forall2-update_where SameName (λ (l : Loop). Unit {0}) p g (λ l _ hit. same l hit)
        (λ l. refl) loops (All-intro (λ (l : Loop). Unit {0}) (λ l. tt) loops))

update-IsBudgeted :
    (p : Loop → Bool) (g : Loop → Loop) (loops : List Loop)
    → ((l : Loop) → IsBudgeted l → IsBudgeted (g l))
    → All IsBudgeted loops
    → All IsBudgeted (update_where p g loops)
update-IsBudgeted p g loops keep =
    All-update_where IsBudgeted IsBudgeted p g (λ l b _. keep l b) (λ l b _. b) loops

-- Unique names, and restarts within the budget.
abbrev pub IsSupervised : List Loop → Type 0
IsSupervised loops = IsKeyed (λ l. l.name) loops × All IsBudgeted loops

-- The registry still holds the entries that are to be looked at.
abbrev Holds : List Loop → List Loop → Type 0
Holds ls loops = All (λ l. All (λ x. x.name ≡ l.name → x ≡ l) loops) ls

restart-IsSupervised :
    (alive alive' : ℕ → Bool) (thread : ℕ) (l : Loop) (loops : List Loop)
    → judge alive alive' l ≡ is_restarted
    → All (λ x. x.name ≡ l.name → x ≡ l) loops
    → IsSupervised loops
    → IsSupervised (update_where (λ x. x.name == l.name) (replaced thread) loops)
unfolding judge
restart-IsSupervised alive alive' thread l loops j same (keyed, budget) =
    let room : l.restarts + 1 ≤ l.restart_limit = ground arith in
    (
      update-IsKeyed (λ x. x.name == l.name) (replaced thread) loops (λ x _. refl) keyed,
      All-update_where (λ x. (x.name ≡ l.name → x ≡ l) × IsBudgeted x) IsBudgeted
          (λ x. x.name == l.name) (replaced thread)
          (λ x both hit. rw (both.0 ((==_iff x.name l.name).0 hit)) room) (λ x both _. both.1) loops
          (All-both (λ x. x.name ≡ l.name → x ≡ l) IsBudgeted loops same budget),
    )

restart-Holds :
    (thread : ℕ) (l : Loop) (ls loops : List Loop)
    → All (λ m. m.name ≢ l.name) ls
    → Holds ls loops
    → Holds ls (update_where (λ x. x.name == l.name) (replaced thread) loops)
restart-Holds thread l [] loops other h = tt
restart-Holds thread l (m ∷ ls) loops other h = (
  All-update_where (λ x. x.name ≡ m.name → x ≡ m) (λ x. x.name ≡ m.name → x ≡ m)
      (λ x. x.name == l.name) (replaced thread)
      (λ x _ hit e. absurd (other.0 (sym e ∙ (==_iff x.name l.name).0 hit))) (λ x keep _. keep)
      loops h.0,
  restart-Holds thread l ls loops other.1 h.1,
)

Outcome-cases :
    (o : Outcome)
    → (o ≡ is_restarted)
      ⊎ ((fresh : ℕ → ℕ) (l : Loop) (loops : List Loop) → act fresh l o loops ≡ loops)
Outcome-cases is_restarted = inl refl
Outcome-cases is_finished = inr (λ fresh l loops. refl)
Outcome-cases is_alive = inr (λ fresh l loops. refl)
Outcome-cases is_dead = inr (λ fresh l loops. refl)

supervise_each-IsSupervised :
    (alive alive' : ℕ → Bool) (fresh : ℕ → ℕ) (ls loops : List Loop)
    → IsKeyed (λ l. l.name) ls
    → Holds ls loops
    → IsSupervised loops
    → IsSupervised (supervise_each alive alive' fresh ls loops).1
unfolding supervise_each
supervise_each-IsSupervised alive alive' fresh [] loops keyed h s = s
supervise_each-IsSupervised alive alive' fresh (l ∷ ls) loops keyed h s =
    elim (Outcome-cases (judge alive alive' l)) [
      | inl j ↦
          let loops' = update_where (λ x. x.name == l.name) (replaced (fresh l.name)) loops in
          rw j (
            supervise_each-IsSupervised alive alive' fresh ls loops' keyed.1
              (restart-Holds (fresh l.name) l ls loops keyed.0 h.1)
              (restart-IsSupervised alive alive' (fresh l.name) l loops j h.0 s))
      | inr still ↦
          rw (still fresh l loops)
            (supervise_each-IsSupervised alive alive' fresh ls loops keyed.1 h.1 s)
    ]

all-Holds : (loops : List Loop) → IsKeyed (λ l. l.name) loops → Holds loops loops
all-Holds loops keyed =
    All-imp (λ l. find_key (λ x. x.name) l.name loops ≡ some l)
      (λ l. All (λ x. x.name ≡ l.name → x ≡ l) loops)
      (λ l found. All-same (λ x. x.name) l.name loops keyed found) loops
      (All-found (λ x. x.name) loops keyed)

start-IsSupervised :
    (name factory restart_limit thread : ℕ) (loops : List Loop)
    → IsSupervised loops
    → IsSupervised (start name factory restart_limit thread loops)
unfolding start
start-IsSupervised name factory restart_limit thread loops (keyed, budget) =
    let new = new_loop name factory restart_limit thread in
    elim (Option-cases (find_key (λ l. l.name) name loops)) [
      | inl gone ↦
          rw (gone, if◌then◌else◌)
            (
              IsKeyed-snoc (λ l. l.name) loops new keyed
                  (All-ne_of_none (λ l. l.name) name loops gone),
              All-append IsBudgeted loops (new ∷ []) budget (omega arith, tt),
            )
      | inr (l, found) ↦
          rw (found, if◌then◌else◌)
            (
              update-IsKeyed (λ x. x.name == name) (λ _. new) loops
                  (λ x hit. sym ((==_iff x.name name).0 hit)) keyed,
              update-IsBudgeted (λ x. x.name == name) (λ _. new) loops (λ x _. omega arith) budget,
            )
    ]

Step-IsSupervised : {a b : List Loop} → Step a b → IsSupervised a → IsSupervised b
unfolding run_ended finish supervise_once
Step-IsSupervised (started name factory restart_limit thread loops) s =
    start-IsSupervised name factory restart_limit thread loops s
Step-IsSupervised (ended name reason loops) (keyed, budget) = (
  update-IsKeyed _ (λ l. record l { last_exit_reason = reason }) loops (λ l _. refl) keyed,
  update-IsBudgeted _ (λ l. record l { last_exit_reason = reason }) loops (λ l b. b) budget,
)
Step-IsSupervised (completed text name reason loops) (keyed, budget) =
    let g : Loop → Loop =
      λ l. record l { finished = true; last_exit_reason = if reason == 0 then text else reason } in
    (update-IsKeyed _ g loops (λ l _. refl) keyed, update-IsBudgeted _ g loops (λ l b. b) budget)
Step-IsSupervised (supervised alive alive' fresh loops) s =
    supervise_each-IsSupervised alive alive' fresh loops loops s.0 (all-Holds loops s.0) s

-- However the loops of a process are started, end, finish and are supervised, names stay unique and
-- no loop was restarted more often than its limit since it was started.
pub Reach-IsSupervised : {loops : List Loop} → Reach [] loops → IsSupervised loops
Reach-IsSupervised here = (tt, tt)
Reach-IsSupervised (next r s) = Step-IsSupervised s (Reach-IsSupervised r)
