-- ===== src/Embeddings/Clients/History/Keeping.antt =====
-- vector_lake/embedding_scheduler.py, `_ClientManager`: every block keeps the manager consistent.
use vector_lake.Prelude.{
  ℕ, ◌≤◌, ◌<◌, ◌≡◌, Bool, true, false, not, ◌==◌, some, List, map, All, refl, sym, ◌∙◌, subst,
  arith,
}
use vector_lake.Prelude.Sql.{
  update_where, All-imp, All-intro, All-select, All-update_where, All-find_key, length-select-le,
  find_key-key,
}
use vector_lake.Prelude.Keys.{Forall2, All-map, IsKeyed-Forall2, Forall2-update_where}
use vector_lake.Embeddings.Clients.{
  ClientGeneration, ClientManager, is_open, settled_row, released_row, failed_row, with_generations,
  invalidate, remove, release, close_fails,
}
use vector_lake.Embeddings.Clients.Rows.{
  given_back, IsSound, allowed-settled, other-given_back, released_row-IsSound,
}
use vector_lake.Embeddings.Clients.Changes.{
  is_listed, SameId, Forall2-map, Forall2-is_listed, Forall2-length, is_listed-select,
  IsKeyed-select,
}
use vector_lake.Embeddings.Clients.History.{world, generation_of, IsConsistent}

abbrev pub by_id : ℕ → ClientGeneration → Bool
by_id i x = x.id == i

pub update_same :
    (p : ClientGeneration → Bool) (f : ClientGeneration → ClientGeneration)
    → ((g : ClientGeneration) → (f g).id ≡ g.id)
    → (gens : List ClientGeneration) → Forall2 SameId gens (update_where p f gens)
update_same p f same gens =
    Forall2-update_where SameId (λ _. Unit {0}) p f (λ x _ _. same x) (λ x. refl) gens
      (All-intro (λ _. Unit {0}) (λ x. tt) gens)

-- A change row by row that keeps the identities.
pub kept :
    (m m' : ClientManager) (held held' : ℕ → ℕ) (next : ℕ)
    → IsConsistent (world m held next)
    → Forall2 SameId m.generations m'.generations
    → All (IsSound held' next m') m'.generations
    → ((i : ℕ) → 0 < held' i → is_listed i m.generations ≡ true)
    → ((i : ℕ) → next ≤ i → held' i ≡ 0)
    → IsConsistent (world m' held' next)
kept m m' held held' next c same sound listed fresh = record {
  keyed = IsKeyed-Forall2 SameId (λ g. g.id) (λ x y e. e) m.generations m'.generations same c.keyed;
  few = subst (λ n. n ≤ 2) (sym (Forall2-length m.generations m'.generations same)) c.few;
  sound = sound;
  listed = λ i h. Forall2-is_listed i m.generations m'.generations same ∙ listed i h;
  fresh = fresh;
}

pub settled_row-id : (g : ClientGeneration) → (settled_row g).id ≡ g.id
settled_row-id g = ground arith

-- The generations after the loop that retires them.
settled-IsSound :
    (held : ℕ → ℕ) (next : ℕ) (m m' : ClientManager)
    → All (IsSound held next m) m.generations
    → All (IsSound held next m') (map settled_row m.generations)
settled-IsSound held next m m' h = All-map (IsSound held next m') settled_row m.generations (
    All-imp (IsSound held next m) (λ g. IsSound held next m' (settled_row g))
      (λ g ((counted, known), allowed). (
        (ground (arith, counted), ground (arith, known)),
        allowed-settled m.epoch m'.epoch m.stopped m'.stopped g allowed,
      ))
      m.generations h)

module _ (m : ClientManager) (held : ℕ → ℕ) (next : ℕ) (c : IsConsistent (world m held next)) where
  pub invalidate-IsConsistent :
      (shutdown reopen : Bool) → IsConsistent (world (invalidate shutdown reopen m) held next)
  unfolding invalidate
  invalidate-IsConsistent shutdown reopen =
      kept m (invalidate shutdown reopen m) held held next c
        (Forall2-map settled_row settled_row-id m.generations)
        (settled-IsSound held next m (invalidate shutdown reopen m) c.sound) c.listed c.fresh

  pub settle-IsConsistent :
      IsConsistent (world (with_generations m (map settled_row m.generations)) held next)
  settle-IsConsistent =
      kept m (with_generations m (map settled_row m.generations)) held held next c
        (Forall2-map settled_row settled_row-id m.generations)
        (settled-IsSound held next m m c.sound) c.listed c.fresh

  pub held_of_idle :
      (i : ℕ) (g : ClientGeneration)
      → generation_of i m ≡ some g
      → is_open g.state ≡ false
      → held i ≡ 0
  held_of_idle i g found idle =
      let ((counted, _), allowed) =
        All-find_key (λ x. x.id) (IsSound held next m) i m.generations c.sound found in
      let same : g.id ≡ i = find_key-key (λ x. x.id) i m.generations found in
      ground (arith, counted, allowed, idle, same)

  held_of_unlisted : (i : ℕ) → is_listed i m.generations ≡ false → held i ≡ 0
  held_of_unlisted i h = ground (arith, c.listed i, h)

  pub remove-IsConsistent : (i : ℕ) → held i ≡ 0 → IsConsistent (world (remove i m) held next)
  unfolding remove
  remove-IsConsistent i none_holds = record {
    keyed = IsKeyed-select (λ g. g.id) (λ g. not (g.id == i)) m.generations c.keyed;
    few = ground (arith, length-select-le (λ g. not (g.id == i)) m.generations, c.few);
    sound =
        All-select (IsSound held next m) (IsSound held next m) (λ g. not (g.id == i)) (λ g h _. h)
          m.generations c.sound;
    listed =
        λ j h. is_listed-select i j m.generations (ground (arith, h, none_holds)) ∙ c.listed j h;
    fresh = c.fresh;
  }

  pub release-IsConsistent :
      (i : ℕ) → 0 < held i → IsConsistent (world (release i m) (given_back i held) next)
  unfolding release
  release-IsConsistent i holds =
      kept m (release i m) held (given_back i held) next c
        (update_same (by_id i) released_row (λ g. refl) m.generations)
        (All-update_where (IsSound held next m) (IsSound (given_back i held) next m) (by_id i)
          released_row (λ g h e. released_row-IsSound held next m i g h e)
          (λ g h e. other-given_back held next m i g h e) m.generations c.sound)
        (λ j h. c.listed j (ground (arith, h))) (λ j h. ground (arith, c.fresh j h))

  pub close_fails-IsConsistent :
      (i : ℕ) → held i ≡ 0 → IsConsistent (world (close_fails i m) held next)
  unfolding close_fails
  close_fails-IsConsistent i none_holds =
      kept m (close_fails i m) held held next c
        (update_same (by_id i) failed_row (λ g. refl) m.generations)
        (All-update_where (IsSound held next m) (IsSound held next m) (by_id i) failed_row
          (λ g ((counted, known), allowed) e.
            ((counted, known), ground (arith, counted, none_holds, e)))
          (λ g h e. h) m.generations c.sound)
        c.listed c.fresh
