-- ===== src/Embeddings/Clients/History/Borrowing.antt =====
-- vector_lake/embedding_scheduler.py, `_ClientManager.borrow`: its blocks keep the manager consistent.
use vector_lake.Prelude.{
  ℕ, ◌+◌, ◌<◌, ◌≡◌, Bool, true, false, ◌&&◌, ◌==◌, ==_iff, Option, none, some, [], ◌∷◌, ◌++◌, map,
  length, length-snoc, ltb, All, Bool-cases, inl, inr, refl, sym, ◌∙◌, ap, subst, arith,
  if◌then◌else◌, &&-eq-true, ◌≢◌,
}
use vector_lake.Prelude.Sql.{
  find_key-key, fetch_one, update_where, row_count, All-imp, All-update_where, All-fetch_one,
  All-find_key,
}
use vector_lake.Prelude.Keys.{All-append, All-same, All-both, All-found, IsKeyed-snoc}
use vector_lake.Embeddings.Clients.{
  GenerationState, ClientGeneration, ClientManager, Attempt, is_active, is_closable,
  is_constructing, settled_row, borrowed_row, constructed_row, reserved_row, with_generations,
  make_room, attempt, is_unwanted, finish,
}
use vector_lake.Embeddings.Clients.Rows.{
  taken, IsSound, allowed-constructed, borrowed_row-IsSound, other-taken,
}
use vector_lake.Embeddings.Clients.Changes.{is_listed-snoc, listed_of_found}
use vector_lake.Embeddings.Clients.History.{world, generation_of, IsConsistent}
use vector_lake.Embeddings.Clients.History.Keeping.{
  by_id, update_same, kept, settle-IsConsistent, held_of_idle,
}

-- What a round of `borrow` leaves.
unfoldable pub Leaves : (ℕ → ℕ) → ℕ → Attempt → Type 0
Leaves held next Attempt.refused = Unit
Leaves held next (Attempt.borrowed i m) = IsConsistent (world m (taken i held) next)
Leaves held next (Attempt.reserved m) = IsConsistent (world m held (next + 1))
Leaves held next (Attempt.waits m) = IsConsistent (world m held next)

reserve-IsConsistent :
    (key : ℕ) (m : ClientManager) (held : ℕ → ℕ) (next : ℕ)
    → IsConsistent (world m held next)
    → ltb (length m.generations) 2 ≡ true
    → IsConsistent (
        world
          (with_generations m (m.generations ++ reserved_row next key m.epoch ∷ []))
          held
          (next + 1))
reserve-IsConsistent key m held next c room =
    let row = reserved_row next key m.epoch in
    let wider : All (IsSound held (next + 1) m) m.generations =
      All-imp (IsSound held next m) (IsSound held (next + 1) m)
        (λ g ((counted, known), allowed). ((counted, omega (arith, known)), allowed)) m.generations
        c.sound in
    record {
      keyed =
          IsKeyed-snoc (λ g. g.id) m.generations row c.keyed
            (All-imp (IsSound held next m) (λ g. g.id ≢ next) (λ g h e. omega (arith, h.0.1, e))
              m.generations c.sound);
      few = ground (arith, length-snoc m.generations row, room);
      sound =
          All-append (IsSound held (next + 1) m) m.generations (row ∷ []) wider
            (((sym (c.fresh next (omega arith)), omega arith), ground arith), tt);
      listed = λ i h. is_listed-snoc i m.generations row (c.listed i h);
      fresh = λ i h. c.fresh i (omega (arith, h));
    }

make_room-Leaves :
    (key : ℕ) (m : ClientManager) (held : ℕ → ℕ) (next : ℕ)
    → IsConsistent (world m held next)
    → Leaves held next (make_room key next m)
unfolding make_room Leaves
make_room-Leaves key m held next c =
    let settled = map settled_row m.generations in
    let s = settle-IsConsistent m held next c in
    let test =
      row_count is_closable m.generations == 0
      && ltb (length settled) 2
      && row_count (λ g. is_constructing g.state) settled == 0 in
    elim (Bool-cases test) [
      | inl e ↦
          rw (e, if◌then◌else◌)
            (reserve-IsConsistent key (with_generations m settled) held next s
              (&&-eq-true (&&-eq-true e).0).1)
      | inr e ↦ rw (e, if◌then◌else◌) s
    ]

-- The row that is taken is the only one with its identity.
take-IsConsistent :
    (g : ClientGeneration) (m : ClientManager) (held : ℕ → ℕ) (next : ℕ)
    → IsConsistent (world m held next)
    → generation_of g.id m ≡ some g
    → is_active g.state ≡ true
    → IsConsistent (
        world
          (with_generations m (update_where (by_id g.id) borrowed_row m.generations))
          (taken g.id held)
          next)
take-IsConsistent g m held next c found active =
    let same : All (λ x. x.id ≡ g.id → x ≡ g) m.generations =
      All-same (λ x. x.id) g.id m.generations c.keyed found in
    let known : g.id < next =
      (All-find_key (λ x. x.id) (IsSound held next m) g.id m.generations c.sound found).0.1 in
    kept m (with_generations m (update_where (by_id g.id) borrowed_row m.generations)) held
      (taken g.id held) next c (update_same (by_id g.id) borrowed_row (λ x. refl) m.generations)
      (All-update_where (λ x. IsSound held next m x × (x.id ≡ g.id → x ≡ g))
        (IsSound (taken g.id held) next m) (by_id g.id) borrowed_row
        (λ x (h, one) e.
          borrowed_row-IsSound held next m g.id x h
            (rw (one ((==_iff x.id g.id).0 e)) (ground (arith, active))) e)
        (λ x (h, _) e. other-taken held next m g.id x h e) m.generations
        (All-both (IsSound held next m) (λ x. x.id ≡ g.id → x ≡ g) m.generations c.sound same))
      (λ i h. elim (Bool-cases (i == g.id)) [
        | inl e ↦ rw ((==_iff i g.id).0 e) (listed_of_found g.id m.generations found)
        | inr e ↦ c.listed i (rw (e, if◌then◌else◌) at h)
      ])
      (λ i h. ground (arith, c.fresh i h, known, h))

chosen-Leaves :
    (held : ℕ → ℕ) (next : ℕ) (stopped : Bool) (selected : Option ClientGeneration)
    (f : ClientGeneration → Attempt) (rest : Attempt)
    → ((g : ClientGeneration) → selected ≡ some g → Leaves held next (f g))
    → Leaves held next rest
    → Leaves held next
        (if stopped then Attempt.refused else elim selected [ some g ↦ f g | none ↦ rest ])
unfolding Leaves
chosen-Leaves held next true selected f rest on off = tt
chosen-Leaves held next false none f rest on off = off
chosen-Leaves held next false (some g) f rest on off = on g refl

pub attempt-Leaves :
    (key : ℕ) (m : ClientManager) (held : ℕ → ℕ) (next : ℕ)
    → IsConsistent (world m held next)
    → Leaves held next (attempt key next m)
unfolding attempt Leaves
attempt-Leaves key m held next c =
    let wanted = λ (g : ClientGeneration). is_active g.state && g.key == key in
    chosen-Leaves held next m.stopped (fetch_one wanted m.generations)
      (λ g.
        Attempt.borrowed g.id
          (with_generations m (update_where (by_id g.id) borrowed_row m.generations)))
      (make_room key next m)
      (λ g found.
        let (once, on) =
          All-fetch_one (λ x. generation_of x.id m ≡ some x) wanted m.generations
            (All-found (λ x. x.id) m.generations c.keyed) found in
        take-IsConsistent g m held next c once (&&-eq-true on).0)
      (make_room-Leaves key m held next c)

-- The callers that hold a client after the construction of the generation.
abbrev pub held_after : ℕ → Bool → ClientManager → ClientGeneration → (ℕ → ℕ) → ℕ → ℕ
held_after i expired m g held = if is_unwanted expired m g then held else taken i held

constructed_row-IsSound :
    (expired : Bool) (g : ClientGeneration) (m : ClientManager) (held : ℕ → ℕ) (next : ℕ)
    → IsSound held next m g
    → held g.id ≡ 0
    → IsSound (held_after g.id expired m g held) next m (constructed_row expired m g)
constructed_row-IsSound expired g m held next ((counted, known), _) unheld =
    let allowed = allowed-constructed expired m g (counted ∙ unheld) in
    elim (Bool-cases (is_unwanted expired m g)) [
      | inl e ↦ ((ground (arith, counted, e), ground (arith, known, e)), allowed)
      | inr e ↦ ((ground (arith, unheld, e), ground (arith, known, e)), allowed)
    ]

other-held_after :
    (i : ℕ) (expired : Bool) (g x : ClientGeneration) (m : ClientManager) (held : ℕ → ℕ) (next : ℕ)
    → IsSound held next m x
    → (x.id == i) ≡ false
    → IsSound (held_after i expired m g held) next m x
other-held_after i expired g x m held next h e = elim (Bool-cases (is_unwanted expired m g)) [
  | inl b ↦ rw (b, if◌then◌else◌) h
  | inr b ↦ rw (b, if◌then◌else◌) (other-taken held next m i x h e)
]

module _ (i : ℕ) (expired : Bool) (g : ClientGeneration) (m : ClientManager) (held : ℕ → ℕ)
    (next : ℕ) (c : IsConsistent (world m held next)) (found : generation_of i m ≡ some g)
    (state : g.state ≡ GenerationState.constructing) where
  finish-IsSound :
      All
        (IsSound (held_after i expired m g held) next m)
        (update_where (by_id i) (constructed_row expired m) m.generations)
  finish-IsSound =
      let unheld : held i ≡ 0 = held_of_idle m held next c i g found (rw state refl) in
      All-update_where (λ x. IsSound held next m x × (x.id ≡ i → x ≡ g))
        (IsSound (held_after i expired m g held) next m) (by_id i) (constructed_row expired m)
        (λ x (h, one) e.
          let same : x.id ≡ i = (==_iff x.id i).0 e in
          subst (λ y. IsSound (held_after i expired m y held) next m (constructed_row expired m x))
            (one same)
            (subst
              (λ j. IsSound (held_after j expired m x held) next m (constructed_row expired m x))
              same (constructed_row-IsSound expired x m held next h (ap held same ∙ unheld))))
        (λ x (h, _) e. other-held_after i expired g x m held next h e) m.generations
        (All-both (IsSound held next m) (λ x. x.id ≡ i → x ≡ g) m.generations c.sound
          (All-same (λ x. x.id) i m.generations c.keyed found))

  pub finish-IsConsistent :
      IsConsistent (world (finish i expired m) (held_after i expired m g held) next)
  unfolding finish
  finish-IsConsistent =
      let known : g.id < next =
        (All-find_key (λ x. x.id) (IsSound held next m) i m.generations c.sound found).0.1 in
      let same : g.id ≡ i = find_key-key (λ x. x.id) i m.generations found in
      kept m (finish i expired m) held (held_after i expired m g held) next c
        (update_same (by_id i) (constructed_row expired m) (λ x. ground arith) m.generations)
        finish-IsSound
        (λ j h. elim (Bool-cases (j == i)) [
          | inl e ↦ rw ((==_iff j i).0 e) (listed_of_found i m.generations found)
          | inr e ↦ c.listed j (ground (arith, h, e))
        ])
        (λ j h. ground (arith, c.fresh j h, known, same, h))
