-- ===== src/Embeddings/Examples.antt =====
-- vector_lake/embedding_scheduler.py: the theorems, applied to small inputs.
use vector_lake.Prelude.{ℕ, ◌≡◌, true, false, none, some, List, [], ◌∷◌, All, arith, refl, map}
use vector_lake.Prelude.Sql.{row_count, fetch_one, update_where}
use vector_lake.Embeddings.{
  EmbeddingRateConfig, Item, Reservation, batch_items, reserve_round, tokens_of,
}
use vector_lake.Embeddings.Clients.{
  GenerationState, ClientManager, Attempt, with_generations, reserved_row, attempt, make_room,
  finish, invalidate, release,
}
use vector_lake.Embeddings.Clients.Rows.{taken}
use vector_lake.Embeddings.Clients.History.{World, world, generation_of, Step, Reach}
use vector_lake.Embeddings.Clients.History.Safety.{IsServed, held-IsServed}
use vector_lake.Embeddings.Batches.{flatten, IsBounded, batch_items-partition}
use vector_lake.Embeddings.Rate.{IsWithinRate, reserve_round-IsWithinRate}

abbrev config : EmbeddingRateConfig
config = record { rpm_share = 2; tpm_share = 100; max_batch_items = 2; max_batch_tokens = 50 }

abbrev item : ℕ → ℕ → Item
item k n = record { node_key = k; text = k; tokens = n; content_digest = k }

abbrev items : List Item
items = item 1 30 ∷ item 2 30 ∷ item 3 5 ∷ item 4 70 ∷ []

batch_items-partition_example :
    (flatten (batch_items config items) ≡ items) × All (IsBounded config) (batch_items config items)
batch_items-partition_example = batch_items-partition config items

abbrev reserved : List Reservation
reserved = record { reserved_at = 5; token_count = 60 } ∷ []

reserved-IsWithinRate : IsWithinRate config reserved
unfolding tokens_of
reserved-IsWithinRate = (omega arith, omega arith)

reserve_round-IsWithinRate_example :
    IsWithinRate config (reserve_round config 30 none true 90 reserved).1
reserve_round-IsWithinRate_example =
    reserve_round-IsWithinRate config 30 none true 90 reserved reserved-IsWithinRate

-- A thread reserves a generation for the key 7 and constructs it, and the clients are reset while it
-- holds the client.
abbrev empty : ClientManager
empty = record { epoch = 0; stopped = false; generations = [] }

abbrev one_reserved : ClientManager
one_reserved = with_generations empty (reserved_row 0 7 0 ∷ [])

abbrev none_held : ℕ → ℕ
none_held _ = 0

reserving : attempt 7 0 empty ≡ Attempt.reserved one_reserved
unfolding attempt make_room row_count fetch_one
reserving = refl

constructing_found : generation_of 0 one_reserved ≡ some (reserved_row 0 7 0)
unfolding fetch_one
constructing_found = refl

abbrev one_constructed : World
one_constructed = world (finish 0 false one_reserved) (taken 0 none_held) 1

abbrev one_retired : World
one_retired = world (invalidate false false (finish 0 false one_reserved)) (taken 0 none_held) 1

one_retired-Reach : Reach one_retired
one_retired-Reach =
    Reach.after
      (Reach.after
        (Reach.after Reach.start (Step.reserved 7 empty one_reserved none_held 0 reserving))
        (Step.constructed 0 false (reserved_row 0 7 0) one_reserved none_held 1 constructing_found
          refl))
      (Step.invalidated false false (finish 0 false one_reserved) (taken 0 none_held) 1)

held-IsServed_example : IsServed one_retired 0
held-IsServed_example = held-IsServed one_retired-Reach 0 (omega arith)

-- The client of an older generation that nobody holds is closing.
released_is_closing :
    map
      (λ g. g.state)
      (release 0 (invalidate false false (finish 0 false one_reserved))).generations
    ≡ GenerationState.closing ∷ []
unfolding release invalidate finish update_where
released_is_closing = refl
