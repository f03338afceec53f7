-- ===== src/Embeddings/Rate.antt =====
-- vector_lake/embedding_scheduler.py, `MinuteRateLimiter.reserve`: the reservations of a minute.
use vector_lake.Prelude.{
  ℕ, ◌+◌, ◌≤◌, ◌≡◌, Bool, true, false, Option, List, [], ◌∷◌, ◌++◌, arith, ltb, if◌then◌else◌,
  Bool-cases, inl, inr, max, length, length-snoc,
}
use vector_lake.Prelude.Sql.{select, length-select-le}
use vector_lake.Embeddings.{
  EmbeddingRateConfig, effective_rpm, effective_tpm, Reservation, tokens_of, is_recent, has_room,
  window_round, reserve_round,
}

-- The reservations stay within the requests and the tokens of a minute.
abbrev pub IsWithinRate : EmbeddingRateConfig → List Reservation → Type 0
IsWithinRate c rows = (length rows ≤ effective_rpm c) × (tokens_of rows ≤ effective_tpm c)

tokens_of-select :
    (p : Reservation → Bool) (xs : List Reservation) → tokens_of (select p xs) ≤ tokens_of xs
unfolding select tokens_of
tokens_of-select p [] = omega arith
tokens_of-select p (x ∷ xs) = ground (arith, tokens_of-select p xs)

tokens_of-snoc :
    (xs : List Reservation) (r : Reservation)
    → tokens_of (xs ++ r ∷ []) ≡ tokens_of xs + r.token_count
unfolding tokens_of
tokens_of-snoc [] r = omega arith
tokens_of-snoc (x ∷ xs) r = omega (arith, tokens_of-snoc xs r)

window_round-IsWithinRate :
    (c : EmbeddingRateConfig) (request : ℕ) (remaining : Option ℕ) (durable : Bool) (now : ℕ)
    (rows : List Reservation)
    → IsWithinRate c rows
    → IsWithinRate c (window_round c request remaining durable now rows).1
unfolding window_round
window_round-IsWithinRate c request remaining true now rows h =
    let recent = select (is_recent now) rows in
    let new : Reservation = record { reserved_at = now; token_count = request } in
    let n = length-select-le (is_recent now) rows in
    let t = tokens_of-select (is_recent now) rows in
    elim (Bool-cases (has_room c request recent)) [
      | inl room ↦
          rw (room, if◌then◌else◌)
            (let counted = length-snoc recent new in
              let summed = tokens_of-snoc recent new in
              (ground (arith, counted, room), ground (arith, summed, room)))
      | inr over ↦ rw (over, if◌then◌else◌) (omega (arith, n, h.0), omega (arith, t, h.1))
    ]
window_round-IsWithinRate c request remaining false now rows h =
    elim (Bool-cases (has_room c request (select (is_recent now) rows))) [
      | inl room ↦ rw (room, if◌then◌else◌) h
      | inr over ↦ rw (over, if◌then◌else◌) h
    ]

-- Every round of `reserve`, granted or not, durable or not, leaves at most the requests and the
-- tokens of a minute reserved, if that held before.
pub reserve_round-IsWithinRate :
    (c : EmbeddingRateConfig) (request : ℕ) (remaining : Option ℕ) (durable : Bool) (now : ℕ)
    (rows : List Reservation)
    → IsWithinRate c rows
    → IsWithinRate c (reserve_round c request remaining durable now rows).1
unfolding reserve_round
reserve_round-IsWithinRate c request remaining durable now rows h =
    elim (Bool-cases (ltb (effective_tpm c) (max 1 request))) [
      | inl bad ↦ rw (bad, if◌then◌else◌) h
      | inr good ↦
          rw (good, if◌then◌else◌)
            (window_round-IsWithinRate c (max 1 request) remaining durable now rows h)
    ]
