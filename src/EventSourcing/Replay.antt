-- ===== src/EventSourcing/Replay.antt =====
-- Streams that are numbered from 1 without a gap, their order, and their replay.
use kafka_ledger_saga.Base.{
  ℕ, ◌+◌, ◌<◌, ◌≡◌, refl, false, List, [], ◌∷◌, ◌++◌, Result, ok, Result-cases, inl, inr, arith,
  eqb, any, length,
}
use kafka_ledger_saga.Errors.{Error}
use kafka_ledger_saga.EventSourcing.Aggregate.{StoredEvent, AggregateRoot, hydrate, replay}
use kafka_ledger_saga.EventSourcing.Tables.{insert_by_sequence, order_by_sequence}

module _ {E : Type 0} where
  -- The sequence numbers are k + 1, k + 2, and so on.
  abbrev pub Numbered : ℕ → List (StoredEvent E) → Type 0
  Numbered k [] = Unit
  Numbered k (r ∷ rows) = (r.sequence ≡ k + 1) × Numbered (k + 1) rows

  insert_by_sequence-first :
      (k : ℕ) (r : StoredEvent E) (rows : List (StoredEvent E))
      → r.sequence ≡ k + 1
      → Numbered (k + 1) rows
      → insert_by_sequence r rows ≡ r ∷ rows
  unfolding insert_by_sequence
  insert_by_sequence-first k r [] e h = refl
  insert_by_sequence-first k r (x ∷ rows) e h = ground arith

  -- Sorting a numbered stream changes nothing.
  pub order_by_sequence-Numbered :
      (k : ℕ) (rows : List (StoredEvent E)) → Numbered k rows → order_by_sequence rows ≡ rows
  unfolding order_by_sequence
  order_by_sequence-Numbered k [] h = refl
  order_by_sequence-Numbered k (r ∷ rows) h =
      rw (order_by_sequence-Numbered (k + 1) rows h.1) (insert_by_sequence-first k r rows h.0 h.1)

  pub Numbered-append_one :
      (k : ℕ) (rows : List (StoredEvent E)) (r : StoredEvent E)
      → Numbered k rows
      → r.sequence ≡ k + length rows + 1
      → Numbered k (rows ++ r ∷ [])
  Numbered-append_one k [] r h e = (omega arith, tt)
  Numbered-append_one k (x ∷ rows) r h e =
      (h.0, Numbered-append_one (k + 1) rows r h.1 (omega arith))

  -- No row of a numbered stream has a number past its end.
  pub any-sequence_past_end :
      (k n : ℕ) (rows : List (StoredEvent E))
      → Numbered k rows
      → k + length rows < n
      → any (λ r. eqb r.sequence n) rows ≡ false
  any-sequence_past_end k n [] h lt = refl
  any-sequence_past_end k n (x ∷ rows) h lt =
      ground (arith, any-sequence_past_end (k + 1) n rows h.1)

module _ {E S : Type 0} (when : E → S → Result Error S) where
  pub replay-append_one :
      (s t : S) (rows : List (StoredEvent E)) (r : StoredEvent E)
      → replay when s rows ≡ ok t
      → replay when s (rows ++ r ∷ []) ≡ when r.event t
  unfolding replay
  replay-append_one s t [] r h = ground arith
  replay-append_one s t (x ∷ rows) r h = elim (Result-cases (when x.event s)) [
    | inl (s', e) ↦ rw e (replay-append_one s' t rows r (rw (e, replay) at h))
    | inr (x', e) ↦ ground arith
  ]

  -- Hydration replays the state, and ends at the number of the last event.
  pub hydrate-replay :
      (k : ℕ) (t : S) (a : AggregateRoot E S) (rows : List (StoredEvent E))
      → a.version ≡ k
      → Numbered k rows
      → replay when a.state rows ≡ ok t
      → hydrate when a rows ≡ ok (record a { state = t; version = k + length rows })
  unfolding hydrate replay
  hydrate-replay k t a [] e n h = ground arith
  hydrate-replay k t a (r ∷ rows) e n h = elim (Result-cases (when r.event a.state)) [
    | inl (s', w) ↦
        let rest =
          hydrate-replay (k + 1) t (record a { state = s'; version = r.sequence }) rows n.0 n.1
            (rw (w, replay) at h) in
        rw (w, hydrate) (rw rest (ground arith))
    | inr (x', w) ↦ ground arith
  ]
