-- ===== src/Outbox/Marks.antt =====
-- The rows of a batch and the rows of the table that have their keys, while the table is updated.
use kafka_ledger_saga.Base.{
  ℕ, String, ◌≡◌, refl, inl, inr, Bool, true, false, Bool-cases, not, ◌&&◌, List, [], ◌∷◌, map,
  Result, ok, err, ◌==◌, eq_iff, filter, arith, All, any, leb, All-filter, All-take,
}
use kafka_ledger_saga.Contracts.{Fields}
use kafka_ledger_saga.Errors.{Error, kafka_unavailable}
use kafka_ledger_saga.EventSourcing.{OutboxRow}
use kafka_ledger_saga.Kafka.{publish_as}
use kafka_ledger_saga.Outbox.Relay.{
  RelayState, RelayWorld, is_unpublished, order_by_created, insert_by_created, select_batch,
  update_by_id, mark_published, count_attempt, message_of, after_send, relay_row,
}

module _ {E : Type 0} (P : OutboxRow E → Type 0) where
  All-insert :
      (row : OutboxRow E) (rows : List (OutboxRow E))
      → P row
      → All P rows
      → All P (insert_by_created row rows)
  All-insert row [] p h = (p, tt)
  All-insert row (x ∷ rows) p (q, h) = elim (Bool-cases (leb row.created_at x.created_at)) [
    | inl e ↦ rw e (p, (q, h))
    | inr e ↦ rw e (q, All-insert row rows p h)
  ]

  pub All-order : (rows : List (OutboxRow E)) → All P rows → All P (order_by_created rows)
  All-order [] h = tt
  All-order (row ∷ rows) (p, h) = All-insert row (order_by_created rows) p (All-order rows h)

  pub All-update :
      (id : String) (f : OutboxRow E → OutboxRow E)
      → ((r : OutboxRow E) → (r.id == id) ≡ true → P r → P (f r))
      → (rows : List (OutboxRow E)) → All P rows
      → All P (update_by_id id f rows)
  All-update id f keep [] h = tt
  All-update id f keep (r ∷ rows) (p, h) = elim (Bool-cases (r.id == id)) [
    | inl e ↦ rw e (keep r e p, All-update id f keep rows h)
    | inr e ↦ rw e (p, All-update id f keep rows h)
  ]

  -- What holds of every row holds of every row of a batch.
  pub All-select_batch :
      (locked : String → Bool) (n : ℕ) (rows : List (OutboxRow E))
      → All P rows
      → All P (select_batch locked n rows)
  unfolding select_batch
  All-select_batch locked n rows h =
      let p = λ (r : OutboxRow E). is_unpublished r && not (locked r.id) in
      All-take P n (order_by_created (filter p rows))
        (All-order (filter p rows) (All-filter P p rows h))

-- The primary key.
abbrev pub IsDistinct : List String → Type 0
IsDistinct [] = Unit
IsDistinct (x ∷ xs) = (any (λ y. y == x) xs ≡ false) × IsDistinct xs

abbrev pub ids : {E : Type 0} → List (OutboxRow E) → List String
ids = map (λ r. r.id)

module _ {E : Type 0} (event_type : E → String) (event_fields : E → Fields) where
  -- The rows that have the key of `row` give the same message.
  abbrev pub Agrees : OutboxRow E → List (OutboxRow E) → Type 0
  Agrees row rows =
      All
        (λ r.
          (r.id == row.id) ≡ true
          → message_of event_type event_fields r ≡ message_of event_type event_fields row)
        rows

  not_there :
      (row : OutboxRow E) (rows : List (OutboxRow E))
      → any (λ y. y == row.id) (ids rows) ≡ false
      → Agrees row rows
  not_there row [] h = tt
  not_there row (r ∷ rows) h = (λ e. ground arith, not_there row rows (ground arith))

  agree_head :
      (r : OutboxRow E) (rest rows : List (OutboxRow E))
      → any (λ y. y == r.id) (ids rest) ≡ false
      → All (λ row. Agrees row rows) rest
      → All (λ row. Agrees row (r ∷ rows)) rest
  agree_head r [] rows h all = tt
  agree_head r (row ∷ rest) rows h (p, all) = (
    (λ e. ground (arith, eq_iff r.id row.id, eq_iff row.id r.id), p),
    agree_head r rest rows (ground arith) all,
  )

  pub distinct_agree :
      (rows : List (OutboxRow E)) → IsDistinct (ids rows) → All (λ row. Agrees row rows) rows
  distinct_agree [] h = tt
  distinct_agree (r ∷ rows) (fresh, h) =
      ((λ _. refl, not_there r rows fresh), agree_head r rows rows fresh (distinct_agree rows h))

  after_send-Agrees :
      (now : ℕ) (id : String) (r : Result Error (Unit {0})) (row : OutboxRow E)
      (rows : List (OutboxRow E))
      → Agrees row rows
      → Agrees row (after_send event_type event_fields now id r rows)
  after_send-Agrees now id (ok _) row rows = All-update _ id (mark_published now) (λ _ _ h. h) rows
  after_send-Agrees now id (err _) row rows = All-update _ id count_attempt (λ _ _ h. h) rows

  pub relay_row-Agrees :
      (world : RelayWorld) (row other : OutboxRow E) (s : RelayState E)
      → Agrees other s.rows
      → Agrees other (relay_row event_type event_fields world row s).rows
  unfolding relay_row publish_as
  relay_row-Agrees world row other s h = elim (Bool-cases (world.accepts s.broker.attempts)) [
    | inl e ↦ rw e (after_send-Agrees world.now row.id (ok tt) other s.rows h)
    | inr e ↦ rw e (after_send-Agrees world.now row.id (err kafka_unavailable) other s.rows h)
  ]
