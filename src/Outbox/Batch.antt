-- ===== src/Outbox/Batch.antt =====
-- The rows of a batch: their number, their keys, and that each waits in the table.
use kafka_ledger_saga.Base.{
  ℕ, zero, suc, ◌≤◌, ◌<◌, String, ◌≡◌, refl, ap, ◌∙◌, ◌⊎◌, inl, inr, Bool, true, false, Bool-cases,
  not, ◌&&◌, ◌||◌, List, [], ◌∷◌, ◌==◌, ==_refl, eq_iff, filter, take, length, arith, All, any, leb,
  All-map, All-take,
}
use kafka_ledger_saga.EventSourcing.{OutboxRow}
use kafka_ledger_saga.Outbox.Relay.{
  is_unpublished, order_by_created, insert_by_created, select_batch, update_by_id, mark_published,
}
use kafka_ledger_saga.Outbox.Marks.{IsDistinct, ids, All-order}

module _ {E : Type 0} where
  abbrev pub unpublished : List (OutboxRow E) → ℕ
  unpublished rows = length (filter is_unpublished rows)

  length-insert :
      (row : OutboxRow E) (rows : List (OutboxRow E))
      → length (insert_by_created row rows) ≡ suc (length rows)
  length-insert row [] = refl
  length-insert row (x ∷ rows) = elim (Bool-cases (leb row.created_at x.created_at)) [
    | inl e ↦ rw e refl
    | inr e ↦ rw e (ap suc (length-insert row rows))
  ]

  length-order : (rows : List (OutboxRow E)) → length (order_by_created rows) ≡ length rows
  length-order [] = refl
  length-order (row ∷ rows) = length-insert row (order_by_created rows) ∙ ap suc (length-order rows)

  length-take :
      (n : ℕ) (rows : List (OutboxRow E))
      → (length (take n rows) ≤ n)
        × ((length (take n rows) ≡ n) ⊎ (length (take n rows) ≡ length rows))
  length-take zero rows = (omega arith, inl refl)
  length-take (suc n) [] = (omega arith, inr refl)
  length-take (suc n) (r ∷ rows) =
      (omega (arith, length-take n rows), ground (arith, length-take n rows))

  any-ids-insert :
      (p : String → Bool) (row : OutboxRow E) (rows : List (OutboxRow E))
      → any p (ids (insert_by_created row rows)) ≡ (p row.id || any p (ids rows))
  any-ids-insert p row [] = refl
  any-ids-insert p row (x ∷ rows) = elim (Bool-cases (leb row.created_at x.created_at)) [
    | inl e ↦ rw e refl
    | inr e ↦ rw e (ground (arith, any-ids-insert p row rows))
  ]

  any-ids-order :
      (p : String → Bool) (rows : List (OutboxRow E))
      → any p (ids (order_by_created rows)) ≡ any p (ids rows)
  any-ids-order p [] = refl
  any-ids-order p (row ∷ rows) =
      ground (arith, any-ids-insert p row (order_by_created rows), any-ids-order p rows)

  any-ids-take :
      (p : String → Bool) (n : ℕ) (rows : List (OutboxRow E))
      → any p (ids rows) ≡ false
      → any p (ids (take n rows)) ≡ false
  any-ids-take p zero rows h = refl
  any-ids-take p (suc n) [] h = refl
  any-ids-take p (suc n) (r ∷ rows) h = ground (arith, any-ids-take p n rows)

  any-ids-filter :
      (p : String → Bool) (q : OutboxRow E → Bool) (rows : List (OutboxRow E))
      → any p (ids rows) ≡ false
      → any p (ids (filter q rows)) ≡ false
  any-ids-filter p q [] h = refl
  any-ids-filter p q (r ∷ rows) h = elim (Bool-cases (q r)) [
    | inl e ↦ rw e (ground (arith, any-ids-filter p q rows))
    | inr e ↦ rw e (any-ids-filter p q rows (ground arith))
  ]

  insert-IsDistinct :
      (row : OutboxRow E) (rows : List (OutboxRow E))
      → any (λ y. y == row.id) (ids rows) ≡ false
      → IsDistinct (ids rows)
      → IsDistinct (ids (insert_by_created row rows))
  insert-IsDistinct row [] fresh h = (refl, tt)
  insert-IsDistinct row (x ∷ rows) fresh (h, hs) =
      elim (Bool-cases (leb row.created_at x.created_at)) [
        | inl e ↦ rw e (fresh, (h, hs))
        | inr e ↦ rw e (
          any-ids-insert (λ y. y == x.id) row rows
              ∙ ground (arith, eq_iff row.id x.id, eq_iff x.id row.id),
          insert-IsDistinct row rows (ground arith) hs,
        )
      ]

  order-IsDistinct :
      (rows : List (OutboxRow E)) → IsDistinct (ids rows) → IsDistinct (ids (order_by_created rows))
  order-IsDistinct [] h = tt
  order-IsDistinct (row ∷ rows) (fresh, h) =
      insert-IsDistinct row (order_by_created rows) (any-ids-order (λ y. y == row.id) rows ∙ fresh)
        (order-IsDistinct rows h)

  take-IsDistinct :
      (n : ℕ) (rows : List (OutboxRow E)) → IsDistinct (ids rows) → IsDistinct (ids (take n rows))
  take-IsDistinct zero rows h = tt
  take-IsDistinct (suc n) [] h = tt
  take-IsDistinct (suc n) (r ∷ rows) (fresh, h) =
      (any-ids-take (λ y. y == r.id) n rows fresh, take-IsDistinct n rows h)

  filter-IsDistinct :
      (q : OutboxRow E → Bool) (rows : List (OutboxRow E))
      → IsDistinct (ids rows)
      → IsDistinct (ids (filter q rows))
  filter-IsDistinct q [] h = tt
  filter-IsDistinct q (r ∷ rows) (fresh, h) = elim (Bool-cases (q r)) [
    | inl e ↦ rw e (any-ids-filter (λ y. y == r.id) q rows fresh, filter-IsDistinct q rows h)
    | inr e ↦ rw e (filter-IsDistinct q rows h)
  ]

  -- A row with this key waits to be published.
  abbrev pub Waits : String → List (OutboxRow E) → Type 0
  Waits id rows = any (λ r. r.id == id && is_unpublished r) rows ≡ true

  mark_le :
      (now : ℕ) (id : String) (rows : List (OutboxRow E))
      → unpublished (update_by_id id (mark_published now) rows) ≤ unpublished rows
  mark_le now id [] = omega arith
  mark_le now id (r ∷ rows) = ground (arith, mark_le now id rows)

  -- Marking a row that waits leaves one row less.
  pub mark_lt :
      (now : ℕ) (id : String) (rows : List (OutboxRow E))
      → Waits id rows
      → unpublished (update_by_id id (mark_published now) rows) < unpublished rows
  mark_lt now id [] h = cc
  mark_lt now id (r ∷ rows) h = ground (arith, mark_le now id rows, mark_lt now id rows)

  mark-Waits :
      (now : ℕ) (id other : String) (rows : List (OutboxRow E))
      → (other == id) ≡ false
      → Waits other rows
      → Waits other (update_by_id id (mark_published now) rows)
  mark-Waits now id other [] ne h = h
  mark-Waits now id other (r ∷ rows) ne h =
      ground
        (arith, eq_iff r.id id, eq_iff r.id other, eq_iff other id, mark-Waits now id other rows)

  pub rest_wait :
      (now : ℕ) (id : String) (rest rows : List (OutboxRow E))
      → any (λ y. y == id) (ids rest) ≡ false
      → All (λ b. Waits b.id rows) rest
      → All (λ b. Waits b.id (update_by_id id (mark_published now) rows)) rest
  rest_wait now id [] rows h all = tt
  rest_wait now id (b ∷ rest) rows h (w, all) =
      (mark-Waits now id b.id rows (ground arith) w, rest_wait now id rest rows (ground arith) all)

  self_wait :
      (rows : List (OutboxRow E)) → All (λ b. is_unpublished b ≡ true → Waits b.id rows) rows
  self_wait [] = tt
  self_wait (r ∷ rows) =
      (λ u. rw (==_refl r.id, u) refl, All-map (λ b w u. ground (arith, w u)) rows (self_wait rows))

  filter_sat :
      (P Q : OutboxRow E → Type 0) (q : OutboxRow E → Bool)
      → ((r : OutboxRow E) → q r ≡ true → P r → Q r)
      → (rows : List (OutboxRow E)) → All P rows
      → All Q (filter q rows)
  filter_sat P Q q f [] h = tt
  filter_sat P Q q f (r ∷ rows) (p, h) = elim (Bool-cases (q r)) [
    | inl e ↦ rw e (f r e p, filter_sat P Q q f rows h)
    | inr e ↦ rw e (filter_sat P Q q f rows h)
  ]

  pub select_batch-Waits :
      (locked : String → Bool) (n : ℕ) (rows : List (OutboxRow E))
      → All (λ b. Waits b.id rows) (select_batch locked n rows)
  unfolding select_batch
  select_batch-Waits locked n rows =
      let q = λ (r : OutboxRow E). is_unpublished r && not (locked r.id) in
      let P = λ (b : OutboxRow E). Waits b.id rows in
      All-take P n (order_by_created (filter q rows)) (
        All-order P (filter q rows) (
          filter_sat (λ b. is_unpublished b ≡ true → Waits b.id rows) P q
            (λ r e w. w (ground arith)) rows (self_wait rows)))

  pub select_batch-IsDistinct :
      (locked : String → Bool) (n : ℕ) (rows : List (OutboxRow E))
      → IsDistinct (ids rows)
      → IsDistinct (ids (select_batch locked n rows))
  unfolding select_batch
  select_batch-IsDistinct locked n rows h =
      let q = λ (r : OutboxRow E). is_unpublished r && not (locked r.id) in
      take-IsDistinct n (order_by_created (filter q rows))
        (order-IsDistinct (filter q rows) (filter-IsDistinct q rows h))

  pub filter_same :
      (p q : OutboxRow E → Bool)
      → ((r : OutboxRow E) → p r ≡ q r)
      → (rows : List (OutboxRow E)) → filter p rows ≡ filter q rows
  filter_same p q h [] = refl
  filter_same p q h (r ∷ rows) = simp (h r, filter_same p q h rows)

  -- A batch holds all of the unpublished rows, or as many as it may.
  pub length-select_batch :
      (locked : String → Bool) (n : ℕ) (rows : List (OutboxRow E))
      → ((id : String) → locked id ≡ false)
      → (length (select_batch locked n rows) ≡ n)
        ⊎ (length (select_batch locked n rows) ≡ unpublished rows)
  unfolding select_batch
  length-select_batch locked n rows free =
      rw
        (filter_same (λ r. is_unpublished r && not (locked r.id)) is_unpublished
          (λ r. ground (arith, free r.id)) rows)
        (ground (
          arith,
          length-take n (order_by_created (filter is_unpublished rows)),
          length-order (filter is_unpublished rows),
        ))

  pub length-select_batch_le :
      (locked : String → Bool) (n : ℕ) (rows : List (OutboxRow E))
      → length (select_batch locked n rows) ≤ n
  unfolding select_batch
  length-select_batch_le locked n rows =
      (length-take n
        (order_by_created (filter (λ r. is_unpublished r && not (locked r.id)) rows))).0
