-- ===== src/Outbox/Oldest.antt =====
-- Which rows a pass of the relay takes, and in what order it sends them.
use mathlib.Core.List.{Perm}
use mathlib.Core.List.Perm
use kafka_ledger_saga.Base.{
  ℕ, zero, suc, ◌≤◌, String, ◌≡◌, refl, ◌∙◌, ap, ◌⊎◌, inl, inr, Bool, true, Bool-cases, not, ◌&&◌,
  List, [], ◌∷◌, ◌++◌, map, filter, take, length, length-map, leb, All, All-map, arith, ok,
}
use kafka_ledger_saga.Contracts.{Fields}
use kafka_ledger_saga.EventSourcing.{OutboxRow}
use kafka_ledger_saga.Outbox.Relay.{
  RelayWorld, RelayState, relay, is_unpublished, insert_by_created, order_by_created, select_batch,
  message_of,
}
use kafka_ledger_saga.Outbox.Passes.{relay-sends}

module _ {E : Type 0} where
  -- No row was created after a later one of the list.
  abbrev pub IsOldestFirst : List (OutboxRow E) → Type 0
  IsOldestFirst [] = Unit
  IsOldestFirst (r ∷ rest) = All (λ x. r.created_at ≤ x.created_at) rest × IsOldestFirst rest

  -- The rows that wait and that no other relay has locked.
  abbrev pub unlocked_rows : (String → Bool) → List (OutboxRow E) → List (OutboxRow E)
  unlocked_rows locked = filter (λ r. is_unpublished r && not (locked r.id))

  insert-Perm :
      (r : OutboxRow E) (rows : List (OutboxRow E)) → Perm (insert_by_created r rows) (r ∷ rows)
  insert-Perm r [] = Perm.rfl
  insert-Perm r (x ∷ rows) = elim (Bool-cases (leb r.created_at x.created_at)) [
    | inl e ↦ rw e Perm.rfl
    | inr e ↦ rw e (Perm.trans (Perm.cons x (insert-Perm r rows)) (Perm.swap r x rows))
  ]

  order-Perm : (rows : List (OutboxRow E)) → Perm (order_by_created rows) rows
  order-Perm [] = Perm.rfl
  order-Perm (r ∷ rows) =
      Perm.trans (insert-Perm r (order_by_created rows)) (Perm.cons r (order-Perm rows))

  All-insert :
      (P : OutboxRow E → Type 0) (r : OutboxRow E) (rows : List (OutboxRow E))
      → P r
      → All P rows
      → All P (insert_by_created r rows)
  All-insert P r [] p h = (p, tt)
  All-insert P r (x ∷ rows) p (q, h) = elim (Bool-cases (leb r.created_at x.created_at)) [
    | inl e ↦ rw e (p, (q, h))
    | inr e ↦ rw e (q, All-insert P r rows p h)
  ]

  insert-IsOldestFirst :
      (r : OutboxRow E) (rows : List (OutboxRow E))
      → IsOldestFirst rows
      → IsOldestFirst (insert_by_created r rows)
  insert-IsOldestFirst r [] h = (tt, tt)
  insert-IsOldestFirst r (x ∷ rows) (below, h) = elim (Bool-cases (leb r.created_at x.created_at)) [
    | inl e ↦
        let le : r.created_at ≤ x.created_at = ground arith in
        rw e ((le, All-map (λ y k. omega arith) rows below), (below, h))
    | inr e ↦ rw e (
      All-insert (λ y. x.created_at ≤ y.created_at) r rows (ground arith) below,
      insert-IsOldestFirst r rows h,
    )
  ]

  order-IsOldestFirst : (rows : List (OutboxRow E)) → IsOldestFirst (order_by_created rows)
  order-IsOldestFirst [] = tt
  order-IsOldestFirst (r ∷ rows) =
      insert-IsOldestFirst r (order_by_created rows) (order-IsOldestFirst rows)

  -- A list in two parts, the first as long as it may be.
  split :
      (n : ℕ) (rows : List (OutboxRow E))
      → (rest : List (OutboxRow E)) × (take n rows ++ rest ≡ rows)
        × (length (take n rows) ≤ n)
        × ((rest ≡ []) ⊎ (length (take n rows) ≡ n))
  split zero rows = (rows, refl, omega arith, inr refl)
  split (suc n) [] = ([], refl, omega arith, inl refl)
  split (suc n) (r ∷ rows) =
      let (rest, e, le, full) = split n rows in (rest, ap (λ x. r ∷ x) e, omega arith, ground arith)

module _ {E : Type 0} (event_type : E → String) (event_fields : E → Fields) where
  -- A pass whose sends are all acknowledged and whose transaction commits splits the rows that are
  -- unpublished and not locked, ordered from the oldest to the newest, into a batch and a rest, and
  -- sends exactly the messages of the batch, in this order. The batch has at most the given size, and
  -- just this size if a row is left for later. The pass returns the number of messages.
  pub relay-IsOldestFirst :
      (world : RelayWorld) (n : ℕ) (s : RelayState E)
      → ((i : ℕ) → world.accepts i ≡ true)
      → world.commits ≡ true
      → (batch : List (OutboxRow E)) × (rest : List (OutboxRow E)) × Perm
          (batch ++ rest)
          (unlocked_rows world.locked s.rows)
        × IsOldestFirst (batch ++ rest)
        × (length batch ≤ n)
        × ((rest ≡ []) ⊎ (length batch ≡ n))
        × ((relay event_type event_fields world n s).0 ≡ ok (length batch))
        × ((relay event_type event_fields world n s).1.broker.sent
            ≡ s.broker.sent ++ map (message_of event_type event_fields) batch)
  unfolding select_batch
  relay-IsOldestFirst world n s acked commits =
      let ordered = order_by_created (unlocked_rows world.locked s.rows) in
      let (rest, e, le, full) = split n ordered in
      let (returned, sent, _) = relay-sends event_type event_fields world n s acked commits in
      (
        take n ordered,
        rest,
        rw e (order-Perm (unlocked_rows world.locked s.rows)),
        rw e (order-IsOldestFirst (unlocked_rows world.locked s.rows)),
        le,
        full,
        returned ∙ ap ok (length-map (message_of event_type event_fields) (take n ordered)),
        sent,
      )
