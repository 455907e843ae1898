-- ===== src/Outbox/Drain.antt =====
-- Every row is relayed in the end: how many rows a tick leaves unpublished when every send is
-- acknowledged, nothing is locked and the transaction commits.
use kafka_ledger_saga.Base.{
  ℕ, ◌+◌, ◌-◌, ◌*◌, ◌≤◌, ◌<◌, String, ◌≡◌, refl, inl, inr, true, false, Bool-cases, List, [], ◌∷◌,
  is_some, length, arith, All, Elem,
}
use kafka_ledger_saga.Contracts.{Fields}
use kafka_ledger_saga.EventSourcing.{OutboxRow}
use kafka_ledger_saga.Kafka.{MessageOf, publish_as}
use kafka_ledger_saga.Outbox.Relay.{
  RelayState, RelayWorld, RelayedEvent, select_batch, update_by_id, mark_published, message_of,
  relay_row, relay_rows, relay, tick, ticks,
}
use kafka_ledger_saga.Outbox.Marks.{IsDistinct, ids}
use kafka_ledger_saga.Outbox.Delivered.{IsDelivered, tick-IsDistinct, ticks-IsDelivered, ticks-ids}
use kafka_ledger_saga.Outbox.Batch.{
  unpublished, Waits, rest_wait, mark_lt, select_batch-Waits, select_batch-IsDistinct,
  length-select_batch,
}

module _ {E : Type 0} (event_type : E → String) (event_fields : E → Fields) where
  -- A pass of the relay that nothing disturbs.
  abbrev pub IsUndisturbed : RelayWorld → Type 0
  IsUndisturbed world =
      ((n : ℕ) → world.accepts n ≡ true)
      × ((id : String) → world.locked id ≡ false)
      × (world.commits ≡ true)

  relay_rows-unpublished :
      (world : RelayWorld) (rows : List (OutboxRow E)) (s : RelayState E)
      → ((n : ℕ) → world.accepts n ≡ true)
      → IsDistinct (ids rows)
      → All (λ b. Waits b.id s.rows) rows
      → length rows + unpublished (relay_rows event_type event_fields world rows s).rows
        ≤ unpublished s.rows
  unfolding relay_rows relay_row publish_as
  relay_rows-unpublished world [] s acked keys w = omega arith
  relay_rows-unpublished world (row ∷ rest) s acked (fresh, keys) (w, all) =
      let s' = relay_row event_type event_fields world row s in
      let marked : s'.rows ≡ update_by_id row.id (mark_published world.now) s.rows =
        rw (acked s.broker.attempts) refl in
      let ih =
        relay_rows-unpublished world rest s' acked keys
          (rw marked (rest_wait world.now row.id rest s.rows fresh all)) in
      let one_less = mark_lt world.now row.id s.rows w in
      let less : unpublished s'.rows < unpublished s.rows = rw marked one_less in omega arith

  -- A tick leaves a hundred rows less, or none.
  tick-unpublished :
      (world : RelayWorld) (s : RelayState E)
      → IsUndisturbed world
      → IsDistinct (ids s.rows)
      → unpublished (tick event_type event_fields world s).rows ≤ unpublished s.rows - 100
  unfolding tick relay
  tick-unpublished world s (acked, free, commits) keys =
      let rows = select_batch world.locked 100 s.rows in
      rw commits (
        omega (
          arith,
          relay_rows-unpublished world rows s acked
              (select_batch-IsDistinct world.locked 100 s.rows keys)
              (select_batch-Waits world.locked 100 s.rows),
          length-select_batch world.locked 100 s.rows free,
        ))

  -- The ticks of the relay, none of them disturbed, leave no row unpublished once there are enough of
  -- them for batches of 100.
  ticks-unpublished :
      (worlds : List RelayWorld) (s : RelayState E)
      → All IsUndisturbed worlds
      → IsDistinct (ids s.rows)
      → unpublished s.rows ≤ 100 * length worlds
      → unpublished (ticks event_type event_fields worlds s).rows ≡ 0
  unfolding ticks
  ticks-unpublished [] s calm keys few = omega arith
  ticks-unpublished (world ∷ rest) s (c, calm) keys few =
      ticks-unpublished rest (tick event_type event_fields world s) calm
        (tick-IsDistinct event_type event_fields world s keys)
        (omega (arith, tick-unpublished world s c keys))

  none_unpublished :
      (sent : List (MessageOf RelayedEvent)) (rows : List (OutboxRow E))
      → unpublished rows ≡ 0
      → All
          (λ r. is_some r.published_at ≡ true → Elem (message_of event_type event_fields r) sent)
          rows
      → All
          (λ r. (is_some r.published_at ≡ true) × Elem (message_of event_type event_fields r) sent)
          rows
  none_unpublished sent [] h all = tt
  none_unpublished sent (r ∷ rows) h (p, all) = elim (Bool-cases (is_some r.published_at)) [
    | inl e ↦ ((e, p e), none_unpublished sent rows (ground arith) all)
    | inr e ↦ absurd (ground arith)
  ]

  -- From rows with distinct ids, where the published ones were acknowledged, n undisturbed ticks of
  -- the relay (every send acknowledged, nothing locked, every transaction committed) publish every
  -- row of an outbox with at most 100 * n unpublished rows: each row is marked as published, and the
  -- broker has acknowledged its message. No row is lost or added.
  pub ticks-drains :
      (worlds : List RelayWorld) (s : RelayState E)
      → All IsUndisturbed worlds
      → IsDistinct (ids s.rows)
      → IsDelivered event_type event_fields s
      → unpublished s.rows ≤ 100 * length worlds
      → All
          (λ r.
            (is_some r.published_at ≡ true)
            × Elem
                (message_of event_type event_fields r)
                (ticks event_type event_fields worlds s).broker.sent)
          (ticks event_type event_fields worlds s).rows
        × (ids (ticks event_type event_fields worlds s).rows ≡ ids s.rows)
  ticks-drains worlds s calm keys h few = (
    none_unpublished (ticks event_type event_fields worlds s).broker.sent
        (ticks event_type event_fields worlds s).rows (ticks-unpublished worlds s calm keys few)
        (ticks-IsDelivered event_type event_fields worlds s keys h),
    ticks-ids event_type event_fields worlds s,
  )
