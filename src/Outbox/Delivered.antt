-- ===== src/Outbox/Delivered.antt =====
-- Nothing is lost: a row that is marked as published was sent.
use kafka_ledger_saga.Base.{
  ℕ, String, ◌≡◌, refl, sym, ◌∙◌, subst, inl, inr, true, Bool-cases, List, [], ◌∷◌, ◌++◌, ◌==◌,
  is_some, All, Elem, Elem-append_left, Elem-append_last, All-map,
}
use kafka_ledger_saga.Contracts.{Fields}
use kafka_ledger_saga.EventSourcing.{OutboxRow}
use kafka_ledger_saga.Kafka.{MessageOf, publish_as}
use kafka_ledger_saga.Outbox.Relay.{
  RelayState, RelayWorld, RelayedEvent, select_batch, update_by_id, mark_published, count_attempt,
  message_of, relay_row, relay_rows, relay, tick, ticks,
}
use kafka_ledger_saga.Outbox.Marks.{
  IsDistinct, ids, Agrees, distinct_agree, relay_row-Agrees, All-update, All-select_batch,
}

module _ {E : Type 0} (event_type : E → String) (event_fields : E → Fields) where
  -- Every row that is marked as published has its message among those that the broker acknowledged.
  abbrev IsSent : List (MessageOf RelayedEvent) → OutboxRow E → Type 0
  IsSent sent r = is_some r.published_at ≡ true → Elem (message_of event_type event_fields r) sent

  abbrev pub IsDelivered : RelayState E → Type 0
  IsDelivered s = All (IsSent s.broker.sent) s.rows

  mark-IsSent :
      (now : ℕ) (row : OutboxRow E) (sent : List (MessageOf RelayedEvent))
      (rows : List (OutboxRow E))
      → Elem (message_of event_type event_fields row) sent
      → Agrees event_type event_fields row rows
      → All (IsSent sent) rows
      → All (IsSent sent) (update_by_id row.id (mark_published now) rows)
  mark-IsSent now row sent [] there agrees h = tt
  mark-IsSent now row sent (r ∷ rows) there (same, agrees) (h, all) =
      let rest = mark-IsSent now row sent rows there agrees all in
      elim (Bool-cases (r.id == row.id)) [
        | inl e ↦ rw e (λ _. subst (λ m. Elem m sent) (sym (same e)) there, rest)
        | inr e ↦ rw e (h, rest)
      ]

  -- Sending a row and marking it, or counting the attempt.
  relay_row-IsDelivered :
      (world : RelayWorld) (row : OutboxRow E) (s : RelayState E)
      → Agrees event_type event_fields row s.rows
      → IsDelivered s
      → IsDelivered (relay_row event_type event_fields world row s)
  unfolding relay_row publish_as
  relay_row-IsDelivered world row s agrees h = elim (Bool-cases (world.accepts s.broker.attempts)) [
    | inl e ↦
        let m = message_of event_type event_fields row in
        let sent = s.broker.sent ++ m ∷ [] in
        let kept =
          All-map {Q = IsSent sent} (λ r p f. Elem-append_left _ s.broker.sent (m ∷ []) (p f))
            s.rows h in
        rw e (mark-IsSent world.now row sent s.rows (Elem-append_last m s.broker.sent) agrees kept)
    | inr e ↦ rw e (All-update _ row.id count_attempt (λ _ _ p. p) s.rows h)
  ]

  relay_rows-IsDelivered :
      (world : RelayWorld) (rows : List (OutboxRow E)) (s : RelayState E)
      → All (λ row. Agrees event_type event_fields row s.rows) rows
      → IsDelivered s
      → IsDelivered (relay_rows event_type event_fields world rows s)
  unfolding relay_rows
  relay_rows-IsDelivered world [] s agree h = h
  relay_rows-IsDelivered world (row ∷ rest) s (here, agree) h =
      relay_rows-IsDelivered world rest (relay_row event_type event_fields world row s)
        (All-map (λ other p. relay_row-Agrees event_type event_fields world row other s p) rest
          agree)
        (relay_row-IsDelivered world row s here h)

  -- What is acknowledged stays acknowledged.
  relay_rows-sent :
      (world : RelayWorld) (m : MessageOf RelayedEvent) (rows : List (OutboxRow E))
      (s : RelayState E)
      → Elem m s.broker.sent
      → Elem m (relay_rows event_type event_fields world rows s).broker.sent
  unfolding relay_rows relay_row publish_as
  relay_rows-sent world m [] s h = h
  relay_rows-sent world m (row ∷ rest) s h = elim (Bool-cases (world.accepts s.broker.attempts)) [
    | inl e ↦
        relay_rows-sent world m rest (relay_row event_type event_fields world row s)
          (rw e (Elem-append_left m s.broker.sent _ h))
    | inr e ↦ relay_rows-sent world m rest (relay_row event_type event_fields world row s) (rw e h)
  ]

  relay-IsDelivered :
      (world : RelayWorld) (n : ℕ) (s : RelayState E)
      → IsDistinct (ids s.rows)
      → IsDelivered s
      → IsDelivered (relay event_type event_fields world n s).1
  unfolding relay
  relay-IsDelivered world n s keys h = elim (Bool-cases world.commits) [
    | inl e ↦ rw e (
        relay_rows-IsDelivered world (select_batch world.locked n s.rows) s
          (All-select_batch _ world.locked n s.rows
            (distinct_agree event_type event_fields s.rows keys))
          h)
    | inr e ↦ rw e (
        All-map
          {Q = IsSent
            (relay_rows event_type event_fields world (select_batch world.locked n s.rows)
              s).broker.sent}
          (λ r p f. relay_rows-sent world _ (select_batch world.locked n s.rows) s (p f)) s.rows h)
  ]

  update-ids :
      (id : String) (f : OutboxRow E → OutboxRow E)
      → ((r : OutboxRow E) → (f r).id ≡ r.id)
      → (rows : List (OutboxRow E)) → ids (update_by_id id f rows) ≡ ids rows
  update-ids id f same [] = refl
  update-ids id f same (r ∷ rows) = elim (Bool-cases (r.id == id)) [
    | inl e ↦ simp (e, same r, update-ids id f same rows)
    | inr e ↦ simp (e, update-ids id f same rows)
  ]

  relay_rows-ids :
      (world : RelayWorld) (rows : List (OutboxRow E)) (s : RelayState E)
      → ids (relay_rows event_type event_fields world rows s).rows ≡ ids s.rows
  unfolding relay_rows relay_row publish_as
  relay_rows-ids world [] s = refl
  relay_rows-ids world (row ∷ rest) s =
      relay_rows-ids world rest (relay_row event_type event_fields world row s)
      ∙ elim (Bool-cases (world.accepts s.broker.attempts)) [
        | inl e ↦ rw e (update-ids row.id (mark_published world.now) (λ _. refl) s.rows)
        | inr e ↦ rw e (update-ids row.id count_attempt (λ _. refl) s.rows)
      ]

  pub relay-ids :
      (world : RelayWorld) (n : ℕ) (s : RelayState E)
      → ids (relay event_type event_fields world n s).1.rows ≡ ids s.rows
  unfolding relay
  relay-ids world n s = elim (Bool-cases world.commits) [
    | inl e ↦ rw e (relay_rows-ids world (select_batch world.locked n s.rows) s)
    | inr e ↦ rw e refl
  ]

  pub tick-IsDelivered :
      (world : RelayWorld) (s : RelayState E)
      → IsDistinct (ids s.rows)
      → IsDelivered s
      → IsDelivered (tick event_type event_fields world s)
  unfolding tick
  tick-IsDelivered world s keys h = relay-IsDelivered world 100 s keys h

  pub tick-IsDistinct :
      (world : RelayWorld) (s : RelayState E)
      → IsDistinct (ids s.rows)
      → IsDistinct (ids (tick event_type event_fields world s).rows)
  unfolding tick
  tick-IsDistinct world s keys = subst IsDistinct (sym (relay-ids world 100 s)) keys

  pub ticks-ids :
      (worlds : List RelayWorld) (s : RelayState E)
      → ids (ticks event_type event_fields worlds s).rows ≡ ids s.rows
  unfolding ticks tick
  ticks-ids [] s = refl
  ticks-ids (world ∷ rest) s =
      ticks-ids rest (tick event_type event_fields world s) ∙ relay-ids world 100 s

  -- From rows with distinct ids, after any ticks of the relay, whichever sends are refused, rows
  -- locked and transactions rolled back, the message of every row that is marked as published was
  -- acknowledged by the broker, if so at the start.
  pub ticks-IsDelivered :
      (worlds : List RelayWorld) (s : RelayState E)
      → IsDistinct (ids s.rows)
      → IsDelivered s
      → IsDelivered (ticks event_type event_fields worlds s)
  unfolding ticks
  ticks-IsDelivered [] s keys h = h
  ticks-IsDelivered (world ∷ rest) s keys h =
      ticks-IsDelivered rest (tick event_type event_fields world s) (tick-IsDistinct world s keys)
        (tick-IsDelivered world s keys h)
