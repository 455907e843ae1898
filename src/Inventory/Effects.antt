-- ===== src/Inventory/Effects.antt =====
-- What each command to the inventory service may do.
use kafka_ledger_saga.Base.{
  List-cases, Option-cases, Result-cases, if_elim, ap, String, ◌≡◌, ◌≢◌, refl, ◌∙◌, sym, subst,
  Bool-cases, inl, inr, Option, none, some, List, [], ◌∷◌, Result, ok, length, Action, ◌==◌,
}
use kafka_ledger_saga.Contracts.{
  ReservationLine, InventoryEvent, ReserveStockCommandPayload, ReleaseInventoryCommandPayload,
  CommandEnvelope, Fields, reserve_stock_command, release_inventory_command, read_reserve_stock,
  read_release_inventory,
}
use kafka_ledger_saga.Errors.{Error}
use kafka_ledger_saga.EventSourcing.{Ambient, Uncommitted, StoredEvent, find_one, replay}
use kafka_ledger_saga.EventSourcing.Consistency.{stream, projected, saved}
use kafka_ledger_saga.Inventory.Domain.{StockAggregateState, blank_state, when, is_reserved}
use kafka_ledger_saga.Inventory.Stock.{StockTable, check_lines, increment_lines}
use kafka_ledger_saga.Inventory.Service.{
  InventoryDb, inventory_service, project, execute_reserve, execute_release, dispatch, with_payload,
}
use kafka_ledger_saga.Inventory.Facts.{
  reserved_state, reserved_event, failed_state, failed_event, released_state, released_event,
}
use kafka_ledger_saga.Inventory.Branches.{
  IsValid, execute_reserve-existing, stream-none, execute_reserve-enough, execute_reserve-short,
  execute_release-unknown, execute_release-reserved, execute_release-ignored,
}
use kafka_ledger_saga.Inventory.Held.{StockMove, unmoved, taken, given_back, Effect, idle, moved}

projected-some :
    (id : String) (s : StockAggregateState) (rows : List (StoredEvent InventoryEvent))
    → rows ≢ []
    → projected when inventory_service id s rows ≡ some (project id s (length rows))
projected-some id s [] ne = absurd (ne refl)
projected-some id s (r ∷ rows) ne = refl

replayed_blank :
    (a b : StockAggregateState) → ◌≡◌ {A = Result Error StockAggregateState} (ok b) (ok a) → b ≡ a
replayed_blank a b e = cc

module _ (W : List ReservationLine → Type 0) (ambient : Ambient) (correlation_id : String)
    (db : InventoryDb) (v : IsValid db) where
  abbrev Leads : Result Error (Unit {0}) × InventoryDb → Type 0
  Leads r = Effect W db r.1

  -- The first event of an order's reservation.
  opens :
      {r : Result Error (Unit {0}) × InventoryDb} (id : String) (s' : StockAggregateState)
      (u : Uncommitted InventoryEvent) (stock : StockTable)
      → find_one id db.store.projection ≡ none
      → when u.event (v id).0 ≡ ok s'
      → StockMove W (find_one id db.store.projection) s' db.stock stock
      → r ≡ (
        ok tt,
        record {
          store = saved inventory_service ambient correlation_id id s' 1 1 u db.store;
          stock = stock;
        },
      )
      → Leads r
  opens id s' u stock e w m h = subst Leads (sym h) (
      moved ambient correlation_id id (v id).0 s' 1 u (v id).2 w m
        (rw (stream-none ambient correlation_id db v id e)))

  still_blank : (id : String) → find_one id db.store.projection ≡ none → (v id).0 ≡ blank_state
  unfolding replay
  still_blank id e =
      let replayed = rw (stream-none ambient correlation_id db v id e) at (v id).2 in
      replayed_blank blank_state (v id).0 (sym replayed)

  execute_reserve-Effect :
      (c : ReserveStockCommandPayload)
      → W c.lines
      → Leads (execute_reserve ambient correlation_id c db)
  unfolding when
  execute_reserve-Effect c asks = elim (Option-cases (find_one c.order_id db.store.projection)) [
    | inr (row, e) ↦
        idle (ap (λ r. r.1) (execute_reserve-existing ambient correlation_id db v c row e))
    | inl e ↦ elim (Result-cases (check_lines c.lines db.stock)) [
      | inl (_, enough) ↦
          opens c.order_id (reserved_state c (ambient.uuid 0))
            (reserved_event ambient.now c (ambient.uuid 0)) (increment_lines c.lines db.stock) e
            refl (taken e refl asks refl)
            (execute_reserve-enough ambient correlation_id db v c e enough)
      | inr (x, short) ↦
          let (sku, reason, _, h) = execute_reserve-short ambient correlation_id db v c x e short in
          opens c.order_id (failed_state c.order_id sku reason)
            (failed_event ambient.now c.order_id sku reason) db.stock e
            (rw (still_blank c.order_id e) refl) (unmoved e refl refl) h
    ]
  ]

  execute_release-Effect :
      (c : ReleaseInventoryCommandPayload) → Leads (execute_release ambient correlation_id c db)
  unfolding when
  execute_release-Effect c = elim (List-cases (stream c.order_id db.store)) [
    | inl e ↦ idle (ap (λ r. r.1) (execute_release-unknown ambient correlation_id db v c e))
    | inr ne ↦ elim (Bool-cases (is_reserved (v c.order_id).0.status)) [
      | inr f ↦ idle (ap (λ r. r.1) (execute_release-ignored ambient correlation_id db v c ne f))
      | inl t ↦ subst Leads (sym (execute_release-reserved ambient correlation_id db v c ne t)) (
          moved ambient correlation_id c.order_id (v c.order_id).0 (released_state (v c.order_id).0)
            0 (released_event ambient.now c.order_id (v c.order_id).0) (v c.order_id).2 refl
            (given_back _
              ((v c.order_id).3
                ∙ projected-some c.order_id (v c.order_id).0 (stream c.order_id db.store) ne)
              t refl refl)
            refl)
    ]
  ]

  with_payload-Effect :
      {P : Type 0} (t : String) (p : Option P) (f : P → Action Error InventoryDb (Unit {0}))
      → ((x : P) → p ≡ some x → Leads (f x db))
      → Leads (with_payload t p f db)
  with_payload-Effect t none f h = idle refl
  with_payload-Effect t (some x) f h = h x refl

-- If the command is ReserveStock, this holds of its lines.
abbrev pub AsksFor : (List ReservationLine → Type 0) → CommandEnvelope Fields → Type 0
AsksFor W e = (c : ReserveStockCommandPayload) → read_reserve_stock e.payload ≡ some c → W c.lines

pub dispatch-Effect :
    (W : List ReservationLine → Type 0) (ambient : Ambient) (e : CommandEnvelope Fields)
    (db : InventoryDb)
    → IsValid db
    → AsksFor W e
    → Effect W db (dispatch ambient e db).1
unfolding dispatch
dispatch-Effect W ambient e db v asks =
    let Good = λ (m : Action Error InventoryDb (Unit {0})). Effect W db (m db).1 in
    if_elim Good (e.type == reserve_stock_command)
      (with_payload-Effect W ambient e.correlation_id db v e.type (read_reserve_stock e.payload) _
        (λ c read. execute_reserve-Effect W ambient e.correlation_id db v c (asks c read)))
      (if_elim Good (e.type == release_inventory_command)
        (with_payload-Effect W ambient e.correlation_id db v e.type
          (read_release_inventory e.payload) _
          (λ c _. execute_release-Effect W ambient e.correlation_id db v c))
        (idle refl))
