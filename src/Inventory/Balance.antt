-- ===== src/Inventory/Balance.antt =====
-- Every run of the inventory service keeps its tables consistent and its stock in balance.
use mathlib.Core.Option.{some-injective}
use kafka_ledger_saga.Base.{
  true, All, ap, ℕ, ◌+◌, String, ◌≡◌, ◌∙◌, sym, subst, Bool-cases, inl, inr, some, List, [], ◌∷◌,
  arith, length, ◌==◌,
}
use kafka_ledger_saga.Base.Int.{pos}
use kafka_ledger_saga.Contracts.{ReservationLine, CommandEnvelope, Fields}
use kafka_ledger_saga.EventSourcing.{Ambient, find_one, upsert}
use kafka_ledger_saga.EventSourcing.Consistency.{find_one-upsert, stream}
use kafka_ledger_saga.EventSourcing.Outcomes.{Outcome-IsConsistent}
use kafka_ledger_saga.Inventory.Domain.{StockAggregateState, when, is_reserved}
use kafka_ledger_saga.Inventory.Stock.{StockTable, StockLevelEntity}
use kafka_ledger_saga.Inventory.Service.{
  InventoryDb, InventoryStore, ReservationProjectionEntity, inventory_service, project, dispatch,
}
use kafka_ledger_saga.Inventory.Updates.{
  AreWhole, some_row, requested, reserve_qty, release_qty, find_one-increment_lines,
  find_one-release_lines,
}
use kafka_ledger_saga.Inventory.Branches.{IsValid}
use kafka_ledger_saga.Inventory.Held.{
  held, held-upsert, IsBalanced, StockMove, unmoved, taken, given_back, Effect, idle, moved,
  Effect-Outcome, HoldsWhole, plus_held, minus_held,
}
use kafka_ledger_saga.Inventory.Effects.{AsksFor, dispatch-Effect}

StockMove-IsBalanced :
    (sku id : String) (rows : List (String × ReservationProjectionEntity)) (s : StockAggregateState)
    (n : ℕ) (stock stock' : StockTable)
    → StockMove AreWhole (find_one id rows) s stock stock'
    → HoldsWhole rows
    → ((row : StockLevelEntity)
        → find_one sku stock ≡ some row
        → row.qty_reserved ≡ pos (held sku rows))
    → (row : StockLevelEntity) → find_one sku stock' ≡ some row
    → row.qty_reserved ≡ pos (held sku (upsert id (project id s n) rows))
StockMove-IsBalanced sku id rows s n stock stock' (unmoved none_yet open_state e) w h row found =
    let sum = rw (none_yet, open_state) at (held-upsert sku id (project id s n) rows) in
    h row (rw e at found) ∙ ap pos (omega arith)
StockMove-IsBalanced sku id rows s n stock stock' (taken none_yet now_held whole e) w h row found =
    let sum = rw (none_yet, now_held) at (held-upsert sku id (project id s n) rows) in
    let (r, was, is) =
      some_row (reserve_qty (requested sku s.lines)) (find_one sku stock) row
        (rw (e, find_one-increment_lines sku s.lines stock whole) at found) in
    subst
      (λ (x : StockLevelEntity). x.qty_reserved ≡ pos (held sku (upsert id (project id s n) rows)))
      is (plus_held r.qty_reserved (held sku rows) _ (requested sku s.lines) (h r was) sum)
StockMove-IsBalanced sku id rows s n stock stock' (given_back old was_old was_held now_open e) w h
      row found =
    let sum = rw (was_old, was_held, now_open) at (held-upsert sku id (project id s n) rows) in
    let (r, was, is) =
      some_row (release_qty (requested sku old.lines)) (find_one sku stock) row
        (rw (e, find_one-release_lines sku old.lines stock (w id old was_old was_held)) at found) in
    subst
      (λ (x : StockLevelEntity). x.qty_reserved ≡ pos (held sku (upsert id (project id s n) rows)))
      is (minus_held r.qty_reserved (held sku rows) _ (requested sku old.lines) (h r was) sum)

StockMove-HoldsWhole :
    (id : String) (rows : List (String × ReservationProjectionEntity)) (s : StockAggregateState)
    (n : ℕ) (stock stock' : StockTable)
    → StockMove AreWhole (find_one id rows) s stock stock'
    → is_reserved s.status ≡ true
    → AreWhole s.lines
StockMove-HoldsWhole id rows s n stock stock' (unmoved _ open_state _) held_now = absurd cc
StockMove-HoldsWhole id rows s n stock stock' (taken _ _ whole _) held_now = whole
StockMove-HoldsWhole id rows s n stock stock' (given_back _ _ _ open_state _) held_now = absurd cc

-- The stock is in balance with the reservations, which hold whole quantities.
abbrev IsSettled : InventoryDb → Type 0
IsSettled db = IsBalanced db × HoldsWhole db.store.projection

upsert-HoldsWhole :
    (id : String) (new : ReservationProjectionEntity)
    (rows : List (String × ReservationProjectionEntity))
    → (is_reserved new.status ≡ true → AreWhole new.lines)
    → HoldsWhole rows
    → HoldsWhole (upsert id new rows)
upsert-HoldsWhole id new rows now w j row found = elim (Bool-cases (id == j)) [
  | inl same ↦
      let is = some-injective new row (rw (find_one-upsert id j new rows, same) at found) in
      subst (λ (x : ReservationProjectionEntity). is_reserved x.status ≡ true → AreWhole x.lines) is
        now
  | inr other ↦ w j row (rw (find_one-upsert id j new rows, other) at found)
]

Effect-IsSettled : {db db' : InventoryDb} → Effect AreWhole db db' → IsSettled db → IsSettled db'
Effect-IsSettled (idle e) b = subst IsSettled (sym e) b
Effect-IsSettled {db} {db'} (moved ambient cid id s s' drawn u h w move e) (b, whole) = (
  λ sku row found.
      subst (λ (t : InventoryStore). row.qty_reserved ≡ pos (held sku t.projection)) (sym e)
        (StockMove-IsBalanced sku id db.store.projection s' (length (stream id db.store) + 1)
          db.stock db'.stock move whole (b sku) row found),
  subst (λ (t : InventoryStore). HoldsWhole t.projection) (sym e)
      (upsert-HoldsWhole id (project id s' (length (stream id db.store) + 1)) db.store.projection
        (StockMove-HoldsWhole id db.store.projection s' 0 db.stock db'.stock move) whole),
)

-- A run of the consumer over a list of commands. A throw leaves the state that it reached.
unfoldable pub run : List (Ambient × CommandEnvelope Fields) → InventoryDb → InventoryDb
run [] db = db
run ((ambient, e) ∷ rest) db = run rest (dispatch ambient e db).1

-- A property of the tables that every effect keeps holds after every run.
module _ (W : List ReservationLine → Type 0) (P : InventoryDb → Type 0)
    (keep : (db db' : InventoryDb) → Effect W db db' → P db → P db') where
  run_induction :
      (commands : List (Ambient × CommandEnvelope Fields)) (db : InventoryDb)
      → All (λ c. AsksFor W c.1) commands
      → IsValid db
      → P db
      → P (run commands db)
  unfolding run
  run_induction [] db asks v p = p
  run_induction ((ambient, e) ∷ rest) db (now, later) v p =
      let effect = dispatch-Effect W ambient e db v now in
      run_induction rest (dispatch ambient e db).1 later
        (Outcome-IsConsistent when inventory_service (Effect-Outcome effect) v)
        (keep db (dispatch ambient e db).1 effect p)

all_any :
    (commands : List (Ambient × CommandEnvelope Fields))
    → All (λ c. AsksFor (λ _. Unit) c.1) commands
all_any [] = tt
all_any (c ∷ rest) = (λ _ _. tt, all_any rest)

-- After any run of commands, every order's stream of reservation events is numbered from 1 without
-- a gap and its projection row shows the replayed stream, if so at the start.
pub run-IsConsistent :
    (commands : List (Ambient × CommandEnvelope Fields)) (db : InventoryDb)
    → IsValid db
    → IsValid (run commands db)
run-IsConsistent commands db v =
    run_induction (λ _. Unit) IsValid
      (λ _ _ effect. Outcome-IsConsistent when inventory_service (Effect-Outcome effect)) commands
      db (all_any commands) v v

-- Started from consistent tables in balance, where the RESERVED reservations hold whole quantities,
-- any run of ReserveStock and ReleaseInventory commands that ask for whole quantities, duplicates and
-- failures included, leaves the reserved quantity of every stock row equal to the total that the
-- orders whose reservation is RESERVED hold of that SKU.
pub run-IsBalanced :
    (commands : List (Ambient × CommandEnvelope Fields)) (db : InventoryDb)
    → All (λ c. AsksFor AreWhole c.1) commands
    → IsValid db
    → HoldsWhole db.store.projection
    → IsBalanced db
    → IsBalanced (run commands db)
run-IsBalanced commands db asks v whole b =
    (run_induction AreWhole IsSettled (λ _ _ effect. Effect-IsSettled effect) commands db asks v
      (b, whole)).0
