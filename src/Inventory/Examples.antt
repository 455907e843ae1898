-- ===== src/Inventory/Examples.antt =====
-- The inventory service on a few commands.
use mathlib.Core.Option.{some-injective}
use kafka_ledger_saga.Base.{All, subst, String, ◌≡◌, refl, arith, none, some, List, [], ◌∷◌, ok}
use kafka_ledger_saga.Base.Int.{pos, ◌-ℤ◌}
use kafka_ledger_saga.Contracts.{
  CommandEnvelope, Fields, text, lines, reserve_stock_command, release_inventory_command,
  ReservationLine, ReserveStockCommandPayload, whole_quantity, read_reserve_stock, field,
}
use kafka_ledger_saga.EventSourcing.{Ambient, replay, find_one}
use kafka_ledger_saga.EventSourcing.Consistency.{saved}
use kafka_ledger_saga.Inventory.Domain.{blank_state}
use kafka_ledger_saga.Inventory.Stock.{
  StockLevelEntity, check_lines, reserve_lines_within_transaction, increment_lines,
  release_lines_within_transaction,
}
use kafka_ledger_saga.Inventory.Service.{InventoryDb, inventory_service, execute_reserve}
use kafka_ledger_saga.Inventory.Quantities.{
  reserve_lines-IsCovered, release_lines-increment_lines, release_lines-leaves_one,
}
use kafka_ledger_saga.Inventory.Updates.{AreWhole}
use kafka_ledger_saga.Inventory.Cover.{IsCovered}
use kafka_ledger_saga.Inventory.Effects.{AsksFor}
use kafka_ledger_saga.Inventory.Facts.{failed_state, failed_event}
use kafka_ledger_saga.Inventory.Branches.{IsValid}
use kafka_ledger_saga.Inventory.Shortage.{IsShort, execute_reserve-unserved}
use kafka_ledger_saga.Base.{Any, inl}
use kafka_ledger_saga.Inventory.Held.{IsBalanced, HoldsWhole}
use kafka_ledger_saga.Inventory.Balance.{run, run-IsConsistent, run-IsBalanced}

abbrev ambient : Ambient
ambient = record { now = 7; uuid = λ _. "uuid" }

abbrev command : String → Fields → CommandEnvelope Fields
command t payload = record {
  id = "command";
  type = t;
  version = 1;
  correlation_id = "correlation";
  causation_id = none;
  issued_at = 7;
  payload = payload;
}

abbrev two_units : List ReservationLine
two_units = record { sku = "sku-1"; qty = whole_quantity 2 } ∷ []

abbrev reserve : CommandEnvelope Fields
reserve =
    command reserve_stock_command (("orderId", text "order-1") ∷ ("lines", lines two_units) ∷ [])

abbrev give_back : CommandEnvelope Fields
give_back =
    command release_inventory_command
      (("orderId", text "order-1") ∷ ("reservationId", text "uuid") ∷ [])

abbrev commands : List (Ambient × CommandEnvelope Fields)
commands =
    (ambient, reserve) ∷ (ambient, reserve) ∷ (ambient, give_back) ∷ (ambient, give_back) ∷ []

abbrev five_units : StockLevelEntity
five_units = record { qty_available = pos 5; qty_reserved = pos 0 }

abbrev warehouse : InventoryDb
warehouse = record {
  store = record { events = []; outbox = []; projection = [] };
  stock = ("sku-1", five_units) ∷ [];
}

warehouse-IsValid : IsValid warehouse
unfolding replay find_one
warehouse-IsValid id = (blank_state, tt, refl, refl)

warehouse-IsBalanced : IsBalanced warehouse
unfolding find_one
warehouse-IsBalanced sku row e = ground arith

run-IsConsistent_example : IsValid (run commands warehouse)
run-IsConsistent_example = run-IsConsistent commands warehouse warehouse-IsValid

holds_none : HoldsWhole warehouse.store.projection
unfolding find_one
holds_none id row found is = absurd cc

two_asked :
    (c : ReserveStockCommandPayload)
    → some (record { order_id = "order-1"; lines = two_units }) ≡ some c
    → AreWhole c.lines
two_asked c e =
    subst (λ (x : ReserveStockCommandPayload). AreWhole x.lines) (some-injective _ c e) (refl, tt)

none_asked : (c : ReserveStockCommandPayload) → none ≡ some c → AreWhole c.lines
none_asked c e = cc

commands-AreWhole : All (λ c. AsksFor AreWhole c.1) commands
unfolding read_reserve_stock field
commands-AreWhole = (two_asked, (two_asked, (none_asked, (none_asked, tt))))

run-IsBalanced_example : IsBalanced (run commands warehouse)
run-IsBalanced_example =
    run-IsBalanced commands warehouse commands-AreWhole warehouse-IsValid holds_none
      warehouse-IsBalanced

warehouse-IsCovered : IsCovered warehouse.stock
unfolding find_one
warehouse-IsCovered sku row e = ground arith

reserve_lines-IsCovered_example : IsCovered (increment_lines two_units warehouse.stock)
unfolding reserve_lines_within_transaction check_lines ◌-ℤ◌ find_one
reserve_lines-IsCovered_example =
    reserve_lines-IsCovered two_units warehouse.stock (increment_lines two_units warehouse.stock)
      (refl, tt) warehouse-IsCovered refl

release_lines-increment_lines_example :
    find_one "sku-1"
      (release_lines_within_transaction two_units (increment_lines two_units warehouse.stock))
    ≡ find_one "sku-1" warehouse.stock
release_lines-increment_lines_example =
    release_lines-increment_lines "sku-1" two_units warehouse.stock (refl, tt)

-- One and a half units.
abbrev a_half_more : ReservationLine
a_half_more = record { sku = "sku-1"; qty = record { whole = 1; fraction = 5 ∷ [] } }

release_lines-leaves_one_example :
    find_one "sku-1" (
      release_lines_within_transaction
        (a_half_more ∷ [])
        (increment_lines (a_half_more ∷ []) warehouse.stock))
    ≡ some (record { qty_available = pos 5; qty_reserved = pos 1 })
unfolding find_one
release_lines-leaves_one_example =
    release_lines-leaves_one a_half_more warehouse.stock five_units 0 refl refl refl

abbrev nine_units : ReserveStockCommandPayload
nine_units = record {
  order_id = "order-1";
  lines = record { sku = "sku-2"; qty = whole_quantity 9 } ∷ [];
}

execute_reserve-unserved_example :
    (sku : String) × (reason : String) × Any
      (λ line. (line.sku ≡ sku) × IsShort warehouse.stock line)
      nine_units.lines
    × (execute_reserve ambient "correlation" nine_units warehouse ≡ (
      ok tt,
      record warehouse {
        store =
            saved inventory_service ambient "correlation" "order-1"
              (failed_state "order-1" sku reason)
              1
              1
              (failed_event 7 "order-1" sku reason)
              warehouse.store;
      },
    ))
unfolding find_one
execute_reserve-unserved_example =
    execute_reserve-unserved ambient "correlation" warehouse warehouse-IsValid nine_units refl
      (inl (inl refl))
