-- ===== src/System/Safety.antt =====
-- No order is confirmed unless it is paid and its stock is reserved, and none is cancelled unless its
-- reservation failed or its payment was declined, whatever the steps of the running system are.
use kafka_ledger_saga.Base.{refl, sym, subst, [], All-append_one}
use kafka_ledger_saga.Contracts.{
  order_event_type, order_event_fields, inventory_event_type, inventory_event_fields,
  payment_event_type, payment_event_fields,
}
use kafka_ledger_saga.EventSourcing.{replay, find_one}
use kafka_ledger_saga.Inventory.Stock.{StockTable}
use kafka_ledger_saga.Order.Domain as Order
use kafka_ledger_saga.Order.Service.{order_service}
use kafka_ledger_saga.Inventory.Service.{inventory_service}
use kafka_ledger_saga.Inventory.Domain as Stock
use kafka_ledger_saga.Payment.Service.{payment_service}
use kafka_ledger_saga.Payment.Domain as Paying
use kafka_ledger_saga.Payment.Gateway.{PaymentGateway}
use kafka_ledger_saga.Outbox.Sources.{relay-Publishes}
use kafka_ledger_saga.Saga.Machine.{find_by_id}
use kafka_ledger_saga.System.Model.{
  System, Step, Steps, requested, order_handles, inventory_handles, payment_handles, order_relays,
  inventory_relays, payment_relays, saga_handles, done, next,
}
use kafka_ledger_saga.System.Trace.{IsTraced}
use kafka_ledger_saga.System.Services.{order-IsTraced, inventory-IsTraced, payment-IsTraced}
use kafka_ledger_saga.System.Orchestrator.{saga-IsTraced}

module _ {G : Type 0} (gateway : PaymentGateway G) where
  Step-IsTraced : {s s' : System G} → Step gateway s s' → IsTraced s → IsTraced s'
  Step-IsTraced {s} (requested c made e) h = subst IsTraced (sym e) (record {
    order = h.order;
    inventory = h.inventory;
    payment = h.payment;
    sagas = h.sagas;
    requests = All-append_one _ s.requests c h.requests made;
    at_payment = h.at_payment;
    confirms = h.confirms;
    cancels = h.cancels;
    confirmed = h.confirmed;
    cancelled = h.cancelled;
  })
  Step-IsTraced {s} (order_handles ambient c there e) h =
      subst IsTraced (sym e) (order-IsTraced s h ambient c there)
  Step-IsTraced {s} (inventory_handles ambient c there e) h =
      subst IsTraced (sym e) (inventory-IsTraced s h ambient c)
  Step-IsTraced {s} (payment_handles ambient c there e) h =
      subst IsTraced (sym e) (payment-IsTraced s h gateway ambient c)
  Step-IsTraced {s} (order_relays world n r ran e) h = subst IsTraced (sym e) (record {
    order = rw ran (
        relay-Publishes Order.when order_service order_event_type order_event_fields world n s.order
          s.order_events h.order);
    inventory = h.inventory;
    payment = h.payment;
    sagas = h.sagas;
    requests = h.requests;
    at_payment = h.at_payment;
    confirms = h.confirms;
    cancels = h.cancels;
    confirmed = h.confirmed;
    cancelled = h.cancelled;
  })
  Step-IsTraced {s} (inventory_relays world n r ran e) h = subst IsTraced (sym e) (record {
    order = h.order;
    inventory = rw ran (
        relay-Publishes Stock.when inventory_service inventory_event_type inventory_event_fields
          world n s.inventory.store s.inventory_events h.inventory);
    payment = h.payment;
    sagas = h.sagas;
    requests = h.requests;
    at_payment = h.at_payment;
    confirms = h.confirms;
    cancels = h.cancels;
    confirmed = h.confirmed;
    cancelled = h.cancelled;
  })
  Step-IsTraced {s} (payment_relays world n r ran e) h = subst IsTraced (sym e) (record {
    order = h.order;
    inventory = h.inventory;
    payment = rw ran (
        relay-Publishes Paying.when payment_service payment_event_type payment_event_fields world n
          s.payment.store s.payment_events h.payment);
    sagas = h.sagas;
    requests = h.requests;
    at_payment = h.at_payment;
    confirms = h.confirms;
    cancels = h.cancels;
    confirmed = h.confirmed;
    cancelled = h.cancelled;
  })
  Step-IsTraced {s} (saga_handles world ev read e) h =
      subst IsTraced (sym e) (saga-IsTraced s h ev read world)

  pub Steps-IsTraced : {s s' : System G} → Steps gateway s s' → IsTraced s → IsTraced s'
  Steps-IsTraced done h = h
  Steps-IsTraced (next steps step) h = Step-IsTraced step (Steps-IsTraced steps h)

-- Before the first order: empty tables and topics, with any stock and any payment provider.
abbrev pub fresh : {G : Type 0} → G → StockTable → System G
fresh provider stock = record {
  requests = [];
  order = record { events = []; outbox = []; projection = [] };
  order_events = record { attempts = 0; sent = [] };
  inventory = record {
    store = record { events = []; outbox = []; projection = [] };
    stock = stock;
  };
  inventory_events = record { attempts = 0; sent = [] };
  payment = record {
    store = record { events = []; outbox = []; projection = [] };
    provider = provider;
    calls = [];
  };
  payment_events = record { attempts = 0; sent = [] };
  saga = record { instances = []; broker = record { attempts = 0; sent = [] } };
}

pub fresh-IsTraced :
    {G : Type 0} (provider : G) (stock : StockTable) → IsTraced (fresh provider stock)
unfolding replay find_one find_by_id
fresh-IsTraced provider stock = record {
  order = record {
    consistent = λ id. (Order.blank_state, tt, refl, refl);
    taken = tt;
    rows = tt;
    relayed = tt;
  };
  inventory = record {
    consistent = λ id. (Stock.blank_state, tt, refl, refl);
    taken = tt;
    rows = tt;
    relayed = tt;
  };
  payment = record {
    consistent = λ id. (Paying.blank_state, tt, refl, refl);
    taken = tt;
    rows = tt;
    relayed = tt;
  };
  sagas = record { at = λ id row e. cc };
  requests = tt;
  at_payment = λ id row e. cc;
  confirms = tt;
  cancels = tt;
  confirmed = tt;
  cancelled = tt;
}
