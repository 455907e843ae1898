-- ===== src/Audit/Examples.antt =====
-- The ledger on a command, an event that is delivered twice, and the JSON text `null`.
use kafka_ledger_saga.Base.{ℕ, ◌≡◌, refl, true, false, none, some, List, [], ◌∷◌, ◌++◌, arith}
use kafka_ledger_saga.Audit.Ledger.{
  null, envelope, Delivered, AuditLogEntity, AuditWorld, AuditState, run, find_by_correlation_id,
}
use kafka_ledger_saga.Audit.Records.{IsUnique}
use kafka_ledger_saga.Audit.Runs.{IsAudited, again, run-appends_once, run-IsAudited, run-stuck}

abbrev command : Delivered
command = record {
  topic = "saga.commands";
  partition = 0;
  offset = 7;
  value = some (
      envelope (record {
        type = some "CreateOrder";
        aggregate_id = none;
        correlation_id = some "c1";
        payload = some [];
      }));
}

abbrev event : Delivered
event = record {
  topic = "order.events";
  partition = 2;
  offset = 7;
  value = some (
      envelope (record {
        type = none;
        aggregate_id = some "o1";
        correlation_id = some "c1";
        payload = none;
      }));
}

abbrev at : ℕ → AuditWorld
at now = record { now = now; is_up = true }

abbrev empty : AuditState
empty = record { rows = []; commits = [] }

abbrev deliveries : List (AuditWorld × Delivered)
deliveries =
    (at 1, event)
    ∷ (record { now = 2; is_up = false }, command)
    ∷ (at 3, event)
    ∷ (at 4, command)
    ∷ []

abbrev event_entry : AuditLogEntity
event_entry = record {
  topic = "order.events";
  partition = 2;
  offset = 7;
  event_type = "UNKNOWN";
  aggregate_id = some "o1";
  correlation_id = "c1";
  payload = [];
  consumed_at = 1;
}

abbrev command_entry : AuditLogEntity
command_entry = record {
  topic = "saga.commands";
  partition = 0;
  offset = 7;
  event_type = "CreateOrder";
  aggregate_id = none;
  correlation_id = "c1";
  payload = [];
  consumed_at = 4;
}

by_correlation :
    find_by_correlation_id "c1" (run deliveries empty) ≡ event_entry ∷ command_entry ∷ []
unfolding run find_by_correlation_id
by_correlation = refl

run-appends_once_example :
    IsUnique (run deliveries empty).rows
    × ((new : List AuditLogEntity) × ((run deliveries empty).rows ≡ [] ++ new))
run-appends_once_example = run-appends_once deliveries empty (λ topic partition offset. omega arith)

run-IsAudited_example : IsAudited (run deliveries empty)
run-IsAudited_example =
    run-IsAudited deliveries empty ((λ e. cc), ((λ e. cc), ((λ e. cc), ((λ e. cc), tt)))) tt

run-stuck_example :
    run (again (record event { value = some null }) (at 1 ∷ at 2 ∷ [])) (run deliveries empty)
    ≡ run deliveries empty
run-stuck_example =
    run-stuck (record event { value = some null }) (at 1 ∷ at 2 ∷ []) (run deliveries empty) refl
