-- ===== src/Saga/Toolkit.antt =====
-- libs/saga-toolkit/src/saga-step.interface.ts and compensation-registry.ts. The context is the
-- `Record<string, unknown>` that the type parameter extends.
use kafka_ledger_saga.Base.{
  ℕ, ◌+◌, String, Option, none, some, List, [], ◌∷◌, ◌++◌, reverse, Result, ok, err, Action, pure,
  raise, lift, ◌>>=◌, ◌>>◌, ◌==◌, leb, ltb, is_some, filter, take, length, get_elem?, if◌then◌else◌,
}
use kafka_ledger_saga.Contracts.{SagaStatus, Fields, spread}
use kafka_ledger_saga.Errors.{Error, failure}

-- A builder of a compensation payload may throw.
pub record SagaStep : Type 0 where
  pub name : String
  pub command : String
  pub build_command_payload : Fields → Fields
  pub success_event : String
  pub failure_event : String
  pub compensation_command : Option String
  pub build_compensation_payload : Option (Fields → Result Error Fields)

pub record SagaDefinition : Type 0 where
  pub name : String
  pub steps : List SagaStep

pub record HistoryEntry : Type 0 where
  pub step : String
  pub event : String
  pub at : ℕ

pub record SagaInstanceSnapshot : Type 0 where
  pub saga_id : String
  pub definition_name : String
  pub current_step_index : ℕ
  pub status : SagaStatus
  pub context : Fields
  pub history : List HistoryEntry

-- `(commandType, payload, correlationId) => Promise<void>`; a payload may be `undefined`.
abbrev pub PublishFn : Type 0 → Type 0
PublishFn W = String → Option Fields → String → Action Error W (Unit {0})

-- `steps[i]`, where the code goes on to read a property: a TypeError if there is none.
abbrev pub step_at : {W : Type 0} → ℕ → List SagaStep → Action Error W SagaStep
step_at i steps = elim (get_elem? steps i) [ none ↦ raise (failure "TypeError") | some s ↦ pure s ]

abbrev pub add_history : SagaInstanceSnapshot → SagaStep → String → ℕ → List HistoryEntry
add_history s step event now =
    s.history ++ record { step = step.name; event = event; at = now } ∷ []

-- `step.buildCompensationPayload?.(context)`
abbrev pub compensation_payload : SagaStep → Fields → Result Error (Option Fields)
compensation_payload step context = elim step.build_compensation_payload [
  | none ↦ ok none
  | some build ↦ elim (build context) [ ok p ↦ ok (some p) | err e ↦ err e ]
]

-- The steps before the failed one that have a compensation command, last first.
unfoldable pub steps_to_compensate : ℕ → List SagaStep → List SagaStep
steps_to_compensate i steps = reverse (filter (λ s. is_some s.compensation_command) (take i steps))

-- `step.compensationCommand as string`, on a step that the filter has passed.
abbrev pub command_of : Option String → String
command_of none = "undefined"
command_of (some c) = c

module _ {W : Type 0} (definition : SagaDefinition) (publish : PublishFn W) (now : ℕ) where
  unfoldable pub start_saga : String → String → Fields → Action Error W SagaInstanceSnapshot
  start_saga saga_id correlation_id context = do
    first_step ← step_at 0 definition.steps
    publish first_step.command (some (first_step.build_command_payload context)) correlation_id
    pure (record {
      saga_id = saga_id;
      definition_name = definition.name;
      current_step_index = 0;
      status = SagaStatus.in_progress;
      context = context;
      history = record { step = first_step.name; event = "STARTED"; at = now } ∷ [];
    })

  unfoldable pub advance :
      SagaInstanceSnapshot → SagaStep → Fields → String → Action Error W SagaInstanceSnapshot
  advance s step context correlation_id =
      let history = add_history s step "SUCCEEDED" now in
      if leb (length definition.steps) (s.current_step_index + 1)
      then pure (record s { context = context; status = SagaStatus.completed; history = history })
      else (do
        next_step ← step_at (s.current_step_index + 1) definition.steps
        publish next_step.command (some (next_step.build_command_payload context)) correlation_id
        pure (record s {
          context = context;
          current_step_index = s.current_step_index + 1;
          status = SagaStatus.in_progress;
          history = history;
        }))

  -- The loop that publishes the compensation commands.
  unfoldable pub publish_compensations : List SagaStep → Fields → String → Action Error W (Unit {0})
  publish_compensations [] context correlation_id = pure tt
  publish_compensations (step ∷ rest) context correlation_id = do
    payload ← lift (compensation_payload step context)
    publish (command_of step.compensation_command) payload correlation_id
    publish_compensations rest context correlation_id

  unfoldable pub begin_compensation :
      SagaInstanceSnapshot → SagaStep → Fields → String → Action Error W SagaInstanceSnapshot
  unfolding publish_compensations steps_to_compensate
  begin_compensation s step context correlation_id =
      let undo = steps_to_compensate s.current_step_index definition.steps in
      do
        publish_compensations undo context correlation_id
        pure (record s {
          context = context;
          status = if ltb 0 (length undo) then SagaStatus.compensating else SagaStatus.compensated;
          history = add_history s step "FAILED" now;
        })

  -- An event of another type is ignored.
  unfoldable pub on_step_event :
      SagaInstanceSnapshot → String → String → Fields → Action Error W SagaInstanceSnapshot
  unfolding advance begin_compensation spread
  on_step_event s event_type correlation_id event_payload = do
    step ← step_at s.current_step_index definition.steps
    let merged = spread s.context event_payload
    if event_type == step.success_event
        then advance s step merged correlation_id
        else if event_type == step.failure_event
        then begin_compensation s step merged correlation_id
        else pure s

abbrev pub mark_compensated : SagaInstanceSnapshot → SagaInstanceSnapshot
mark_compensated s = record s { status = SagaStatus.compensated }
