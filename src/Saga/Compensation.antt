-- ===== src/Saga/Compensation.antt =====
-- What compensation-registry.ts sends when a step of any saga fails.
use kafka_ledger_saga.Base.{
  ℕ, String, ◌≡◌, refl, ap, Option, none, List, [], ◌∷◌, ◌++◌, map, reverse, append-nil,
  append_assoc, Result, ok, err, ◌>>=◌, ◌>>◌, All, filter, take, length, is_some, ltb,
  if◌then◌else◌,
}
use kafka_ledger_saga.Contracts.{SagaStatus, Fields}
use kafka_ledger_saga.Errors.{Error}
use kafka_ledger_saga.Saga.Toolkit.{
  SagaStep, SagaDefinition, SagaInstanceSnapshot, PublishFn, add_history, compensation_payload,
  command_of, steps_to_compensate, publish_compensations, begin_compensation,
}

-- A publish function that keeps a record of the commands and never fails.
abbrev pub Sent : Type 0
Sent = List (String × Option Fields)

abbrev pub keep_record : PublishFn Sent
keep_record command_type payload correlation_id sent = (ok tt, sent ++ (command_type, payload) ∷ [])

-- The payload of a compensation, where it is built.
abbrev built : Result Error (Option Fields) → Option Fields
built (ok p) = p
built (err _) = none

-- The compensation of a step.
abbrev pub undo : Fields → SagaStep → String × Option Fields
undo context step =
    (command_of step.compensation_command, built (compensation_payload step context))

-- The steps that have a compensation, the last one first.
abbrev pub undo_order : List SagaStep → List SagaStep
undo_order steps = reverse (filter (λ s. is_some s.compensation_command) steps)

abbrev pub IsBuilt : Fields → SagaStep → Type 0
IsBuilt context step =
    compensation_payload step context ≡ ok (built (compensation_payload step context))

take-prefix : (before after : List SagaStep) → take (length before) (before ++ after) ≡ before
take-prefix [] [] = refl
take-prefix [] (x ∷ after) = refl
take-prefix (s ∷ before) after = ap (λ xs. s ∷ xs) (take-prefix before after)

module _ (definition : SagaDefinition) (now : ℕ) (context : Fields) (correlation_id : String) where
  publish_compensations-sends :
      (steps : List SagaStep) (sent : Sent)
      → All (IsBuilt context) steps
      → publish_compensations definition keep_record now steps context correlation_id sent
        ≡ (ok tt, sent ++ map (undo context) steps)
  unfolding publish_compensations
  publish_compensations-sends [] sent h = rw (append-nil sent)
  publish_compensations-sends (step ∷ rest) sent (here, others) =
      rw (here, ◌>>=◌, ◌>>◌)
        (rw (
          publish_compensations-sends rest (sent ++ undo context step ∷ []) others,
          append_assoc sent (undo context step ∷ []) (map (undo context) rest),
        ))

-- When a step of any saga fails, the compensations of exactly the steps before it that have one are
-- sent, the last one first, where their payloads can be built and every send succeeds, and the saga
-- is then COMPENSATING if there was any and COMPENSATED if not.
pub begin_compensation-undo_order :
    (name : String) (before after : List SagaStep) (failed : SagaStep) (now : ℕ)
    (s : SagaInstanceSnapshot) (context : Fields) (correlation_id : String) (sent : Sent)
    → s.current_step_index ≡ length before
    → All (IsBuilt context) (undo_order before)
    → begin_compensation
        (record { name = name; steps = before ++ failed ∷ after })
        keep_record
        now
        s
        failed
        context
        correlation_id
        sent
      ≡ (
        ok (record s {
          context = context;
          status =
              if ltb 0 (length (undo_order before))
              then SagaStatus.compensating
              else SagaStatus.compensated;
          history = add_history s failed "FAILED" now;
        }),
        sent ++ map (undo context) (undo_order before),
      )
unfolding begin_compensation steps_to_compensate
begin_compensation-undo_order name before after failed now s context correlation_id sent at_step h =
    rw (at_step, steps_to_compensate, take-prefix before (failed ∷ after), ◌>>=◌, ◌>>◌)
      (rw (
        publish_compensations-sends (record { name = name; steps = before ++ failed ∷ after }) now
          context correlation_id (undo_order before) sent h))
