-- ===== src/Payment/Once.antt =====
-- An order has at most one payment, whatever commands arrive.
use kafka_ledger_saga.Base.{
  ℕ, ◌+◌, ◌≤◌, String, ◌≡◌, ◌≢◌, refl, ◌∙◌, sym, subst, Bool-cases, inl, inr, Option, none, some,
  List, [], ◌∷◌, arith, length, ◌==◌, eq_of_==, if◌then◌else◌,
}
use kafka_ledger_saga.Contracts.{PaymentEvent, CommandEnvelope, Fields}
use kafka_ledger_saga.EventSourcing.{Ambient, StoredEvent, find_one, upsert}
use kafka_ledger_saga.EventSourcing.Consistency.{stream, projected}
use kafka_ledger_saga.Payment.Domain.{PaymentState, when}
use kafka_ledger_saga.Payment.Gateway.{PaymentGateway}
use kafka_ledger_saga.Payment.Service.{
  PaymentWorld, PaymentStore, PaymentProjectionEntity, payment_service, project, find_by_order_id,
}
use kafka_ledger_saga.Payment.Branches.{IsValid, Effect, idle, opened, updated}
use kafka_ledger_saga.Payment.Runs.{run, run_induction}

-- The payments of one order.
abbrev pub payments_of : String → List (String × PaymentProjectionEntity) → ℕ
payments_of order_id [] = 0
payments_of order_id ((_, row) ∷ rows) =
    let others = payments_of order_id rows in
    if row.order_id == order_id then others + 1 else others

abbrev count_old : String → Option PaymentProjectionEntity → ℕ
count_old order_id none = 0
count_old order_id (some row) = if row.order_id == order_id then 1 else 0

payments_of-upsert :
    (order_id id : String) (row : PaymentProjectionEntity)
    (rows : List (String × PaymentProjectionEntity))
    → payments_of order_id (upsert id row rows) + count_old order_id (find_one id rows)
      ≡ payments_of order_id rows + (if row.order_id == order_id then 1 else 0)
unfolding upsert find_one
payments_of-upsert order_id id row [] = ground arith
payments_of-upsert order_id id row ((j, r) ∷ rows) =
    let ih = payments_of-upsert order_id id row rows in
    elim (Bool-cases (j == id)) [ inl e ↦ rw e (ground arith) | inr e ↦ rw e (ground arith) ]

payments_of-none :
    (order_id : String) (rows : List (String × PaymentProjectionEntity))
    → find_by_order_id order_id rows ≡ none
    → payments_of order_id rows ≡ 0
unfolding find_by_order_id
payments_of-none order_id [] e = refl
payments_of-none order_id ((j, r) ∷ rows) e = elim (Bool-cases (r.order_id == order_id)) [
  | inl same ↦ let e' = rw same at e in cc
  | inr other ↦ rw other (payments_of-none order_id rows (rw other at e))
]

-- At most one payment for every order.
abbrev pub IsPaidOnce : PaymentStore → Type 0
IsPaidOnce store = (order_id : String) → payments_of order_id store.projection ≤ 1

projected-some :
    (id : String) (s : PaymentState) (rows : List (StoredEvent PaymentEvent))
    → rows ≢ []
    → projected when payment_service id s rows ≡ some (project id s (length rows))
projected-some id s [] ne = absurd (ne refl)
projected-some id s (r ∷ rows) ne = refl

cancel : (a b n : ℕ) → a + n ≡ b + n → a ≡ b
cancel a b n h = omega arith

same_count :
    (order_id : String) (old new : PaymentProjectionEntity) (p' p : ℕ)
    → p' + count_old order_id (some old) ≡ p + (if new.order_id == order_id then 1 else 0)
    → new.order_id ≡ old.order_id
    → p' ≡ p
same_count order_id old new p' p h e = let h' = rw e at h in cancel p' p _ h'

Effect-IsPaidOnce :
    (store store' : PaymentStore) → Effect store store' → IsPaidOnce store → IsPaidOnce store'
Effect-IsPaidOnce store store' (idle e) h order_id = subst IsPaidOnce (sym e) h order_id
Effect-IsPaidOnce store store' (opened ambient cid id s u _ _ free e) h order_id =
    let sum = payments_of-upsert order_id id (project id s 1) store.projection in
    let before = h order_id in
    rw e (elim (Bool-cases (s.order_id == order_id)) [
      | inl same ↦
          let no_payment =
            subst (λ k. payments_of k store.projection ≡ 0) (eq_of_== s.order_id order_id same)
              (payments_of-none s.order_id store.projection free) in
          let sum' = rw same at sum in omega arith
      | inr other ↦ let sum' = rw other at sum in omega arith
    ])
Effect-IsPaidOnce store store' (updated ambient cid id s s' u ne _ row _ same_order e) h order_id =
    let n = length (stream id store) in
    let sum = payments_of-upsert order_id id (project id s' (n + 1)) store.projection in
    let sum' = rw (row ∙ projected-some id s (stream id store) ne) at sum in
    rw e (
      subst (λ k. k ≤ 1)
        (sym (same_count order_id (project id s n) (project id s' (n + 1)) _ _ sum' same_order))
        (h order_id))

-- With any gateway, no run of AuthorizePayment and RefundPayment commands, duplicates and gateway
-- failures included, gives an order a second payment, from consistent tables where no order has two.
pub run-IsPaidOnce :
    {G : Type 0} (gateway : PaymentGateway G) (commands : List (Ambient × CommandEnvelope Fields))
    (w : PaymentWorld G)
    → IsValid w
    → IsPaidOnce w.store
    → IsPaidOnce (run gateway commands w).store
run-IsPaidOnce gateway = run_induction gateway IsPaidOnce Effect-IsPaidOnce
