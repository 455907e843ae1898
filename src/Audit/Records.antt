-- ===== src/Audit/Records.antt =====
-- What recording a message and handling a delivery do to the ledger.
use kafka_ledger_saga.Base.{
  ℕ, ◌≤◌, String, ◌≡◌, refl, ap, ◌⊎◌, inl, inr, true, false, Bool-cases, Option, none, some, List,
  [], ◌∷◌, ◌++◌, append-nil, ok, err, ==_refl, eq_iff, filter, filter-append, any-append, length,
  length-append, arith, bind-ok, bind-err, ◌>>◌,
}
use kafka_ledger_saga.Errors.{Error, failure}
use kafka_ledger_saga.Audit.Ledger.{
  GenericEnvelope, Body, unparseable, null, envelope, Delivered, AuditLogEntity, AuditWorld,
  AuditState, is_at, is_recorded, record_entry, entry_of, commit, each_message,
}

abbrev pub count_at : String → ℕ → ℕ → List AuditLogEntity → ℕ
count_at topic partition offset rows = length (filter (is_at topic partition offset) rows)

-- No position of a topic is recorded twice.
abbrev pub IsUnique : List AuditLogEntity → Type 0
IsUnique rows = (topic : String) (partition offset : ℕ) → count_at topic partition offset rows ≤ 1

none_counted :
    (topic : String) (partition offset : ℕ) (rows : List AuditLogEntity)
    → is_recorded topic partition offset rows ≡ false
    → count_at topic partition offset rows ≡ 0
none_counted topic partition offset [] h = refl
none_counted topic partition offset (r ∷ rows) h =
    ground (arith, none_counted topic partition offset rows)

one_counted :
    (topic : String) (partition offset : ℕ) (rows : List AuditLogEntity)
    → is_recorded topic partition offset rows ≡ true
    → 1 ≤ count_at topic partition offset rows
one_counted topic partition offset [] h = cc
one_counted topic partition offset (r ∷ rows) h =
    ground (arith, one_counted topic partition offset rows)

at_own : (r : AuditLogEntity) → is_at r.topic r.partition r.offset r ≡ true
at_own r = ground (arith, ==_refl r.topic)

-- What a call of `record` did.
pub data Recorded (r : AuditLogEntity) (s s' : AuditState) : Type 0 where
  skipped : is_recorded r.topic r.partition r.offset s.rows ≡ true → s' ≡ s → Recorded r s s'
  added :
      is_recorded r.topic r.partition r.offset s.rows ≡ false
      → s' ≡ record s { rows = s.rows ++ r ∷ [] }
      → Recorded r s s'

record_entry-Recorded :
    (world : AuditWorld) (r : AuditLogEntity) (s : AuditState)
    → ((record_entry world r s).0 ≡ ok tt) × Recorded r s (record_entry world r s).1
      ⊎ ((e : Error) × (record_entry world r s ≡ (err e, s)))
unfolding record_entry
record_entry-Recorded world r s = elim (Bool-cases world.is_up) [
  | inl up ↦ elim (Bool-cases (is_recorded r.topic r.partition r.offset s.rows)) [
    | inl there ↦ inl (rw (up, there) refl, skipped there (rw (up, there) refl))
    | inr fresh ↦ inl (rw (up, fresh) refl, added fresh (rw (up, fresh) refl))
  ]
  | inr down ↦ inr (failure "database", rw down refl)
]

module _ (r : AuditLogEntity) where
  added-IsUnique :
      (rows : List AuditLogEntity)
      → is_recorded r.topic r.partition r.offset rows ≡ false
      → IsUnique rows
      → IsUnique (rows ++ r ∷ [])
  added-IsUnique rows fresh h topic partition offset =
      rw
        (
          filter-append (is_at topic partition offset) rows (r ∷ []),
          length-append (filter (is_at topic partition offset) rows)
              (filter (is_at topic partition offset) (r ∷ [])),
        )
        (ground (
          arith,
          h topic partition offset,
          none_counted r.topic r.partition r.offset rows,
          eq_iff r.topic topic,
        ))

  pub Recorded-IsUnique : {s s' : AuditState} → Recorded r s s' → IsUnique s.rows → IsUnique s'.rows
  Recorded-IsUnique {s} (skipped _ e) h = rw e h
  Recorded-IsUnique {s} (added fresh e) h = rw e (added-IsUnique s.rows fresh h)

  -- The entry is in the table afterwards, and every recorded position still is.
  pub Recorded-is_recorded :
      {s s' : AuditState}
      → Recorded r s s'
      → is_recorded r.topic r.partition r.offset s'.rows ≡ true
  Recorded-is_recorded {s} (skipped there e) = rw e there
  Recorded-is_recorded {s} (added fresh e) =
      rw (e, any-append (is_at r.topic r.partition r.offset) s.rows (r ∷ []))
        (ground (arith, at_own r))

  pub Recorded-kept :
      {s s' : AuditState} (topic : String) (partition offset : ℕ)
      → Recorded r s s'
      → is_recorded topic partition offset s.rows ≡ true
      → is_recorded topic partition offset s'.rows ≡ true
  Recorded-kept {s} topic partition offset (skipped _ e) h = rw e h
  Recorded-kept {s} topic partition offset (added _ e) h =
      rw (e, any-append (is_at topic partition offset) s.rows (r ∷ []), h) refl

  pub Recorded-commits : {s s' : AuditState} → Recorded r s s' → s'.commits ≡ s.commits
  Recorded-commits (skipped _ e) = rw e refl
  Recorded-commits (added _ e) = rw e refl

  pub Recorded-appends :
      {s s' : AuditState}
      → Recorded r s s'
      → (new : List AuditLogEntity) × (s'.rows ≡ s.rows ++ new)
  Recorded-appends {s} (skipped _ e) = ([], rw (e, append-nil s.rows) refl)
  Recorded-appends {s} (added _ e) = (r ∷ [], rw e refl)

-- What one delivery does.
pub data Handled (world : AuditWorld) (m : Delivered) (s s' : AuditState) : Type 0 where
  ignored : s' ≡ s → Handled world m s s'
  unread : m.value ≡ some unparseable → s' ≡ (commit m s).1 → Handled world m s s'
  audited :
      (e : GenericEnvelope) (between : AuditState)
      → m.value ≡ some (envelope e)
      → Recorded (entry_of world.now m e) s between
      → s' ≡ (commit m between).1
      → Handled world m s s'

of_record :
    (world : AuditWorld) (m : Delivered) (e : GenericEnvelope) (s : AuditState)
    → m.value ≡ some (envelope e)
    → Handled world m s ((record_entry world (entry_of world.now m e) >> commit m) s).1
of_record world m e s v = elim (record_entry-Recorded world (entry_of world.now m e) s) [
  | inl (returned, did) ↦ audited e (record_entry world (entry_of world.now m e) s).1 v did (
      let step : record_entry world (entry_of world.now m e) s
          ≡ (ok tt, (record_entry world (entry_of world.now m e) s).1) =
        λ i. (returned i, (record_entry world (entry_of world.now m e) s).1) in
      ap (λ p. p.1) (bind-ok (record_entry world (entry_of world.now m e)) (λ _. commit m) s step))
  | inr (x, thrown) ↦ ignored (
      ap (λ p. p.1)
        (bind-err (record_entry world (entry_of world.now m e)) (λ _. commit m) s thrown))
]

of_value :
    (world : AuditWorld) (m : Delivered) (s : AuditState) (v : Option Body)
    → m.value ≡ v
    → Handled world m s (each_message world (record m { value = v }) s).1
unfolding each_message
of_value world m s none e = ignored refl
of_value world m s (some unparseable) e = unread e refl
of_value world m s (some null) e = ignored refl
of_value world m s (some (envelope x)) e = of_record world m x s e

pub each_message-Handled :
    (world : AuditWorld) (m : Delivered) (s : AuditState)
    → Handled world m s (each_message world m s).1
each_message-Handled world m s = of_value world m s m.value refl
