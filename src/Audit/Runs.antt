-- ===== src/Audit/Runs.antt =====
-- What any sequence of deliveries leaves in the ledger.
use kafka_ledger_saga.Base.{
  ◌+◌, ◌-◌, ◌≡◌, ◌≢◌, refl, ap, sym, ◌∙◌, true, Option, none, some, List, [], ◌∷◌, ◌++◌, map,
  append-nil, append_assoc, arith, All, All-map, All-append_one,
}
use kafka_ledger_saga.Audit.Ledger.{
  Body, unparseable, null, envelope, Delivered, AuditLogEntity, AuditWorld, AuditState, is_recorded,
  entry_of, commit, each_message, run,
}
use kafka_ledger_saga.Audit.Records.{
  IsUnique, Handled, ignored, unread, audited, Recorded-is_recorded, Recorded-kept,
  Recorded-commits, Recorded-appends, Recorded-IsUnique, each_message-Handled,
}

Handled-IsUnique :
    {world : AuditWorld} {m : Delivered} {s s' : AuditState}
    → Handled world m s s'
    → IsUnique s.rows
    → IsUnique s'.rows
Handled-IsUnique (ignored e) h = rw e h
Handled-IsUnique (unread _ e) h = rw e h
Handled-IsUnique {world} {m} (audited x between _ did e) h =
    rw e (Recorded-IsUnique (entry_of world.now m x) did h)

Handled-appends :
    {world : AuditWorld} {m : Delivered} {s s' : AuditState}
    → Handled world m s s'
    → (new : List AuditLogEntity) × (s'.rows ≡ s.rows ++ new)
Handled-appends {s = s} (ignored e) = ([], rw (e, append-nil s.rows) refl)
Handled-appends {s = s} (unread _ e) = ([], rw (e, append-nil s.rows) refl)
Handled-appends {world} {m} {s} (audited x between _ did e) =
    rw e (Recorded-appends (entry_of world.now m x) did)

-- After any deliveries, redelivered messages and failing writes included, no position of a topic has
-- a second row, if so at the start, and the rows from before are still there, unchanged and in front
-- of the new ones.
pub run-appends_once :
    (deliveries : List (AuditWorld × Delivered)) (s : AuditState)
    → IsUnique s.rows
    → IsUnique (run deliveries s).rows
      × ((new : List AuditLogEntity) × ((run deliveries s).rows ≡ s.rows ++ new))
unfolding run
run-appends_once [] s h = (h, ([], sym (append-nil s.rows)))
run-appends_once ((world, m) ∷ rest) s h =
    let step = each_message-Handled world m s in
    let (unique, (later, e)) =
      run-appends_once rest (each_message world m s).1 (Handled-IsUnique step h) in
    let (now, f) = Handled-appends step in
    (unique, (now ++ later, e ∙ rw (f, append_assoc s.rows now later) refl))

-- Every committed offset is the one after a recorded message.
abbrev pub IsAudited : AuditState → Type 0
IsAudited s = All (λ c. is_recorded c.topic c.partition (c.offset - 1) s.rows ≡ true) s.commits

commit-IsAudited :
    (m : Delivered) (s : AuditState)
    → is_recorded m.topic m.partition m.offset s.rows ≡ true
    → IsAudited s
    → IsAudited (commit m s).1
commit-IsAudited m s there h =
    let before : m.offset + 1 - 1 ≡ m.offset = omega arith in
    All-append_one _ s.commits
      (record { topic = m.topic; partition = m.partition; offset = m.offset + 1 }) h
      (rw before there)

Handled-IsAudited :
    {world : AuditWorld} {m : Delivered} {s s' : AuditState}
    → m.value ≢ some unparseable
    → Handled world m s s'
    → IsAudited s
    → IsAudited s'
Handled-IsAudited readable (ignored e) h = rw e h
Handled-IsAudited readable (unread v e) h = absurd (readable v)
Handled-IsAudited {world} {m} {s} readable (audited x between _ did e) h =
    let r = entry_of world.now m x in
    rw e (
      commit-IsAudited m between (Recorded-is_recorded r did) (
        rw (Recorded-commits r did)
          (All-map (λ c p. Recorded-kept r c.topic c.partition (c.offset - 1) did p) s.commits h)))

-- Where every delivered value can be parsed, after any deliveries, failing writes included, each
-- committed offset is the one after a message that is in the ledger, if so at the start.
pub run-IsAudited :
    (deliveries : List (AuditWorld × Delivered)) (s : AuditState)
    → All (λ d. d.1.value ≢ some unparseable) deliveries
    → IsAudited s
    → IsAudited (run deliveries s)
unfolding run
run-IsAudited [] s _ h = h
run-IsAudited ((world, m) ∷ rest) s (readable, all) h =
    run-IsAudited rest (each_message world m s).1 all
      (Handled-IsAudited readable (each_message-Handled world m s) h)

abbrev pub again : Delivered → List AuditWorld → List (AuditWorld × Delivered)
again m worlds = map (λ w. (w, m)) worlds

of_null :
    (world : AuditWorld) (m : Delivered) (s : AuditState) (v : Option Body)
    → v ≡ some null
    → (each_message world (record m { value = v }) s).1 ≡ s
unfolding each_message
of_null world m s none e = cc
of_null world m s (some unparseable) e = cc
of_null world m s (some null) e = refl
of_null world m s (some (envelope x)) e = cc

-- A message whose value is the JSON text `null` is never recorded and its offset is never committed,
-- however often it is delivered again.
pub run-stuck :
    (m : Delivered) (worlds : List AuditWorld) (s : AuditState)
    → m.value ≡ some null
    → run (again m worlds) s ≡ s
unfolding run
run-stuck m [] s h = refl
run-stuck m (world ∷ rest) s h =
    ap (run (again m rest)) (of_null world m s m.value h) ∙ run-stuck m rest s h
