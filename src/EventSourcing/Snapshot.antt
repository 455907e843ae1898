-- ===== src/EventSourcing/Snapshot.antt =====
-- libs/event-sourcing-core/src/snapshot.strategy.ts, and what a load from a snapshot gives.
use kafka_ledger_saga.Base.{
  ℕ, zero, suc, ◌+◌, ◌%◌, ◌≤◌, String, ◌≡◌, refl, sym, inl, inr, Bool, true, false, ◌&&◌, Option,
  none, some, List, [], ◌∷◌, Result, ok, Result-cases, arith, eqb, ltb, not, filter, take,
}
use kafka_ledger_saga.Errors.{Error}
use kafka_ledger_saga.EventSourcing.Aggregate.{StoredEvent, AggregateRoot, new_aggregate, hydrate}
use kafka_ledger_saga.EventSourcing.Replay.{Numbered}

pub record Snapshot (S : Type 0) : Type 0 where
  pub aggregate_id : String
  pub version : ℕ
  pub state : S
  pub taken_at : ℕ

-- `SnapshotStrategy.shouldSnapshot`; the remainder by 0 is NaN, which is not 0.
unfoldable pub should_snapshot : ℕ → ℕ → Bool
should_snapshot every_n_events current_version =
    ltb 0 current_version
    && (not (eqb every_n_events 0) && eqb (current_version % every_n_events) 0)

-- `SnapshotStrategy.tailToReplay`
unfoldable pub tail_to_replay :
    {E S : Type 0} → List (StoredEvent E) → Option (Snapshot S) → List (StoredEvent E)
tail_to_replay all_events none = all_events
tail_to_replay all_events (some snapshot) = filter (λ e. ltb snapshot.version e.sequence) all_events

module _ {E S : Type 0} (when : E → S → Result Error S) where
  same_aggregate :
      (a c : AggregateRoot E S) → ◌≡◌ {A = Result Error (AggregateRoot E S)} (ok a) (ok c) → a ≡ c
  same_aggregate a c e = cc

  all_later :
      (n k : ℕ) (rows : List (StoredEvent E))
      → n ≤ k
      → Numbered k rows
      → filter (λ e. ltb n e.sequence) rows ≡ rows
  all_later n k [] le h = refl
  all_later n k (r ∷ rows) le (e, h) =
      let rest = all_later n (k + 1) rows (omega arith) h in
      let first : ltb n r.sequence ≡ true = ground arith in rw (first, rest) refl

  hydrate-tail :
      (k v : ℕ) (rows : List (StoredEvent E)) (a c : AggregateRoot E S)
      → Numbered k rows
      → hydrate when a (take v rows) ≡ ok c
      → hydrate when c (filter (λ e. ltb (k + v) e.sequence) rows) ≡ hydrate when a rows
  unfolding hydrate
  hydrate-tail k zero rows a c h e =
      rw (all_later (k + 0) k rows (omega arith) h, same_aggregate a c e) refl
  hydrate-tail k (suc v) [] a c h e = sym e
  hydrate-tail k (suc v) (r ∷ rows) a c (n, h) e = elim (Result-cases (when r.event a.state)) [
    | inl (s', w) ↦
        let rest =
          hydrate-tail (k + 1) v rows (record a { state = s'; version = r.sequence }) c h
            (rw (w, hydrate) at e) in
        let shift : k + 1 + v ≡ k + suc v = omega arith in
        let skipped : ltb (k + suc v) r.sequence ≡ false = ground arith in
        rw skipped (rw (w, hydrate) (rw shift at rest))
    | inr (x, w) ↦ absurd (ground arith)
  ]

  -- For a stream that is numbered from 1 without a gap, and a snapshot of the aggregate that its
  -- first events lead to, as many as the version of the snapshot says: the aggregate at the snapshot,
  -- hydrated with the tail, is the aggregate hydrated with the whole stream, errors included.
  pub tail_to_replay-hydrate :
      (id : String) (blank : S) (rows : List (StoredEvent E)) (snapshot : Snapshot S)
      → Numbered 0 rows
      → hydrate when (new_aggregate id blank) (take snapshot.version rows)
        ≡ ok (record (new_aggregate id snapshot.state) { version = snapshot.version })
      → hydrate when
          (record (new_aggregate id snapshot.state) { version = snapshot.version })
          (tail_to_replay rows (some snapshot))
        ≡ hydrate when (new_aggregate id blank) rows
  unfolding tail_to_replay
  tail_to_replay-hydrate id blank rows snapshot h e =
      let start : 0 + snapshot.version ≡ snapshot.version = omega arith in
      rw start at (
        hydrate-tail 0 snapshot.version rows (new_aggregate id blank)
          (record (new_aggregate id snapshot.state) { version = snapshot.version }) h e)
