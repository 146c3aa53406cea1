-- ===== src/Example/Runs.antt =====
-- Runs of modules/example and the workers of core/src/dispatcher.rs on one database.
use better_commerce.Prelude.{
  ℕ, ◌≡◌, refl, inl, inr, Bool, true, false, Text, [], Memᴰ, ok, err, Result, Bool-cases,
}
use better_commerce.Dispatcher.Types.{OutboxEvent, SqlError}
use better_commerce.Dispatcher.Table.{update_where}
use better_commerce.Dispatcher.Operations.{
  Table, Statement, update_one, acknowledge, release_rejected, dead_letter,
}
use better_commerce.Dispatcher.Rows.{mem-update_where, changed-mem, changed}
use better_commerce.Dispatcher.Steps.{
  Step, Reach, claims, acknowledges, releases, dead_letters, appends, here, next, claim_next-table,
  update_one-table,
}
use better_commerce.Example.Types.{
  ExampleRecordCreated, ExampleSchema, CreateStatements, JsonValues,
}
use better_commerce.Example.Database.{create_record}
use better_commerce.Example.Writes.{CreateOutcome, create_record-Outcome}
use better_commerce.Example.Announced.{
  IsAnnounced, unwritten-IsAnnounced, written-IsAnnounced, new-IsAppended,
}

module _ {Json : Type 0} where
  record IsSameEvent (e f : OutboxEvent Json) : Type 0 where
    kind : f.aggregate_type ≡ e.aggregate_type
    id : f.aggregate_id ≡ e.aggregate_id
    payload : f.payload ≡ e.payload

  -- The rows of both tables are the same events, with the marks of the workers changed.
  record IsSameEvents (t u : Table Json) : Type 0 where
    back : (f : OutboxEvent Json) → Memᴰ f u → (e : OutboxEvent Json) × Memᴰ e t × IsSameEvent e f
    forth : (e : OutboxEvent Json) → Memᴰ e t → (f : OutboxEvent Json) × Memᴰ f u × IsSameEvent e f

  IsSameEvents-refl : (t : Table Json) → IsSameEvents t t
  IsSameEvents-refl t = record {
    back = λ f m. (f, m, record { kind = refl; id = refl; payload = refl });
    forth = λ e m. (e, m, record { kind = refl; id = refl; payload = refl });
  }

  module _ (test : OutboxEvent Json → Bool) (change : OutboxEvent Json → OutboxEvent Json)
      (keeps : (e : OutboxEvent Json) → IsSameEvent e (change e)) where
    changed-IsSameEvent : (e : OutboxEvent Json) → IsSameEvent e (changed test change e)
    changed-IsSameEvent e = elim (Bool-cases (test e)) [
      | inl h ↦ rw h (keeps e)
      | inr h ↦ rw h (record { kind = refl; id = refl; payload = refl })
    ]

    update_where-IsSameEvents : (t : Table Json) → IsSameEvents t (update_where test change t)
    update_where-IsSameEvents t = record {
      back = λ f m.
          let (e, k, is) = mem-update_where test change t m in
          (e, k, rw is (changed-IsSameEvent e));
      forth = λ e m. (_, changed-mem test change t m, changed-IsSameEvent e);
    }

    update_one-IsSameEvents :
        (s : Statement) (t : Table Json) → IsSameEvents t (update_one s test change t).1
    update_one-IsSameEvents s t = elim (update_one-table s test change t) [
      | inl same ↦ rw same (IsSameEvents-refl t)
      | inr new ↦ rw new (update_where-IsSameEvents t)
    ]

  module _ (timestamp_text : ℕ → Text) where
    -- The step is a worker's statement, not a row that a producer appends.
    abbrev pub is_work : {t u : Table Json} → Step timestamp_text t u → Bool
    is_work (claims d worker_id q e) = true
    is_work (acknowledges claim s e) = true
    is_work (releases claim s e) = true
    is_work (dead_letters claim reason s e) = true
    is_work (appends r a e) = false

    work-IsSameEvents :
        {t u : Table Json} (step : Step timestamp_text t u) → is_work step ≡ true → IsSameEvents t u
    unfolding acknowledge release_rejected dead_letter
    work-IsSameEvents {t} (claims d worker_id q e) w =
        elim (claim_next-table timestamp_text d worker_id q t) [
          | inl same ↦ rw (e, same) (IsSameEvents-refl t)
          | inr (r, c, new) ↦
              rw (e, new)
                (update_where-IsSameEvents _ _
                  (λ e. record { kind = refl; id = refl; payload = refl }) t)
        ]
    work-IsSameEvents {t} (acknowledges claim s e) w =
        rw e
          (update_one-IsSameEvents _ _ (λ e. record { kind = refl; id = refl; payload = refl }) s t)
    work-IsSameEvents {t} (releases claim s e) w =
        rw e
          (update_one-IsSameEvents _ _ (λ e. record { kind = refl; id = refl; payload = refl }) s t)
    work-IsSameEvents {t} (dead_letters claim reason s e) w =
        rw e
          (update_one-IsSameEvents _ _ (λ e. record { kind = refl; id = refl; payload = refl }) s t)
    work-IsSameEvents (appends r a e) w = cc

    module _ (J : JsonValues Json) where
      pub data Run (s u : ExampleSchema Json) : Type 0 where
        creates :
            (q : CreateStatements) (label : Text) → u ≡ (create_record J q label s).1 → Run s u
        works :
            {t : Table Json} (step : Step timestamp_text s.outbox t)
            → is_work step ≡ true
            → u ≡ record s { outbox = t }
            → Run s u

      pub data Runs (s : ExampleSchema Json) : ExampleSchema Json → Type 0 where
        idle : Runs s s
        then : {u w : ExampleSchema Json} → Runs s u → Run u w → Runs s w

      abbrev pub empty : ExampleSchema Json
      empty = record { records = []; last_id = 0; outbox = [] }

      created-IsAnnounced :
          (q : CreateStatements) (label : Text) (s : ExampleSchema Json)
          (out : Result SqlError ExampleRecordCreated × ExampleSchema Json)
          → CreateOutcome J q label s out
          → IsAnnounced J s
          → IsAnnounced J out.1
      created-IsAnnounced q label s (ok event, after) (e, w) v =
          rw w.both (written-IsAnnounced J q label v)
      created-IsAnnounced q label s (err e, after) (inl u) v = unwritten-IsAnnounced J v u
      created-IsAnnounced q label s (err e, after) (inr (l, w)) v =
          rw w.both (written-IsAnnounced J q label v)

      worked-IsAnnounced :
          {t : Table Json} (s : ExampleSchema Json)
          → IsSameEvents s.outbox t
          → IsAnnounced J s
          → IsAnnounced J (record s { outbox = t })
      worked-IsAnnounced s same v = record {
        numbered = v.numbered;
        announced = λ r m.
            let (e, k, about) = v.announced r m in
            let (f, l, alike) = same.forth e k in
            (
              f,
              l,
              record {
                kind = rw alike.kind about.kind;
                id = rw alike.id about.id;
                payload = rw alike.payload about.payload;
              },
            );
        recorded = λ f m kind.
            let (e, k, alike) = same.back f m in
            let (r, l, id) = v.recorded e k (rw (← alike.kind) kind) in (r, l, rw alike.id id);
      }

      Run-IsAnnounced : {s u : ExampleSchema Json} → Run s u → IsAnnounced J s → IsAnnounced J u
      Run-IsAnnounced {s} (creates q label e) v =
          rw e (created-IsAnnounced q label s _ (create_record-Outcome J q label s) v)
      Run-IsAnnounced {s} (works step w e) v =
          rw e (worked-IsAnnounced s (work-IsSameEvents step w) v)

      empty-IsAnnounced : IsAnnounced J empty
      empty-IsAnnounced = record {
        numbered = λ r m. elim m [ ];
        announced = λ r m. elim m [ ];
        recorded = λ e m k. elim m [ ];
      }

      -- In every run from the empty database, failed and unanswered statements included, each record
      -- has an event in the outbox with its identifier and label, and each event of a record its
      -- record.
      pub Runs-IsAnnounced : {s : ExampleSchema Json} → Runs empty s → IsAnnounced J s
      Runs-IsAnnounced idle = empty-IsAnnounced
      Runs-IsAnnounced (then rs r) = Run-IsAnnounced r (Runs-IsAnnounced rs)

      created-Reach :
          (q : CreateStatements) (label : Text) (s : ExampleSchema Json)
          (out : Result SqlError ExampleRecordCreated × ExampleSchema Json)
          → CreateOutcome J q label s out
          → IsAnnounced J s
          → Reach timestamp_text [] s.outbox
          → Reach timestamp_text [] out.1.outbox
      created-Reach q label s (ok event, after) (e, w) v rs =
          rw w.both (next rs (appends _ (new-IsAppended J q label v w.new_event) refl))
      created-Reach q label s (err e, after) (inl u) v rs = rw u.outbox rs
      created-Reach q label s (err e, after) (inr (l, w)) v rs =
          rw w.both (next rs (appends _ (new-IsAppended J q label v w.new_event) refl))

      -- In every run from the empty database, the outbox is a table that the steps of the dispatcher
      -- reach, with the rows that `create_record` writes as the appended ones.
      pub Runs-Reach : {s : ExampleSchema Json} → Runs empty s → Reach timestamp_text [] s.outbox
      Runs-Reach idle = here
      Runs-Reach (then {u} rs (creates q label e)) = rw e (
          created-Reach q label u _ (create_record-Outcome J q label u) (Runs-IsAnnounced rs)
            (Runs-Reach rs))
      Runs-Reach (then rs (works step w e)) = rw e (next (Runs-Reach rs) step)
