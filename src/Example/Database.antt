-- ===== src/Example/Database.antt =====
-- `ExampleDatabase::create_record` of modules/example/src/database.rs with its two statements. The
-- transaction is one step of the database; each of its statements is answered, fails before it
-- has an effect, or loses its answer.
use better_commerce.Prelude.{
  ℕ, suc, ◌-◌, ◌^◌, ℤ, pos, Bool, false, ◌&&◌, ◌||◌, none, Text, text, List, [], ◌∷◌, ◌++◌, ltb,
  ◌==◌, if◌then◌else◌, text_eq, int_eq, Result, ok, err,
}
use better_commerce.Dispatcher.Types.{
  OutboxEvent, SqlError, io, unique_violation, sequence_limit_exceeded,
}
use better_commerce.Dispatcher.Table.{same_aggregate}
use better_commerce.Dispatcher.Operations.{Table, Link, answered, unsent, unanswered, answer}
use better_commerce.Example.Types.{
  ExampleRecordCreated, ExampleRecord, ExampleSchema, CreateStatements, JsonValues,
}

-- The greatest `bigint`.
abbrev pub max_bigint : ℕ
max_bigint = 2 ^ 63 - 1

abbrev pub example_record : Text
example_record = text "example_record"

unfoldable pub has_record : ℤ → List ExampleRecord → Bool
has_record id [] = false
has_record id (r ∷ records) = int_eq r.id id || has_record id records

module _ {Json : Type 0} where
  -- The constraints of `outbox_events`: its primary key, and one event for each place.
  unfoldable pub violates_unique : OutboxEvent Json → Table Json → Bool
  violates_unique row [] = false
  violates_unique row (e ∷ t) =
      (text_eq row.event_id e.event_id
        || (same_aggregate e row && e.aggregate_sequence == row.aggregate_sequence))
      || violates_unique row t

  abbrev pub next_event : ExampleSchema Json → Text → ExampleRecordCreated
  next_event s label = record { record_id = pos (suc s.last_id); label = label }

  -- The schema with the row that the INSERT writes.
  abbrev pub with_record : ExampleSchema Json → Text → ExampleSchema Json
  with_record s label = record {
    records = s.records ++ record { id = pos (suc s.last_id); label = label } ∷ [];
    last_id = suc s.last_id;
    outbox = s.outbox;
  }

  unfoldable pub write_business_state :
      Link → Text → ExampleSchema Json → Result SqlError ExampleRecordCreated × ExampleSchema Json
  write_business_state link label s =
      if ltb s.last_id max_bigint
      then (if has_record (pos (suc s.last_id)) s.records
          then (err unique_violation, record s { last_id = suc s.last_id })
          else answer link (next_event s label) s (with_record s label))
      else (err sequence_limit_exceeded, s)

  -- `tx` is dropped. A sequence is not rolled back.
  abbrev pub rolled_back : ExampleSchema Json → ExampleSchema Json → ExampleSchema Json
  rolled_back s tx = record s { last_id = tx.last_id }

  module _ (J : JsonValues Json) where
    abbrev pub payload_of : ExampleRecordCreated → Json
    payload_of event = J.object (
        (text "schema_version", J.number (pos 1))
        ∷ (
          text "record",
          J.object
              ((text "id", J.number event.record_id) ∷ (text "label", J.string event.label) ∷ []),
        )
        ∷ [])

    -- The row of the INSERT, with the defaults of the columns that it does not name.
    abbrev pub event_row : CreateStatements → ExampleRecordCreated → OutboxEvent Json
    event_row q event = record {
      event_id = q.event_id;
      event_type = text "example.record_created";
      event_version = 1;
      aggregate_type = example_record;
      aggregate_id = event.record_id;
      aggregate_sequence = 1;
      occurred_at = q.occurred_at;
      payload_schema_version = 1;
      payload = J.jsonb (J.to_string (payload_of event));
      available_at = q.available_at;
      attempt_count = 0;
      claimed_by = none;
      claim_until = none;
      delivered_at = none;
      dead_lettered_at = none;
      dead_letter_reason = none;
    }

    abbrev pub with_event :
        CreateStatements → ExampleRecordCreated → ExampleSchema Json → ExampleSchema Json
    with_event q event s = record s { outbox = s.outbox ++ event_row q event ∷ [] }

    unfoldable pub write_outbox_event :
        CreateStatements
        → ExampleRecordCreated
        → ExampleSchema Json
        → Result SqlError (Unit {0}) × ExampleSchema Json
    write_outbox_event q event s =
        if violates_unique (event_row q event) s.outbox
        then (err unique_violation, s)
        else answer q.insert_event tt s (with_event q event s)

    abbrev pub after_event :
        CreateStatements
        → ExampleSchema Json
        → ExampleRecordCreated
        → Result SqlError (Unit {0}) × ExampleSchema Json
        → Result SqlError ExampleRecordCreated × ExampleSchema Json
    after_event q s event (err e, tx) = (err e, rolled_back s tx)
    after_event q s event (ok _, tx) = answer q.commit event (rolled_back s tx) tx

    abbrev pub after_record :
        CreateStatements
        → ExampleSchema Json
        → Result SqlError ExampleRecordCreated × ExampleSchema Json
        → Result SqlError ExampleRecordCreated × ExampleSchema Json
    after_record q s (err e, tx) = (err e, rolled_back s tx)
    after_record q s (ok event, tx) = after_event q s event (write_outbox_event q event tx)

    abbrev pub after_begin :
        Link
        → CreateStatements
        → Text
        → ExampleSchema Json
        → Result SqlError ExampleRecordCreated × ExampleSchema Json
    after_begin answered q label s = after_record q s (write_business_state q.insert_record label s)
    after_begin unsent q label s = (err io, s)
    after_begin unanswered q label s = (err io, s)

    unfoldable pub create_record :
        CreateStatements
        → Text
        → ExampleSchema Json
        → Result SqlError ExampleRecordCreated × ExampleSchema Json
    create_record q label s = after_begin q.begin q label s
