-- ===== src/Dispatcher/Samples.antt =====
-- Two events of one aggregate, and statements over them, for the tests of the dispatcher.
use better_commerce.Prelude.{ℕ, pos, none, Text, text, [], ◌∷◌, false}
use better_commerce.Dispatcher.Types.{OutboxEvent, ClaimedEvent}
use better_commerce.Dispatcher.Operations.{
  answered, Statement, ClaimStatement, PostgresOutboxDispatcher, Table, request_of, claim_token,
}

abbrev pub event : Text → ℕ → ℕ → OutboxEvent ℕ
event id sequence time = record {
  event_id = id;
  event_type = text "example.record_created";
  event_version = 1;
  aggregate_type = text "example_record";
  aggregate_id = pos 7;
  aggregate_sequence = sequence;
  occurred_at = time;
  payload_schema_version = 1;
  payload = 0;
  available_at = time;
  attempt_count = 0;
  claimed_by = none;
  claim_until = none;
  delivered_at = none;
  dead_lettered_at = none;
  dead_letter_reason = none;
}

abbrev pub first : OutboxEvent ℕ
first = event (text "a") 1 10

abbrev pub later : OutboxEvent ℕ
later = event (text "b") 2 11

abbrev pub two : Table ℕ
two = first ∷ later ∷ []

abbrev pub dispatcher : PostgresOutboxDispatcher
dispatcher = record { lease_seconds = 30 }

abbrev pub shown : ℕ → Text
shown n = n ∷ []

abbrev pub at : ℕ → Statement
at now = record { link = answered; clock = record { checked = now; stamped = now } }

abbrev pub claim_at : ℕ → Text → ClaimStatement
claim_at now uuid = record { statement = at now; locked = λ id. false; uuid = uuid }

abbrev pub worker : Text
worker = text "w"

abbrev pub claim_of : OutboxEvent ℕ → Text → ClaimedEvent ℕ
claim_of r uuid = record { request = request_of shown r; claimed_by = claim_token worker uuid }
