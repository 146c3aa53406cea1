-- ===== src/Dispatcher/Types.antt =====
-- The types of core/src/dispatcher.rs, and the rows of the table `outbox_events` of
-- modules/example/migrations that its statements read and write. `Json` stands for
-- `serde_json::Value`. Times are microseconds.
use better_commerce.Prelude.{ℕ, ℤ, Option, Text}

pub record DeliveryRequest (Json : Type 0) : Type 0 where
  pub event_id : Text
  pub event_type : Text
  pub event_version : ℕ
  pub aggregate_type : Text
  pub aggregate_id : ℤ
  pub aggregate_sequence : ℕ
  pub occurred_at : Text
  pub payload_schema_version : ℕ
  pub payload : Json

pub record DeliveryFailure : Type 0 where
  pub reason : Text

pub record ClaimedEvent (Json : Type 0) : Type 0 where
  pub request : DeliveryRequest Json
  pub claimed_by : Text

pub data DispatchOutcome : Type 0 where
  no_eligible_event : DispatchOutcome
  delivered : (event_id : Text) → DispatchOutcome
  rejected : (event_id reason : Text) → DispatchOutcome
  lease_lost : (event_id : Text) → DispatchOutcome

-- A row of the table. The checks of the table make the three numbers positive.
pub record OutboxEvent (Json : Type 0) : Type 0 where
  pub event_id : Text
  pub event_type : Text
  pub event_version : ℕ
  pub aggregate_type : Text
  pub aggregate_id : ℤ
  pub aggregate_sequence : ℕ
  pub occurred_at : ℕ
  pub payload_schema_version : ℕ
  pub payload : Json
  pub available_at : ℕ
  pub attempt_count : ℕ
  pub claimed_by : Option Text
  pub claim_until : Option ℕ
  pub delivered_at : Option ℕ
  pub dead_lettered_at : Option ℕ
  pub dead_letter_reason : Option Text

-- The errors of `sqlx` that a statement can end with, here or in modules/example.
pub data SqlError : Type 0 where
  io : SqlError
  integer_out_of_range : SqlError
  unique_violation : SqlError
  sequence_limit_exceeded : SqlError
