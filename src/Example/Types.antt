-- ===== src/Example/Types.antt =====
-- The types of modules/example/src/lib.rs, and the state that its database keeps: the table
-- `example_records` with its identity sequence, and the table `outbox_events`.
use better_commerce.Prelude.{ℕ, ℤ, Text, List}
use better_commerce.Dispatcher.Types.{SqlError}
use better_commerce.Dispatcher.Operations.{Table, Link}

pub record ExampleRecordCreated : Type 0 where
  pub record_id : ℤ
  pub label : Text

pub data ExampleError : Type 0 where
  database_not_attached : ExampleError
  database : SqlError → ExampleError

pub record ExampleConfiguration : Type 0 where
  pub label : Text

-- An error of `serde_yaml` stands for its text.
pub data ExampleConfigurationError : Type 0 where
  invalid : Text → ExampleConfigurationError
  empty_label : ExampleConfigurationError

-- A row of `example_records`.
pub record ExampleRecord : Type 0 where
  pub id : ℤ
  pub label : Text

-- `last_id` is the last value that the identity sequence gave out, or 0.
pub record ExampleSchema (Json : Type 0) : Type 0 where
  pub records : List ExampleRecord
  pub last_id : ℕ
  pub outbox : Table Json

-- What the environment decides about the transaction of `create_record`: the fate of its four
-- statements, the random UUID of the event, and the readings of the clock for its two defaults.
pub record CreateStatements : Type 0 where
  pub begin : Link
  pub insert_record : Link
  pub insert_event : Link
  pub commit : Link
  pub event_id : Text
  pub occurred_at : ℕ
  pub available_at : ℕ

-- What the code uses of `serde_json`: the values that `json!` builds, and their text as `jsonb`.
pub record JsonValues (Json : Type 0) : Type 0 where
  pub number : ℤ → Json
  pub string : Text → Json
  pub object : List (Text × Json) → Json
  pub to_string : Json → Text
  pub jsonb : Text → Json
