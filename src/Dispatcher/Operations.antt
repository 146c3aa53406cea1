-- ===== src/Dispatcher/Operations.antt =====
-- `PostgresOutboxDispatcher` of core/src/dispatcher.rs: each operation takes the table, and what
-- its environment decides: the clock, the rows that are locked, the random UUID, and the fate of
-- the statement on its way to the database.
use better_commerce.Prelude.{
  ℕ, suc, zero, ◌+◌, ◌*◌, ◌-◌, ◌^◌, ℤ, pos, negsuc, Bool, Option, none, some, Text, text, List, [],
  ◌∷◌, ◌++◌, ltb, ◌==◌, if◌then◌else◌, text_eq, Result, ok, err, Outcome, returns, fails, panics,
}
use better_commerce.Dispatcher.Types.{
  OutboxEvent, DeliveryRequest, ClaimedEvent, SqlError, io, integer_out_of_range,
}
use better_commerce.Dispatcher.Table.{
  Clock, candidate, update_where, rows_affected, set_claimed, is_held, set_delivered, set_released,
  is_held_alive, set_dead,
}

-- A statement is answered, or it fails before it reaches the database, or its answer is lost.
pub data Link : Type 0 where
  answered unsent unanswered : Link

-- What the environment decides about a statement, and about the query of `claim_next`.
pub record Statement : Type 0 where
  pub link : Link
  pub clock : Clock
  pub open clock use *

pub record ClaimStatement : Type 0 where
  pub statement : Statement
  pub open statement use *
  pub locked : Text → Bool
  pub uuid : Text

-- The pool stands for the table, which the operations take as an argument.
pub record PostgresOutboxDispatcher : Type 0 where
  pub lease_seconds : ℕ

-- `assert!(lease_seconds > 0, ..)`.
unfoldable pub with_pool : ℤ → Outcome SqlError PostgresOutboxDispatcher
with_pool (pos zero) = panics
with_pool (pos (suc n)) = returns (record { lease_seconds = suc n })
with_pool (negsuc n) = panics

-- `connect`, where the answer is that of the first connection of the pool.
unfoldable pub connect : Result SqlError (Unit {0}) → ℤ → Outcome SqlError PostgresOutboxDispatcher
connect (ok opened) lease_seconds = with_pool lease_seconds
connect (err e) lease_seconds = fails e

-- The pool that `close` closes.
abbrev pub close : PostgresOutboxDispatcher → List PostgresOutboxDispatcher
close d = d ∷ []

abbrev pub second : ℕ
second = 1_000_000

-- The greatest `integer`, which bounds `attempt_count`.
abbrev pub max_integer : ℕ
max_integer = 2 ^ 31 - 1

abbrev pub Table : Type 0 → Type 0
Table Json = List (OutboxEvent Json)

abbrev pub answer : {A T : Type 0} → Link → A → T → T → Result SqlError A × T
answer answered a before after = (ok a, after)
answer unsent a before after = (err io, before)
answer unanswered a before after = (err io, after)

-- The error of a statement that the database refuses, if its answer arrives.
abbrev pub refusal : Link → SqlError → SqlError
refusal answered e = e
refusal unsent e = io
refusal unanswered e = io

-- `claimed_by = $1 || ':' || gen_random_uuid()::text`.
abbrev pub claim_token : Text → Text → Text
claim_token worker_id uuid = worker_id ++ (text ":" ++ uuid)

module _ {Json : Type 0} where
  module _ (timestamp_text : ℕ → Text) where
    abbrev pub request_of : OutboxEvent Json → DeliveryRequest Json
    request_of r = record {
      event_id = r.event_id;
      event_type = r.event_type;
      event_version = r.event_version;
      aggregate_type = r.aggregate_type;
      aggregate_id = r.aggregate_id;
      aggregate_sequence = r.aggregate_sequence;
      occurred_at = timestamp_text r.occurred_at;
      payload_schema_version = r.payload_schema_version;
      payload = r.payload;
    }

    -- The query finds its row, or none.
    unfoldable pub claim_row :
        PostgresOutboxDispatcher
        → Text
        → ClaimStatement
        → Table Json
        → Option (OutboxEvent Json)
        → Result SqlError (Option (ClaimedEvent Json)) × Table Json
    claim_row d worker_id q t none = answer q.link none t t
    claim_row d worker_id q t (some r) =
        let token = claim_token worker_id q.uuid in
        let until : ℕ = q.stamped + d.lease_seconds * second in
        let claim : ClaimedEvent Json = record { request = request_of r; claimed_by = token } in
        if ltb max_integer (r.attempt_count + 1)
        then (err (refusal q.link integer_out_of_range), t)
        else answer q.link (some claim) t
            (update_where (λ e. text_eq e.event_id r.event_id) (set_claimed token until) t)

    unfoldable pub claim_next :
        PostgresOutboxDispatcher
        → Text
        → ClaimStatement
        → Table Json
        → Result SqlError (Option (ClaimedEvent Json)) × Table Json
    claim_next d worker_id q t = claim_row d worker_id q t (candidate q.checked q.locked t)

  -- An `UPDATE` that reports whether it changed one row.
  unfoldable pub update_one :
      Statement
      → (OutboxEvent Json → Bool)
      → (OutboxEvent Json → OutboxEvent Json)
      → Table Json
      → Result SqlError Bool × Table Json
  update_one s test change t =
      answer s.link (rows_affected test t == 1) t (update_where test change t)

  unfoldable pub acknowledge :
      ClaimedEvent Json → Statement → Table Json → Result SqlError Bool × Table Json
  acknowledge claim s =
      update_one s (is_held claim.request.event_id claim.claimed_by s.checked)
        (set_delivered s.stamped)

  unfoldable pub release_rejected :
      ClaimedEvent Json → Statement → Table Json → Result SqlError Bool × Table Json
  release_rejected claim s =
      update_one s (is_held claim.request.event_id claim.claimed_by s.checked)
        (set_released s.stamped)

  unfoldable pub dead_letter :
      ClaimedEvent Json → Text → Statement → Table Json → Result SqlError Bool × Table Json
  dead_letter claim reason s =
      update_one s (is_held_alive claim.request.event_id claim.claimed_by s.checked)
        (set_dead s.stamped reason)
