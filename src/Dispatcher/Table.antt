-- ===== src/Dispatcher/Table.antt =====
-- The SQL statements of core/src/dispatcher.rs over the rows of `outbox_events`. A statement is one
-- atomic step; its `Clock` gives the reading of `clock_timestamp()` by its conditions and by its
-- assignments.
use better_commerce.Prelude.{
  ℕ, suc, ◌+◌, Bool, true, false, not, ◌&&◌, ◌||◌, Option, none, some, Text, List, [], ◌∷◌, map,
  ltb, leb, ◌==◌, if◌then◌else◌, text_eq, text_lt, int_eq,
}
use better_commerce.Dispatcher.Types.{OutboxEvent}

pub record Clock : Type 0 where
  pub checked : ℕ
  pub stamped : ℕ

abbrev pub is_null : {A : Type 0} → Option A → Bool
is_null none = true
is_null (some a) = false

-- `claim_until <= clock_timestamp()`, which is not true for NULL.
abbrev pub has_passed : Option ℕ → ℕ → Bool
has_passed none now = false
has_passed (some u) now = leb u now

-- `claim_until > clock_timestamp()`.
abbrev pub is_ahead : Option ℕ → ℕ → Bool
is_ahead none now = false
is_ahead (some u) now = ltb now u

-- `claimed_by = $2`.
abbrev pub is_owner : Option Text → Text → Bool
is_owner none token = false
is_owner (some owner) token = text_eq owner token

module _ {Json : Type 0} where
  abbrev pub same_aggregate : OutboxEvent Json → OutboxEvent Json → Bool
  same_aggregate e r =
      text_eq e.aggregate_type r.aggregate_type && int_eq e.aggregate_id r.aggregate_id

  -- `e` stands before `r` in their common aggregate.
  abbrev pub is_before : OutboxEvent Json → OutboxEvent Json → Bool
  is_before e r = same_aggregate e r && ltb e.aggregate_sequence r.aggregate_sequence

  -- The subquery: an earlier event of the aggregate is not delivered.
  unfoldable pub has_earlier : List (OutboxEvent Json) → OutboxEvent Json → Bool
  has_earlier [] r = false
  has_earlier (e ∷ t) r = (is_before e r && is_null e.delivered_at) || has_earlier t r

  -- The conditions of the `candidate` query of `claim_next`.
  unfoldable pub is_eligible : ℕ → List (OutboxEvent Json) → OutboxEvent Json → Bool
  is_eligible now t r =
      is_null r.delivered_at
      && (is_null r.dead_lettered_at
          && (leb r.available_at now
              && ((is_null r.claimed_by || has_passed r.claim_until now) && not (has_earlier t r))))

  -- `ORDER BY event.occurred_at, event.event_id`.
  abbrev pub precedes : OutboxEvent Json → OutboxEvent Json → Bool
  precedes s r =
      ltb s.occurred_at r.occurred_at
      || (s.occurred_at == r.occurred_at && text_lt s.event_id r.event_id)

  abbrev pub first_of_two :
      Option (OutboxEvent Json) → Option (OutboxEvent Json) → Option (OutboxEvent Json)
  first_of_two none o = o
  first_of_two (some r) none = some r
  first_of_two (some r) (some s) = if precedes s r then some s else some r

  -- The first row in the order that passes the test.
  unfoldable pub first_where :
      (OutboxEvent Json → Bool) → List (OutboxEvent Json) → Option (OutboxEvent Json)
  first_where test [] = none
  first_where test (r ∷ t) = first_of_two (if test r then some r else none) (first_where test t)

  -- `FOR UPDATE OF event SKIP LOCKED LIMIT 1`; `locked` are the rows that other transactions hold.
  unfoldable pub candidate : ℕ → (Text → Bool) → List (OutboxEvent Json) → Option (OutboxEvent Json)
  candidate now locked t = first_where (λ r. is_eligible now t r && not (locked r.event_id)) t

  -- `UPDATE .. SET .. WHERE ..`, and its count of rows.
  unfoldable pub update_where :
      (OutboxEvent Json → Bool)
      → (OutboxEvent Json → OutboxEvent Json)
      → List (OutboxEvent Json)
      → List (OutboxEvent Json)
  update_where test change t = map (λ r. if test r then change r else r) t

  unfoldable pub rows_affected : (OutboxEvent Json → Bool) → List (OutboxEvent Json) → ℕ
  rows_affected test [] = 0
  rows_affected test (r ∷ t) = if test r then suc (rows_affected test t) else rows_affected test t

  -- The assignments of the `claimed` query.
  abbrev pub set_claimed : Text → ℕ → OutboxEvent Json → OutboxEvent Json
  set_claimed token until r = record r {
    claimed_by = some token;
    claim_until = some until;
    attempt_count = r.attempt_count + 1;
  }

  -- The conditions and the assignments of `acknowledge`, `release_rejected` and `dead_letter`.
  abbrev pub is_held : Text → Text → ℕ → OutboxEvent Json → Bool
  is_held id token now r =
      text_eq r.event_id id
      && (is_null r.delivered_at && (is_owner r.claimed_by token && is_ahead r.claim_until now))

  abbrev pub set_delivered : ℕ → OutboxEvent Json → OutboxEvent Json
  set_delivered now r = record r { delivered_at = some now; claimed_by = none; claim_until = none }

  abbrev pub set_released : ℕ → OutboxEvent Json → OutboxEvent Json
  set_released now r = record r { claimed_by = none; claim_until = none; available_at = now }

  abbrev pub is_held_alive : Text → Text → ℕ → OutboxEvent Json → Bool
  is_held_alive id token now r = is_held id token now r && is_null r.dead_lettered_at

  abbrev pub set_dead : ℕ → Text → OutboxEvent Json → OutboxEvent Json
  set_dead now reason r = record r {
    dead_lettered_at = some now;
    dead_letter_reason = some reason;
    claimed_by = none;
    claim_until = none;
  }
