-- ===== src/Dispatcher/Outcomes.antt =====
-- Every outcome of `dispatch_one` in core/src/dispatcher.rs, for any port, where the statements are
-- answered.
use better_commerce.Prelude.{
  ℕ, ◌+◌, ◌*◌, ◌<◌, ◌≤◌, ◌≡◌, refl, inl, inr, Bool, true, false, ◌&&◌, not, Text, Memᴰ, Result, ok,
  err, arith, ltb, Bool-cases, ltb→lt,
}
use better_commerce.Dispatcher.Types.{
  OutboxEvent, ClaimedEvent, DeliveryFailure, no_eligible_event, delivered, rejected, lease_lost,
  integer_out_of_range, SqlError,
}
use better_commerce.Dispatcher.Delivery.{EventDelivery}
use better_commerce.Dispatcher.Table.{is_eligible, set_delivered, set_released, set_claimed}
use better_commerce.Dispatcher.Operations.{
  answered, Table, Statement, ClaimStatement, PostgresOutboxDispatcher, claim_token, second,
  max_integer, request_of, acknowledge, release_rejected,
}
use better_commerce.Dispatcher.Dispatch.{
  Dispatched, dispatch_one, after_claim, after_delivery, after_acknowledge, after_release,
}
use better_commerce.Dispatcher.Rows.{Unique}
use better_commerce.Dispatcher.Selection.{IsCandidate}
use better_commerce.Dispatcher.Steps.{claimed_table}
use better_commerce.Dispatcher.Lease.{acknowledge-Decides, release_rejected-Decides}
use better_commerce.Dispatcher.Claim.{
  claim_next-Claims, granted, granted-in_time, granted-late, claimed_table-Unique,
}

module _ {Json : Type 0} {D : Type 0} (timestamp_text : ℕ → Text) (delivery : EventDelivery Json D)
    (dispatcher : PostgresOutboxDispatcher) (worker_id : Text) (q : ClaimStatement) (s : Statement)
    (d : D) (t : Table Json) where
  abbrev pub deadline : ℕ
  deadline = q.stamped + dispatcher.lease_seconds * second

  abbrev pub leased : OutboxEvent Json → OutboxEvent Json
  leased = set_claimed (claim_token worker_id q.uuid) deadline

  -- The answer of the port to the event of a row.
  abbrev pub port : OutboxEvent Json → Result DeliveryFailure (Unit {0}) × D
  port r = delivery (request_of timestamp_text r) d

  abbrev pub Candidate : OutboxEvent Json → Type 0
  Candidate = IsCandidate q.checked q.locked t

  -- No event is eligible; its attempts are used up; the port accepts it, or refuses it, in time; or
  -- the lease runs out before the answer of the port is written down.
  pub data Outcome (o : Dispatched {Json = Json} timestamp_text delivery) : Type 0 where
    idle :
        ((r : OutboxEvent Json)
          → Memᴰ r t
          → (is_eligible q.checked t r && not (q.locked r.event_id)) ≡ false)
        → o ≡ (ok no_eligible_event, d, t)
        → Outcome o
    used_up :
        (r : OutboxEvent Json)
        → Candidate r
        → ltb max_integer (r.attempt_count + 1) ≡ true
        → o ≡ (err integer_out_of_range, d, t)
        → Outcome o
    accepted :
        (r : OutboxEvent Json)
        → Candidate r
        → (port r).0 ≡ ok tt
        → s.checked < deadline
        → o.0 ≡ ok (delivered r.event_id)
        → o.1 ≡ (port r).1
        → Memᴰ (set_delivered s.stamped (leased r)) o.2
        → Outcome o
    refused :
        (r : OutboxEvent Json) (failure : DeliveryFailure)
        → Candidate r
        → (port r).0 ≡ err failure
        → s.checked < deadline
        → o.0 ≡ ok (rejected r.event_id failure.reason)
        → o.1 ≡ (port r).1
        → Memᴰ (set_released s.stamped (leased r)) o.2
        → Outcome o
    late :
        (r : OutboxEvent Json)
        → Candidate r
        → deadline ≤ s.checked
        → o ≡ (
          ok (lease_lost r.event_id),
          (port r).1,
          claimed_table (claim_token worker_id q.uuid) deadline r t,
        )
        → Outcome o

  after_acknowledge-true :
      (id : Text) (e : D) (o : Result SqlError Bool × Table Json)
      → o.0 ≡ ok true
      → after_acknowledge timestamp_text delivery id e o ≡ (ok (delivered id), e, o.1)
  after_acknowledge-true id e (ok true, u) h = refl
  after_acknowledge-true id e (ok false, u) h = cc
  after_acknowledge-true id e (err x, u) h = cc

  after_release-true :
      (id reason : Text) (e : D) (o : Result SqlError Bool × Table Json)
      → o.0 ≡ ok true
      → after_release timestamp_text delivery id reason e o ≡ (ok (rejected id reason), e, o.1)
  after_release-true id reason e (ok true, u) h = refl
  after_release-true id reason e (ok false, u) h = cc
  after_release-true id reason e (err x, u) h = cc

  abbrev claim_of : OutboxEvent Json → ClaimedEvent Json
  claim_of r = granted timestamp_text dispatcher worker_id q t r

  abbrev table_of : OutboxEvent Json → Table Json
  table_of r = claimed_table (claim_token worker_id q.uuid) deadline r t

  module _ (r : OutboxEvent Json) (uniq : Unique t) (c : Candidate r) (up : s.link ≡ answered) where
    abbrev acked : Result SqlError Bool × Table Json
    acked = acknowledge (claim_of r) s (table_of r)

    abbrev freed : Result SqlError Bool × Table Json
    freed = release_rejected (claim_of r) s (table_of r)

    still-Unique : Unique (table_of r)
    still-Unique = claimed_table-Unique timestamp_text dispatcher worker_id q t r uniq

    acked_in_time :
        s.checked < deadline
        → (acked.0 ≡ ok true) × Memᴰ (set_delivered s.stamped (leased r)) acked.1
    acked_in_time =
        granted-in_time timestamp_text dispatcher worker_id q t r s uniq c up
          (set_delivered s.stamped) acked
          (acknowledge-Decides (claim_of r) s (table_of r) still-Unique)

    freed_in_time :
        s.checked < deadline
        → (freed.0 ≡ ok true) × Memᴰ (set_released s.stamped (leased r)) freed.1
    freed_in_time =
        granted-in_time timestamp_text dispatcher worker_id q t r s uniq c up
          (set_released s.stamped) freed
          (release_rejected-Decides (claim_of r) s (table_of r) still-Unique)

    acked_late : deadline ≤ s.checked → acked ≡ (ok false, table_of r)
    acked_late =
        granted-late timestamp_text dispatcher worker_id q t r s uniq c up (set_delivered s.stamped)
          acked (acknowledge-Decides (claim_of r) s (table_of r) still-Unique)

    freed_late : deadline ≤ s.checked → freed ≡ (ok false, table_of r)
    freed_late =
        granted-late timestamp_text dispatcher worker_id q t r s uniq c up (set_released s.stamped)
          freed (release_rejected-Decides (claim_of r) s (table_of r) still-Unique)

    in_time :
        (a : Result DeliveryFailure (Unit {0}) × D)
        → port r ≡ a
        → s.checked < deadline
        → Outcome (after_delivery timestamp_text delivery (claim_of r) s (table_of r) a)
    unfolding after_delivery
    in_time (ok done, d') e h =
        let (a, m) = acked_in_time h in
        rw (after_acknowledge-true r.event_id d' acked a) (accepted r c (cc) h refl (cc) m)
    in_time (err f, d') e h =
        let (a, m) = freed_in_time h in
        rw (after_release-true r.event_id f.reason d' freed a) (refused r f c (cc) h refl (cc) m)

    too_late :
        (a : Result DeliveryFailure (Unit {0}) × D)
        → port r ≡ a
        → deadline ≤ s.checked
        → Outcome (after_delivery timestamp_text delivery (claim_of r) s (table_of r) a)
    unfolding after_delivery
    too_late (ok done, d') e h = rw (acked_late h) (late r c h (cc))
    too_late (err f, d') e h = rw (freed_late h) (late r c h (cc))

  -- With unique identifiers and answered statements a dispatch ends in one of the five ways of
  -- `Outcome`: nothing is eligible; the attempts are used up; the port accepts the event, or refuses
  -- it, in time; or the lease runs out. Each fixes the result, the port's state and the row.
  pub dispatch_one-Outcome :
      Unique t
      → q.link ≡ answered
      → s.link ≡ answered
      → Outcome (dispatch_one timestamp_text delivery dispatcher worker_id q s d t)
  unfolding dispatch_one after_claim
  dispatch_one-Outcome uniq qup sup =
      elim (claim_next-Claims timestamp_text dispatcher worker_id q t qup) [
        | inl (r, c, room, o) ↦ rw o (elim (Bool-cases (ltb s.checked deadline)) [
          | inl h ↦ in_time r uniq c sup (port r) refl (ltb→lt _ _ h)
          | inr h ↦ too_late r uniq c sup (port r) refl (ground arith)
        ])
        | inr (inl (r, c, full, o)) ↦ rw o (used_up r c full refl)
        | inr (inr (absent, o)) ↦ rw o (idle absent refl)
      ]
