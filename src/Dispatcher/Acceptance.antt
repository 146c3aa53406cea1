-- ===== src/Dispatcher/Acceptance.antt =====
-- `dispatch_one` of core/src/dispatcher.rs against the port that it delivers to: what the table calls
-- delivered, the port has accepted, whichever statements fail on the way.
use better_commerce.Prelude.{
  ℕ, ◌≡◌, refl, ◌⊎◌, inl, inr, Bool, true, false, Option, none, some, Text, Memᴰ, and-eq-true,
  Bool-cases, text_eq, eq_of_text_eq, text_eq_refl, arith, ltb, ok, err, Result, contains,
  contains-insert,
}
use better_commerce.Dispatcher.Types.{
  OutboxEvent, ClaimedEvent, DeliveryRequest, DeliveryFailure, SqlError,
}
use better_commerce.Dispatcher.Delivery.{InProcessState, deliver}
use better_commerce.Dispatcher.Table.{is_null}
use better_commerce.Dispatcher.Operations.{
  Table, Statement, ClaimStatement, PostgresOutboxDispatcher, claim_next, update_one, acknowledge,
  release_rejected,
}
use better_commerce.Dispatcher.Dispatch.{
  dispatch_one, after_claim, after_delivery, after_acknowledge, after_release, Dispatched,
}
use better_commerce.Dispatcher.Rows.{mem-update_where}
use better_commerce.Dispatcher.Steps.{claim_next-table, update_one-table}

-- The port has accepted the event.
abbrev pub is_accepted : InProcessState → Text → Bool
is_accepted d id = contains id d.accepted_ids

module _ {Json : Type 0} where
  -- Every event that is delivered in the table was accepted by the port.
  abbrev pub Backed : InProcessState → Table Json → Type 0
  Backed d t =
      (r : OutboxEvent Json)
      → Memᴰ r t
      → is_null r.delivered_at ≡ false
      → is_accepted d r.event_id ≡ true

  mem-update_one :
      (s : Statement) (test : OutboxEvent Json → Bool)
      (change : OutboxEvent Json → OutboxEvent Json) (t : Table Json) {x : OutboxEvent Json}
      → Memᴰ x (update_one s test change t).1
      → (r : OutboxEvent Json) × Memᴰ r t × ((x ≡ r) ⊎ ((test r ≡ true) × (x ≡ change r)))
  mem-update_one s test change t {x} m = elim (update_one-table s test change t) [
    | inl e ↦ (x, rw e at m, inl refl)
    | inr e ↦
        let (r, k, h) = mem-update_where test change t (rw e at m) in
        elim (Bool-cases (test r)) [
          | inl yes_ ↦ (r, k, inr (yes_, rw yes_ at h))
          | inr no_ ↦ (r, k, inl (rw no_ at h))
        ]
  ]

  acknowledge-Backed :
      (claim : ClaimedEvent Json) (s : Statement) (d : InProcessState) (t : Table Json)
      → Backed d t
      → is_accepted d claim.request.event_id ≡ true
      → Backed d (acknowledge claim s t).1
  unfolding acknowledge
  acknowledge-Backed claim s d t b a x m h =
      let (r, k, cases) = mem-update_one s _ _ t m in
      elim cases [
        | inl e ↦ b x (rw (← e) at k) h
        | inr (held, e) ↦
            rw (e, eq_of_text_eq r.event_id claim.request.event_id (and-eq-true _ _ held).0) a
      ]

  release-Backed :
      (claim : ClaimedEvent Json) (s : Statement) (d : InProcessState) (t : Table Json)
      → Backed d t
      → Backed d (release_rejected claim s t).1
  unfolding release_rejected
  release-Backed claim s d t b x m h =
      let (r, k, cases) = mem-update_one s _ _ t m in
      elim cases [ inl e ↦ b x (rw (← e) at k) h | inr (held, e) ↦ rw e (b r k (rw e at h)) ]

  deliver-accepted :
      (event : DeliveryRequest Json) (d : InProcessState) (id : Text)
      → is_accepted d id ≡ true
      → is_accepted (deliver event d).1 id ≡ true
  unfolding deliver
  deliver-accepted event d id h = elim (Bool-cases (ltb 0 d.failures_remaining)) [
    | inl e ↦ rw e h
    | inr e ↦ rw e (ground (arith, contains-insert event.event_id id d.accepted_ids))
  ]

  deliver-ok :
      (event : DeliveryRequest Json) (d : InProcessState)
      → (deliver event d).0 ≡ ok tt
      → is_accepted (deliver event d).1 event.event_id ≡ true
  unfolding deliver
  deliver-ok event d h = elim (Bool-cases (ltb 0 d.failures_remaining)) [
    | inl e ↦ cc (rw e at h)
    | inr e ↦
        rw
          (
            e,
            contains-insert event.event_id event.event_id d.accepted_ids,
            text_eq_refl event.event_id,
          )
          refl
  ]

  module _ (timestamp_text : ℕ → Text) where
    -- What a dispatch leaves behind.
    abbrev LeavesBacked : Dispatched {Json = Json} timestamp_text deliver → Type 0
    LeavesBacked o = Backed o.1 o.2

    after_acknowledge-Backed :
        (id : Text) (d : InProcessState) (o : Result SqlError Bool × Table Json)
        → Backed d o.1
        → LeavesBacked (after_acknowledge timestamp_text deliver id d o)
    after_acknowledge-Backed id d (ok true, t) b = b
    after_acknowledge-Backed id d (ok false, t) b = b
    after_acknowledge-Backed id d (err e, t) b = b

    after_release-Backed :
        (id reason : Text) (d : InProcessState) (o : Result SqlError Bool × Table Json)
        → Backed d o.1
        → LeavesBacked (after_release timestamp_text deliver id reason d o)
    after_release-Backed id reason d (ok true, t) b = b
    after_release-Backed id reason d (ok false, t) b = b
    after_release-Backed id reason d (err e, t) b = b

    after_delivery-Backed :
        (claim : ClaimedEvent Json) (s : Statement) (t : Table Json)
        (o : Result DeliveryFailure (Unit {0}) × InProcessState)
        → Backed o.1 t
        → (o.0 ≡ ok tt → is_accepted o.1 claim.request.event_id ≡ true)
        → LeavesBacked (after_delivery timestamp_text deliver claim s t o)
    unfolding after_delivery
    after_delivery-Backed claim s t (ok done, d) b a =
        after_acknowledge-Backed claim.request.event_id d (acknowledge claim s t)
          (acknowledge-Backed claim s d t b (a refl))
    after_delivery-Backed claim s t (err f, d) b a =
        after_release-Backed claim.request.event_id f.reason d (release_rejected claim s t)
          (release-Backed claim s d t b)

    after_claim-Backed :
        (s : Statement) (d : InProcessState)
        (o : Result SqlError (Option (ClaimedEvent Json)) × Table Json)
        → Backed d o.1
        → LeavesBacked (after_claim timestamp_text deliver s d o)
    unfolding after_claim
    after_claim-Backed s d (ok none, t) b = b
    after_claim-Backed s d (ok (some claim), t) b =
        after_delivery-Backed claim s t (deliver claim.request d)
          (λ r m h. deliver-accepted claim.request d r.event_id (b r m h))
          (deliver-ok claim.request d)
    after_claim-Backed s d (err e, t) b = b

    claim_next-Backed :
        (dispatcher : PostgresOutboxDispatcher) (worker_id : Text) (q : ClaimStatement)
        (d : InProcessState) (t : Table Json)
        → Backed d t
        → Backed d (claim_next timestamp_text dispatcher worker_id q t).1
    claim_next-Backed dispatcher worker_id q d t b x m h =
        elim (claim_next-table timestamp_text dispatcher worker_id q t) [
          | inl same ↦ b x (rw same at m) h
          | inr (c, k, new) ↦
              let (r, mr, e) = mem-update_where _ _ t (rw new at m) in
              elim (Bool-cases (text_eq r.event_id c.event_id)) [
                | inl yes_ ↦ let e' = rw yes_ at e in rw e' (b r mr (rw e' at h))
                | inr no_ ↦ let e' = rw no_ at e in rw e' (b r mr (rw e' at h))
              ]
        ]

    -- A dispatch through the in-process port, whatever its statements meet with, calls no event
    -- delivered that the port has not accepted.
    pub dispatch_one-Backed :
        (dispatcher : PostgresOutboxDispatcher) (worker_id : Text) (q : ClaimStatement)
        (s : Statement) (d : InProcessState) (t : Table Json)
        → Backed d t
        → let o = dispatch_one timestamp_text deliver dispatcher worker_id q s d t in Backed o.1 o.2
    unfolding dispatch_one
    dispatch_one-Backed dispatcher worker_id q s d t b =
        after_claim-Backed s d (claim_next timestamp_text dispatcher worker_id q t)
          (claim_next-Backed dispatcher worker_id q d t b)
