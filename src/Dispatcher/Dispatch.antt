-- ===== src/Dispatcher/Dispatch.antt =====
-- `dispatch_one` of core/src/dispatcher.rs: claim an event, deliver it, and write down the answer.
use better_commerce.Prelude.{ℕ, Bool, true, false, Option, none, some, Text, Result, ok, err}
use better_commerce.Dispatcher.Types.{
  DeliveryFailure, ClaimedEvent, DispatchOutcome, no_eligible_event, delivered, rejected,
  lease_lost, SqlError,
}
use better_commerce.Dispatcher.Delivery.{EventDelivery}
use better_commerce.Dispatcher.Operations.{
  Statement, ClaimStatement, PostgresOutboxDispatcher, Table, claim_next, acknowledge,
  release_rejected,
}

module _ {Json : Type 0} {D : Type 0} (timestamp_text : ℕ → Text)
    (delivery : EventDelivery Json D) where
  -- The results of `dispatch_one`, the state of the port and the table.
  abbrev pub Dispatched : Type 0
  Dispatched = Result SqlError DispatchOutcome × D × Table Json

  abbrev pub after_acknowledge : Text → D → Result SqlError Bool × Table Json → Dispatched
  after_acknowledge id d (ok true, t) = (ok (delivered id), d, t)
  after_acknowledge id d (ok false, t) = (ok (lease_lost id), d, t)
  after_acknowledge id d (err e, t) = (err e, d, t)

  abbrev pub after_release : Text → Text → D → Result SqlError Bool × Table Json → Dispatched
  after_release id reason d (ok true, t) = (ok (rejected id reason), d, t)
  after_release id reason d (ok false, t) = (ok (lease_lost id), d, t)
  after_release id reason d (err e, t) = (err e, d, t)

  unfoldable pub after_delivery :
      ClaimedEvent Json
      → Statement
      → Table Json
      → Result DeliveryFailure (Unit {0}) × D
      → Dispatched
  after_delivery claim s t (ok done, d) =
      after_acknowledge claim.request.event_id d (acknowledge claim s t)
  after_delivery claim s t (err failure, d) =
      after_release claim.request.event_id failure.reason d (release_rejected claim s t)

  unfoldable pub after_claim :
      Statement → D → Result SqlError (Option (ClaimedEvent Json)) × Table Json → Dispatched
  after_claim s d (ok none, t) = (ok no_eligible_event, d, t)
  after_claim s d (ok (some claim), t) = after_delivery claim s t (delivery claim.request d)
  after_claim s d (err e, t) = (err e, d, t)

  unfoldable pub dispatch_one :
      PostgresOutboxDispatcher → Text → ClaimStatement → Statement → D → Table Json → Dispatched
  dispatch_one dispatcher worker_id q s d t =
      after_claim s d (claim_next timestamp_text dispatcher worker_id q t)
