-- ===== src/Dispatcher/Delivery.antt =====
-- The port `EventDelivery` of core/src/dispatcher.rs, and its in-process adapter.
use better_commerce.Prelude.{
  ℕ, suc, ◌+◌, ◌-◌, ◌%◌, ◌^◌, Text, text, List, [], ◌∷◌, ◌++◌, Result, ok, err, BTreeSet, insert,
  text_eq, if◌then◌else◌, ltb,
}
use better_commerce.Dispatcher.Types.{DeliveryRequest, DeliveryFailure}

-- An implementation of the port, with what a delivery changes as its state.
abbrev pub EventDelivery : Type 0 → Type 0 → Type 0
EventDelivery Json D = DeliveryRequest Json → D → Result DeliveryFailure (Unit {0}) × D

pub record InProcessState : Type 0 where
  pub accepted_ids : BTreeSet
  pub attempts : List Text
  pub failures_remaining : ℕ

abbrev pub default_state : InProcessState
default_state = record { accepted_ids = []; attempts = []; failures_remaining = 0 }

abbrev pub usize_mod : ℕ
usize_mod = 2 ^ 64

-- `failures_remaining += count` on `usize`.
unfoldable pub reject_next : ℕ → InProcessState → InProcessState
reject_next count s = record s { failures_remaining = (s.failures_remaining + count) % usize_mod }

unfoldable pub accepted_event_ids : InProcessState → BTreeSet
accepted_event_ids s = s.accepted_ids

unfoldable pub count_attempts : Text → List Text → ℕ
count_attempts id [] = 0
count_attempts id (x ∷ xs) =
    if text_eq x id then suc (count_attempts id xs) else count_attempts id xs

unfoldable pub attempts_for : Text → InProcessState → ℕ
unfolding count_attempts
attempts_for id s = count_attempts id s.attempts

unfoldable pub deliver : {Json : Type 0} → EventDelivery Json InProcessState
deliver event s =
    let tried : InProcessState = record s { attempts = s.attempts ++ event.event_id ∷ [] } in
    if ltb 0 tried.failures_remaining
    then (
      err (record { reason = text "deliberate in-process rejection" }),
      record tried { failures_remaining = tried.failures_remaining - 1 },
    )
    else (ok tt, record tried { accepted_ids = insert event.event_id tried.accepted_ids })
