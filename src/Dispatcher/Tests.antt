-- ===== src/Dispatcher/Tests.antt =====
-- Runs of the dispatcher of core/src/dispatcher.rs, and the theorems about it at these inputs.
use better_commerce.Prelude.{
  ℕ, ◌+◌, ◌≡◌, refl, true, false, some, none, All-mem, Text, text, [], ◌∷◌, ◌++◌, Memᴰ, ok, ltb,
  arith, text_eq, text_lt, contains, insert,
}
use better_commerce.Dispatcher.Types.{OutboxEvent, delivered, rejected, lease_lost}
use better_commerce.Dispatcher.Delivery.{
  InProcessState, default_state, reject_next, deliver, attempts_for, count_attempts,
}
use better_commerce.Dispatcher.Table.{
  candidate, first_where, is_eligible, has_earlier, update_where, rows_affected, is_null, is_before,
  set_delivered, set_dead,
}
use better_commerce.Dispatcher.Operations.{
  unanswered, Table, claim_next, claim_row, update_one, acknowledge, release_rejected, dead_letter,
}
use better_commerce.Dispatcher.Dispatch.{dispatch_one, after_claim, after_delivery}
use better_commerce.Dispatcher.Rows.{Unique}
use better_commerce.Dispatcher.Invariant.{IsConsistent, is_started}
use better_commerce.Dispatcher.Steps.{
  Reach, here, next, claims, acknowledges, dead_letters, appends,
}
use better_commerce.Dispatcher.Order.{
  started_in_order, one_lease, delivered_final, dead_letter_barrier,
}
use better_commerce.Dispatcher.Holders.{
  IsHolder, Decided, acknowledge-Decided, release_rejected-Decided, dead_letter-Decided,
}
use better_commerce.Dispatcher.Grants.{Grants, claim_next-Grants}
use better_commerce.Dispatcher.Selection.{IsCandidate}
use better_commerce.Dispatcher.Claim.{claim-acknowledge, claim_next-keeps_lease}
use better_commerce.Dispatcher.Progress.{is_due, IsSettled, claim_next-IsSettled}
use better_commerce.Dispatcher.Acceptance.{dispatch_one-Backed, Backed}
use better_commerce.Dispatcher.Outcomes.{Outcome, dispatch_one-Outcome}
use better_commerce.Dispatcher.Samples.{
  event, first, later, two, dispatcher, shown, at, claim_at, worker, claim_of,
}

program : Unit {0}
unfolding claim_next claim_row update_one acknowledge release_rejected dead_letter candidate
    first_where is_eligible has_earlier update_where rows_affected dispatch_one after_claim
    after_delivery deliver reject_next text_eq text_lt contains insert attempts_for count_attempts
program = tt

-- The statements of one worker: it claims, is rejected, delivers the event, then the next one.
abbrev busy : InProcessState
busy = record default_state { failures_remaining = 1 }

dispatch_rejected :
    (dispatch_one shown deliver dispatcher worker (claim_at 20 (text "u")) (at 21) busy two).0
    ≡ ok (rejected (text "a") (text "deliberate in-process rejection"))
unfolding program
dispatch_rejected = refl

dispatch_delivered :
    (dispatch_one shown deliver dispatcher worker
      (claim_at 20 (text "u"))
      (at 21)
      default_state
      two).0
    ≡ ok (delivered (text "a"))
unfolding program
dispatch_delivered = refl

dispatch_late :
    (dispatch_one shown deliver dispatcher worker
      (claim_at 20 (text "u"))
      (at 30_000_020)
      default_state
      two).0
    ≡ ok (lease_lost (text "a"))
unfolding program
dispatch_late = refl

-- The table after each statement of a run from the empty table.
abbrev leased_table : Table ℕ
leased_table = (claim_next shown dispatcher worker (claim_at 20 (text "u")) two).1

abbrev delivered_table : Table ℕ
delivered_table = (acknowledge (claim_of first (text "u")) (at 21) leased_table).1

abbrev next_table : Table ℕ
next_table = (claim_next shown dispatcher worker (claim_at 22 (text "v")) delivered_table).1

abbrev dead_table : Table ℕ
dead_table = (dead_letter (claim_of first (text "u")) (text "poison") (at 21) leased_table).1

abbrev row_leased : OutboxEvent ℕ → Text → OutboxEvent ℕ
row_leased r uuid = record r {
  claimed_by = some (text "w:" ++ uuid);
  claim_until = some 30_000_020;
  attempt_count = 1;
}

IsConsistent-event : (id : Text) (n m : ℕ) → IsConsistent (event id n m)
IsConsistent-event id n m = record {
  lease = refl;
  delivered = refl;
  dead = refl;
  one_end = refl;
  reason = refl;
}

before_later :
    (e : OutboxEvent ℕ)
    → Memᴰ e (first ∷ [])
    → ltb e.aggregate_sequence later.aggregate_sequence ≡ true
before_later e (Memᴰ.head p) = rw p refl
before_later e (Memᴰ.tail m) = elim m [ ]

Reach-two : Reach shown [] two
unfolding text_eq
Reach-two =
    next
      (next here (
        appends first
          (record {
            fresh = tt;
            untouched = refl;
            consistent = IsConsistent-event (text "a") 1 10;
            last = λ e m. elim m [ ];
          })
          refl))
      (appends later
        (record {
          fresh = (refl, tt);
          untouched = refl;
          consistent = IsConsistent-event (text "b") 2 11;
          last = λ e m _. before_later e m;
        })
        refl)

Reach-leased : Reach shown [] leased_table
Reach-leased = next Reach-two (claims dispatcher worker (claim_at 20 (text "u")) refl)

Reach-next : Reach shown [] next_table
Reach-next =
    next (next Reach-leased (acknowledges (claim_of first (text "u")) (at 21) refl))
      (claims dispatcher worker (claim_at 22 (text "v")) refl)

Reach-dead : Reach shown [] dead_table
Reach-dead =
    next Reach-leased (dead_letters (claim_of first (text "u")) (text "poison") (at 21) refl)

abbrev first_delivered : OutboxEvent ℕ
first_delivered = set_delivered 21 (row_leased first (text "u"))

abbrev first_dead : OutboxEvent ℕ
first_dead = record first {
  attempt_count = 1;
  dead_lettered_at = some 21;
  dead_letter_reason = some (text "poison");
}

started_in_order_example : is_null first_delivered.delivered_at ≡ false
unfolding program
started_in_order_example =
    started_in_order shown (record (row_leased later (text "v")) { claim_until = some 30_000_022 })
      first_delivered Reach-next (Memᴰ.tail (Memᴰ.head refl)) (Memᴰ.head refl) refl refl

one_lease_example : row_leased first (text "u") ≡ row_leased first (text "u")
unfolding program
one_lease_example =
    one_lease shown (row_leased first (text "u")) (row_leased first (text "u")) Reach-leased
      (Memᴰ.head refl) (Memᴰ.head refl) refl refl refl

delivered_final_example : Memᴰ first_delivered next_table
unfolding program
delivered_final_example =
    delivered_final shown first_delivered
      (next Reach-leased (acknowledges (claim_of first (text "u")) (at 21) refl))
      (next here (claims dispatcher worker (claim_at 22 (text "v")) refl)) (Memᴰ.head refl) refl

dead_letter_barrier_example :
    Memᴰ first_dead (claim_next shown dispatcher worker (claim_at 99 (text "v")) dead_table).1
    × ((s : OutboxEvent ℕ)
        → Memᴰ s (claim_next shown dispatcher worker (claim_at 99 (text "v")) dead_table).1
        → is_before first_dead s ≡ true
        → is_started s ≡ false)
unfolding program
dead_letter_barrier_example =
    dead_letter_barrier shown first_dead Reach-dead
      (next here (claims dispatcher worker (claim_at 99 (text "v")) refl)) (Memᴰ.head refl) refl

two-Unique : Unique two
unfolding text_eq
two-Unique = ((refl, tt), (tt, tt))

leased-Unique : Unique leased_table
unfolding program
leased-Unique = ((refl, tt), (tt, tt))

acknowledge-Decided_example :
    Decided
      (claim_of first (text "u"))
      (at 21)
      (IsHolder (claim_of first (text "u")) 21)
      (λ r. record r { delivered_at = some 21; claimed_by = none; claim_until = none })
      leased_table
      (acknowledge (claim_of first (text "u")) (at 21) leased_table)
acknowledge-Decided_example =
    acknowledge-Decided (claim_of first (text "u")) (at 21) leased_table leased-Unique

release_rejected-Decided_example :
    Decided
      (claim_of first (text "u"))
      (at 21)
      (IsHolder (claim_of first (text "u")) 21)
      (λ r. record r { claimed_by = none; claim_until = none; available_at = 21 })
      leased_table
      (release_rejected (claim_of first (text "u")) (at 21) leased_table)
release_rejected-Decided_example =
    release_rejected-Decided (claim_of first (text "u")) (at 21) leased_table leased-Unique

dead_letter-Decided_example :
    Decided
      (claim_of first (text "u"))
      (at 21)
      (λ r. IsHolder (claim_of first (text "u")) 21 r × (r.dead_lettered_at ≡ none))
      (λ r. record r {
        dead_lettered_at = some 21;
        dead_letter_reason = some (text "poison");
        claimed_by = none;
        claim_until = none;
      })
      leased_table
      (dead_letter (claim_of first (text "u")) (text "poison") (at 21) leased_table)
dead_letter-Decided_example =
    dead_letter-Decided (claim_of first (text "u")) (at 21) leased_table (text "poison")
      leased-Unique

claim_next-Grants_example :
    Grants shown dispatcher worker
      (claim_at 20 (text "u"))
      two
      (claim_next shown dispatcher worker (claim_at 20 (text "u")) two)
claim_next-Grants_example =
    claim_next-Grants shown dispatcher worker (claim_at 20 (text "u")) two refl

claim_next-keeps_lease_example :
    Memᴰ
      (row_leased first (text "u"))
      (claim_next shown dispatcher worker (claim_at 25 (text "v")) leased_table).1
unfolding program
claim_next-keeps_lease_example =
    claim_next-keeps_lease shown dispatcher worker (claim_at 25 (text "v")) leased_table
      (row_leased first (text "u")) leased-Unique (Memᴰ.head refl) refl refl

claim-acknowledge_example :
    (r : OutboxEvent ℕ) × IsCandidate 20 (λ id. false) two r
    × ((acknowledge (claim_of first (text "u")) (at 21) leased_table).0 ≡ ok true)
    × Memᴰ
        (record r {
          attempt_count = r.attempt_count + 1;
          claimed_by = none;
          claim_until = none;
          delivered_at = some 21;
        })
        (acknowledge (claim_of first (text "u")) (at 21) leased_table).1
unfolding program
claim-acknowledge_example =
    claim-acknowledge shown dispatcher worker (claim_at 20 (text "u")) two
      (claim_of first (text "u")) leased_table (at 21) two-Unique refl refl refl (omega arith)

two-Backed : Backed default_state two
two-Backed r (Memᴰ.head p) h = absurd (cc)
two-Backed r (Memᴰ.tail (Memᴰ.head p)) h = absurd (cc)
two-Backed r (Memᴰ.tail (Memᴰ.tail m)) h = elim m [ ]

dispatch_one-Backed_example :
    let o =
      dispatch_one shown deliver dispatcher worker
        (claim_at 20 (text "u"))
        (record { link = unanswered; clock = record { checked = 21; stamped = 21 } })
        default_state
        two in
    Backed o.1 o.2
dispatch_one-Backed_example =
    dispatch_one-Backed shown dispatcher worker (claim_at 20 (text "u"))
      (record { link = unanswered; clock = record { checked = 21; stamped = 21 } }) default_state
      two two-Backed

dispatch_one-Outcome_example :
    Outcome shown deliver dispatcher worker
      (claim_at 20 (text "u"))
      (at 21)
      busy
      two
      (dispatch_one shown deliver dispatcher worker (claim_at 20 (text "u")) (at 21) busy two)
dispatch_one-Outcome_example =
    dispatch_one-Outcome shown deliver dispatcher worker (claim_at 20 (text "u")) (at 21) busy two
      two-Unique refl refl

-- An aggregate whose head is dead-lettered.
abbrev stuck : Table ℕ
stuck = set_dead 20 (text "no") first ∷ later ∷ []

stuck-due : (r : OutboxEvent ℕ) → Memᴰ r stuck → is_due 30 r ≡ true
stuck-due r m = All-mem (λ r. is_due 30 r ≡ true) stuck (refl, (refl, tt)) m

stuck-unclaimed : (claim_next shown dispatcher worker (claim_at 30 (text "u")) stuck).0 ≡ ok none
unfolding program
stuck-unclaimed = refl

claim_next-IsSettled_example : IsSettled stuck later
claim_next-IsSettled_example =
    claim_next-IsSettled shown dispatcher worker (claim_at 30 (text "u")) stuck refl stuck-unclaimed
      stuck-due (λ r m. refl) later (Memᴰ.tail (Memᴰ.head refl))
