-- ===== src/Dispatcher/Claim.antt =====
-- What `claim_next` of core/src/dispatcher.rs grants, and how long the grant lasts.
use better_commerce.Prelude.{
  ℕ, ◌+◌, ◌*◌, ◌<◌, ◌≤◌, ◌≡◌, refl, and-eq-true, ◌⊎◌, inl, inr, Bool, true, false, ◌&&◌, not,
  Option, none, some, Text, Memᴰ, Bool-cases, Option-cases, text_eq, text_eq_refl, arith, ltb,
  lt→ltb, ok, err, Result,
}
use better_commerce.Dispatcher.Types.{OutboxEvent, ClaimedEvent, SqlError, integer_out_of_range}
use better_commerce.Dispatcher.Table.{
  is_null, is_ahead, is_eligible, candidate, is_held, set_claimed, set_delivered,
}
use better_commerce.Dispatcher.Operations.{
  answered, Table, Statement, ClaimStatement, PostgresOutboxDispatcher, claim_token, second,
  max_integer, request_of, claim_row, claim_next, acknowledge,
}
use better_commerce.Dispatcher.Rows.{
  Unique, Unique-eq, update_where-mem, update_where-changed, update_where-Unique,
}
use better_commerce.Dispatcher.Selection.{IsCandidate, candidate-IsCandidate, candidate-none}
use better_commerce.Dispatcher.Steps.{claimed_table, claim_next-table}
use better_commerce.Dispatcher.Lease.{Decides, acknowledge-Decides}

module _ {Json : Type 0} (timestamp_text : ℕ → Text) (d : PostgresOutboxDispatcher)
    (worker_id : Text) (q : ClaimStatement) (t : Table Json) where
  abbrev pub deadline : ℕ
  deadline = q.stamped + d.lease_seconds * second

  abbrev pub token : Text
  token = claim_token worker_id q.uuid

  -- The outcome of a claim that is answered: the lease of the candidate, the refusal of a row whose
  -- attempts are used up, or nothing, if no row is eligible and unlocked.
  abbrev pub Claims : Result SqlError (Option (ClaimedEvent Json)) × Table Json → Type 0
  Claims o =
      ((r : OutboxEvent Json) × IsCandidate q.checked q.locked t r
        × (ltb max_integer (r.attempt_count + 1) ≡ false)
        × (o ≡ (
          ok (some (record { request = request_of timestamp_text r; claimed_by = token })),
          claimed_table token deadline r t,
        )))
      ⊎ (((r : OutboxEvent Json) × IsCandidate q.checked q.locked t r
            × (ltb max_integer (r.attempt_count + 1) ≡ true)
            × (o ≡ (err integer_out_of_range, t)))
          ⊎ (((s : OutboxEvent Json)
                → Memᴰ s t
                → (is_eligible q.checked t s && not (q.locked s.event_id)) ≡ false)
              × (o ≡ (ok none, t))))

  -- An answered claim leases the first eligible and unlocked row, or fails on that row if its
  -- attempts are used up, or reports that no row is eligible and unlocked.
  pub claim_next-Claims : q.link ≡ answered → Claims (claim_next timestamp_text d worker_id q t)
  unfolding claim_next claim_row
  claim_next-Claims up = elim (Option-cases (candidate q.checked q.locked t)) [
    | inl e ↦ inr (inr ((λ s m. candidate-none q.checked q.locked t e m), rw (e, up) refl))
    | inr (r, e) ↦
        let c = candidate-IsCandidate q.checked q.locked t e in
        elim (Bool-cases (ltb max_integer (r.attempt_count + 1))) [
          | inl full ↦ inr (inl (r, c, full, rw (e, full, up) refl))
          | inr room ↦ inl (r, c, room, rw (e, room, up) refl)
        ]
  ]

  -- A claim never touches a row with a live lease.
  pub claim_next-keeps_lease :
      (r : OutboxEvent Json)
      → Unique t
      → Memᴰ r t
      → is_null r.claimed_by ≡ false
      → is_ahead r.claim_until q.checked ≡ true
      → Memᴰ r (claim_next timestamp_text d worker_id q t).1
  claim_next-keeps_lease r u m held live = elim (claim_next-table timestamp_text d worker_id q t) [
    | inl same ↦ rw same m
    | inr (c, k, new) ↦ rw new (elim (Bool-cases (text_eq r.event_id c.event_id)) [
      | inl h ↦
          let same : r ≡ c = Unique-eq t u k.member m h in
          let can : is_eligible q.checked t r ≡ true = rw same k.eligible in
          unfold is_eligible in absurd (ground arith)
      | inr h ↦ update_where-mem _ _ t r m h
    ])
  ]

  abbrev pub granted : OutboxEvent Json → ClaimedEvent Json
  granted r = record { request = request_of timestamp_text r; claimed_by = token }

  pub claimed_table-Unique :
      (r : OutboxEvent Json) → Unique t → Unique (claimed_table token deadline r t)
  claimed_table-Unique r u =
      update_where-Unique (λ e. text_eq e.event_id r.event_id) (set_claimed token deadline) t
        (λ e. refl) u

  candidate-undelivered :
      (r : OutboxEvent Json) → IsCandidate q.checked q.locked t r → is_null r.delivered_at ≡ true
  candidate-undelivered r c = let e = c.eligible in unfold is_eligible in ground arith

  module _ (r : OutboxEvent Json) (s : Statement) (uniq : Unique t)
      (c : IsCandidate q.checked q.locked t r) (up : s.link ≡ answered)
      (change : OutboxEvent Json → OutboxEvent Json) (o : Result SqlError Bool × Table Json) where
    abbrev pub leased : OutboxEvent Json
    leased = set_claimed token deadline r

    abbrev pub after : Table Json
    after = claimed_table token deadline r t

    abbrev pub Answer : Type 0
    Answer = Decides s (is_held r.event_id token s.checked) change after o

    leased-mem : Memᴰ leased after
    leased-mem = update_where-changed _ _ t r c.member (text_eq_refl r.event_id)

    only_leased :
        (x : OutboxEvent Json)
        → Memᴰ x after
        → is_held r.event_id token s.checked x ≡ true
        → x ≡ leased
    only_leased x m h =
        Unique-eq after (claimed_table-Unique r uniq) leased-mem m (and-eq-true _ _ h).0

    -- In time, the statement finds the leased row.
    pub granted-in_time : Answer → s.checked < deadline → (o.0 ≡ ok true) × Memᴰ (change leased) o.1
    granted-in_time (inl (x, m, h, e, changed)) before =
        (rw (e, up) refl, rw (e, up) (rw (only_leased x m h) at changed))
    granted-in_time (inr (absent, e)) before =
        let held : is_held r.event_id token s.checked leased ≡ true =
          rw
            (
              text_eq_refl r.event_id,
              candidate-undelivered r c,
              text_eq_refl token,
              lt→ltb s.checked deadline before,
            )
            refl in
        cc (absent leased leased-mem)

    -- Once the lease has run out, it finds none.
    pub granted-late : Answer → deadline ≤ s.checked → o ≡ (ok false, after)
    granted-late (inl (x, m, h, e, changed)) late =
        let ahead : is_held r.event_id token s.checked leased ≡ true =
          rw (only_leased x m h) at h in
        absurd (ground arith)
    granted-late (inr (absent, e)) late = rw (e, up) refl

  -- In a table with unique identifiers, if the claim and the acknowledgement are answered, and the
  -- acknowledgement runs on the table that the claim left and before the lease ends, it answers
  -- true, and the claimed row is delivered at its time, with one attempt more and no lease.
  pub claim-acknowledge :
      (claim : ClaimedEvent Json) (u : Table Json) (s : Statement)
      → Unique t
      → q.link ≡ answered
      → claim_next timestamp_text d worker_id q t ≡ (ok (some claim), u)
      → s.link ≡ answered
      → s.checked < q.stamped + d.lease_seconds * second
      → (r : OutboxEvent Json) × IsCandidate q.checked q.locked t r
        × ((acknowledge claim s u).0 ≡ ok true)
        × Memᴰ
            (record r {
              attempt_count = r.attempt_count + 1;
              claimed_by = none;
              claim_until = none;
              delivered_at = some s.stamped;
            })
            (acknowledge claim s u).1
  claim-acknowledge claim u s uniq up e sup h = elim (claim_next-Claims up) [
    | inl (r, c, _, o) ↦
        let (a, m) =
          granted-in_time r s uniq c sup (set_delivered s.stamped)
            (acknowledge (granted r) s (claimed_table token deadline r t))
            (acknowledge-Decides (granted r) s (claimed_table token deadline r t)
              (claimed_table-Unique r uniq))
            h in
        let claim_eq : claim ≡ granted r = cc in
        let table_eq : u ≡ claimed_table token deadline r t = cc in
        (r, c, rw (claim_eq, table_eq) a, rw (claim_eq, table_eq) m)
    | inr (inl (_, _, _, o)) ↦ cc
    | inr (inr (_, o)) ↦ cc
  ]
