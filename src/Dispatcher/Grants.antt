-- ===== src/Dispatcher/Grants.antt =====
-- Which row `claim_next` of core/src/dispatcher.rs leases, and what it writes.
use better_commerce.Prelude.{
  ℕ, ◌+◌, ◌*◌, ◌<◌, ◌≤◌, ◌^◌, ◌-◌, ◌≡◌, refl, ap, ◌⊎◌, inl, inr, true, false, ◌||◌, Option, none,
  some, Text, text, [], ◌∷◌, ◌++◌, Memᴰ, Bool-cases, text_eq_iff, eq_of_text_eq, int_eq_iff, arith,
  leb→le, le→leb, lt→ltb, ltb→lt, ok, err, Result, and-eq-true, text_lt,
}
use better_commerce.Dispatcher.Types.{OutboxEvent, ClaimedEvent, SqlError, integer_out_of_range}
use better_commerce.Dispatcher.Table.{
  is_null, has_passed, is_before, has_earlier, is_eligible, precedes, update_where,
}
use better_commerce.Dispatcher.Operations.{
  answered, Table, ClaimStatement, PostgresOutboxDispatcher, claim_next,
}
use better_commerce.Dispatcher.Rows.{has_earlier-delivered}
use better_commerce.Dispatcher.Selection.{IsCandidate}
use better_commerce.Dispatcher.Claim.{claim_next-Claims}
use better_commerce.Dispatcher.Effects.{changed_at}
use better_commerce.Dispatcher.Holders.{is_null-none}

free-cases :
    (owner : Option Text) (until : Option ℕ) (now : ℕ)
    → (is_null owner || has_passed until now) ≡ true
    → (owner ≡ none) ⊎ ((u : ℕ) × ((until ≡ some u) × (u ≤ now)))
free-cases none until now h = inl refl
free-cases (some owner) none now h = cc
free-cases (some owner) (some u) now h = inr (u, (refl, leb→le u now h))

free-true :
    (owner : Option Text) (until : Option ℕ) (now : ℕ)
    → (owner ≡ none) ⊎ ((u : ℕ) × ((until ≡ some u) × (u ≤ now)))
    → (is_null owner || has_passed until now) ≡ true
free-true owner until now (inl h) = rw h refl
free-true none until now (inr h) = refl
free-true (some owner) until now (inr (u, (h, k))) = rw (h, le→leb u now k) refl

delivered-not_null : (o : Option ℕ) → ¬ (o ≡ none) → is_null o ≡ false
delivered-not_null none h = absurd (h refl)
delivered-not_null (some n) h = refl

module _ {Json : Type 0} where
  -- A row that may be leased now: not delivered, not dead-lettered, available, without a lease that
  -- runs, and with all earlier events of its aggregate delivered.
  pub record IsEligible (now : ℕ) (t : Table Json) (r : OutboxEvent Json) : Type 0 where
    pub undelivered : r.delivered_at ≡ none
    pub alive : r.dead_lettered_at ≡ none
    pub available : r.available_at ≤ now
    pub free :
        (r.claimed_by ≡ none) ⊎ ((until : ℕ) × ((r.claim_until ≡ some until) × (until ≤ now)))
    pub head :
        (e : OutboxEvent Json)
        → Memᴰ e t
        → e.aggregate_type ≡ r.aggregate_type
        → e.aggregate_id ≡ r.aggregate_id
        → e.aggregate_sequence < r.aggregate_sequence
        → ¬ (e.delivered_at ≡ none)

  is_before-intro :
      (e r : OutboxEvent Json)
      → e.aggregate_type ≡ r.aggregate_type
      → e.aggregate_id ≡ r.aggregate_id
      → e.aggregate_sequence < r.aggregate_sequence
      → is_before e r ≡ true
  is_before-intro e r h k l =
      rw
        (
          (text_eq_iff e.aggregate_type r.aggregate_type).1 h,
          (int_eq_iff e.aggregate_id r.aggregate_id).1 k,
          lt→ltb e.aggregate_sequence r.aggregate_sequence l,
        )
        refl

  no_earlier :
      (t : Table Json) (r : OutboxEvent Json)
      → ((e : OutboxEvent Json) → Memᴰ e t → is_before e r ≡ true → is_null e.delivered_at ≡ false)
      → has_earlier t r ≡ false
  unfolding has_earlier
  no_earlier [] r h = refl
  no_earlier (x ∷ t) r h =
      let rest = no_earlier t r (λ e m. h e (Memᴰ.tail m)) in
      elim (Bool-cases (is_before x r)) [
        | inl b ↦ rw (b, h x (Memᴰ.head refl) b, rest) refl
        | inr b ↦ rw (b, rest) refl
      ]

  is_eligible-IsEligible :
      (now : ℕ) (t : Table Json) (r : OutboxEvent Json)
      → is_eligible now t r ≡ true
      → IsEligible now t r
  unfolding is_eligible
  is_eligible-IsEligible now t r h =
      let (fresh, h1) = and-eq-true _ _ h in
      let (alive, h2) = and-eq-true _ _ h1 in
      let (available, h3) = and-eq-true _ _ h2 in
      let (free, h4) = and-eq-true _ _ h3 in
      record {
        undelivered = is_null-none _ fresh;
        alive = is_null-none _ alive;
        available = leb→le _ _ available;
        free = free-cases r.claimed_by r.claim_until now free;
        head = λ e m p q l d. cc (
          has_earlier-delivered t r e (ground arith) m (is_before-intro e r p q l),
          ap is_null d,
        );
      }

  IsEligible-is_eligible :
      (now : ℕ) (t : Table Json) (r : OutboxEvent Json)
      → IsEligible now t r
      → is_eligible now t r ≡ true
  unfolding is_eligible
  IsEligible-is_eligible now t r h =
      let clear : has_earlier t r ≡ false = no_earlier t r (λ e m b.
        let (same, l) = and-eq-true _ _ b in
        let (p, q) = and-eq-true _ _ same in
        delivered-not_null e.delivered_at
          (h.head e m (eq_of_text_eq _ _ p) ((int_eq_iff _ _).0 q) (ltb→lt _ _ l))) in
      rw
        (
          clear,
          le→leb _ _ h.available,
          free-true r.claimed_by r.claim_until now h.free,
          h.undelivered,
          h.alive,
        )
        refl

  -- `r` is not behind `s` in the order of occurrence, and of the identifiers for one time.
  abbrev pub IsNotBehind : OutboxEvent Json → OutboxEvent Json → Type 0
  IsNotBehind r s =
      (r.occurred_at < s.occurred_at)
      ⊎ ((r.occurred_at ≡ s.occurred_at) × (text_lt s.event_id r.event_id ≡ false))

  precedes-IsNotBehind : (r s : OutboxEvent Json) → precedes s r ≡ false → IsNotBehind r s
  precedes-IsNotBehind r s h = ground arith

  module _ (timestamp_text : ℕ → Text) (d : PostgresOutboxDispatcher) (worker_id : Text)
      (q : ClaimStatement) (t : Table Json) where
    -- A row that the query may take.
    abbrev pub MayTake : OutboxEvent Json → Type 0
    MayTake r = IsEligible q.checked t r × (q.locked r.event_id ≡ false)

    -- The row is the first that the query may take.
    pub record IsFirst (r : OutboxEvent Json) : Type 0 where
      pub member : Memᴰ r t
      pub may_take : MayTake r
      pub first : (s : OutboxEvent Json) → Memᴰ s t → MayTake s → IsNotBehind r s

    -- The claim that is handed out for a row, and the row under its lease.
    abbrev pub handed_out : OutboxEvent Json → ClaimedEvent Json
    handed_out r = record {
      request = record {
        event_id = r.event_id;
        event_type = r.event_type;
        event_version = r.event_version;
        aggregate_type = r.aggregate_type;
        aggregate_id = r.aggregate_id;
        aggregate_sequence = r.aggregate_sequence;
        occurred_at = timestamp_text r.occurred_at;
        payload_schema_version = r.payload_schema_version;
        payload = r.payload;
      };
      claimed_by = worker_id ++ (text ":" ++ q.uuid);
    }

    abbrev pub under_lease : OutboxEvent Json → OutboxEvent Json
    under_lease e = record e {
      claimed_by = some (worker_id ++ (text ":" ++ q.uuid));
      claim_until = some (q.stamped + d.lease_seconds * 1_000_000);
      attempt_count = e.attempt_count + 1;
    }

    -- The first row is leased, unless its attempts are used up; or there is no row to take.
    abbrev pub Grants : Result SqlError (Option (ClaimedEvent Json)) × Table Json → Type 0
    Grants out =
        ((r : OutboxEvent Json) × IsFirst r
          × (((r.attempt_count < 2 ^ 31 - 1)
                × (out ≡ (ok (some (handed_out r)), changed_at r.event_id under_lease t)))
              ⊎ ((2 ^ 31 - 1 ≤ r.attempt_count) × (out ≡ (err integer_out_of_range, t)))))
        ⊎ (((s : OutboxEvent Json) → Memᴰ s t → ¬ MayTake s) × (out ≡ (ok none, t)))

    IsCandidate-IsFirst : (r : OutboxEvent Json) → IsCandidate q.checked q.locked t r → IsFirst r
    IsCandidate-IsFirst r c = record {
      member = c.member;
      may_take = (is_eligible-IsEligible q.checked t r c.eligible, c.unlocked);
      first = λ s m can.
          precedes-IsNotBehind r s (c.first s m (IsEligible-is_eligible q.checked t s can.0) can.1);
    }

    -- An answered claim leases the first row, by the time of occurrence and then by the identifier,
    -- of those that are not locked, not delivered, not dead-lettered, available, without a running
    -- lease and behind no undelivered event of their aggregate: it writes a new token, the end of
    -- the lease and one attempt more into this row alone; it fails and changes nothing if the
    -- attempts are used up, and finds nothing only if there is no such row.
    pub claim_next-Grants : q.link ≡ answered → Grants (claim_next timestamp_text d worker_id q t)
    unfolding update_where
    claim_next-Grants up = elim (claim_next-Claims timestamp_text d worker_id q t up) [
      | inl (r, c, room, e) ↦ inl (r, IsCandidate-IsFirst r c, inl (ground arith, e))
      | inr (inl (r, c, full, e)) ↦ inl (r, IsCandidate-IsFirst r c, inr (ground arith, e))
      | inr (inr (absent, e)) ↦ inr (
        λ s m can.
            let yes : is_eligible q.checked t s ≡ true =
              IsEligible-is_eligible q.checked t s can.0 in
            cc (rw (yes, can.1) at (absent s m)),
        e,
      )
    ]
