-- ===== src/Dispatcher/Progress.antt =====
-- When `claim_next` of core/src/dispatcher.rs has nothing left to claim.
use better_commerce.Prelude.{
  ℕ, zero, suc, ◌≡◌, refl, ◌≤◌, ◌<◌, ◌⊎◌, inl, inr, Bool, true, false, ◌&&◌, ◌||◌, none, Text, [],
  ◌∷◌, Memᴰ, Bool-cases, arith, leb, ok, text_eq_refl, text_eq_iff, int_eq_iff, ltb→lt, and-eq-true,
}
use better_commerce.Dispatcher.Types.{OutboxEvent}
use better_commerce.Dispatcher.Table.{
  is_null, has_passed, same_aggregate, is_before, has_earlier, is_eligible,
}
use better_commerce.Dispatcher.Operations.{
  answered, Table, ClaimStatement, PostgresOutboxDispatcher, claim_next,
}
use better_commerce.Dispatcher.Claim.{claim_next-Claims}

module _ {Json : Type 0} where
  -- The event may be retried, and no lease on it is alive.
  abbrev pub is_due : ℕ → OutboxEvent Json → Bool
  is_due now r = leb r.available_at now && (is_null r.claimed_by || has_passed r.claim_until now)

  -- The event is delivered, or an event at its place or before it in its aggregate is dead-lettered.
  abbrev pub IsSettled : Table Json → OutboxEvent Json → Type 0
  IsSettled t r =
      (is_null r.delivered_at ≡ false)
      ⊎ ((e : OutboxEvent Json) × (Memᴰ e t
            × ((same_aggregate e r ≡ true)
                × ((e.aggregate_sequence ≤ r.aggregate_sequence)
                    × (is_null e.dead_lettered_at ≡ false)))))

  same_aggregate_refl : (r : OutboxEvent Json) → same_aggregate r r ≡ true
  same_aggregate_refl r =
      ground (arith, text_eq_refl r.aggregate_type, int_eq_iff r.aggregate_id r.aggregate_id)

  same_aggregate_trans :
      (e f r : OutboxEvent Json)
      → same_aggregate e f ≡ true
      → same_aggregate f r ≡ true
      → same_aggregate e r ≡ true
  same_aggregate_trans e f r h k = ground (
    arith,
    text_eq_iff e.aggregate_type f.aggregate_type,
    text_eq_iff f.aggregate_type r.aggregate_type,
    text_eq_iff e.aggregate_type r.aggregate_type,
    int_eq_iff e.aggregate_id f.aggregate_id,
    int_eq_iff f.aggregate_id r.aggregate_id,
    int_eq_iff e.aggregate_id r.aggregate_id,
  )

  -- The row that the subquery finds.
  has_earlier-mem :
      (t : Table Json) (r : OutboxEvent Json)
      → has_earlier t r ≡ true
      → (e : OutboxEvent Json) × (Memᴰ e t
          × ((is_before e r ≡ true) × (is_null e.delivered_at ≡ true)))
  unfolding has_earlier
  has_earlier-mem [] r h = cc
  has_earlier-mem (x ∷ t) r h = elim (Bool-cases (is_before x r && is_null x.delivered_at)) [
    | inl k ↦ let (b, d) = and-eq-true (is_before x r) _ k in (x, (Memᴰ.head refl, (b, d)))
    | inr k ↦ let (e, (m, rest)) = has_earlier-mem t r (ground arith) in (e, (Memᴰ.tail m, rest))
  ]

  module _ (now : ℕ) (t : Table Json)
      (due : (r : OutboxEvent Json) → Memᴰ r t → is_due now r ≡ true)
      (nothing : (r : OutboxEvent Json) → Memᴰ r t → is_eligible now t r ≡ false) where
    blocked :
        (r : OutboxEvent Json)
        → Memᴰ r t
        → is_null r.delivered_at ≡ true
        → is_null r.dead_lettered_at ≡ true
        → has_earlier t r ≡ true
    unfolding is_eligible
    blocked r m d l = ground (arith, due r m, nothing r m)

    settled : (n : ℕ) (r : OutboxEvent Json) → Memᴰ r t → r.aggregate_sequence < n → IsSettled t r
    settled zero r m below = absurd (omega arith)
    settled (suc n) r m below = elim (Bool-cases (is_null r.delivered_at)) [
      | inr d ↦ inl d
      | inl d ↦ elim (Bool-cases (is_null r.dead_lettered_at)) [
        | inr l ↦ inr (r, (m, (same_aggregate_refl r, (omega arith, l))))
        | inl l ↦
            let (e, (k, (before, open'))) = has_earlier-mem t r (blocked r m d l) in
            let (same, less) = and-eq-true (same_aggregate e r) _ before in
            let lower : e.aggregate_sequence < r.aggregate_sequence = ltb→lt _ _ less in
            elim (settled n e k (omega arith)) [
              | inl done ↦ cc
              | inr (f, (j, (of, (le, dead)))) ↦
                  inr (f, (j, (same_aggregate_trans f e r of same, (omega arith, dead))))
            ]
      ]
    ]

  -- If an answered claim finds nothing although every event may be retried, no lease is alive and no
  -- row is locked, then each event is delivered, or one at its place or before it in its aggregate
  -- is dead-lettered.
  pub claim_next-IsSettled :
      (timestamp_text : ℕ → Text) (d : PostgresOutboxDispatcher) (worker_id : Text)
      (q : ClaimStatement) (t : Table Json)
      → q.link ≡ answered
      → (claim_next timestamp_text d worker_id q t).0 ≡ ok none
      → ((r : OutboxEvent Json) → Memᴰ r t → is_due q.checked r ≡ true)
      → ((r : OutboxEvent Json) → Memᴰ r t → q.locked r.event_id ≡ false)
      → (r : OutboxEvent Json) → Memᴰ r t
      → IsSettled t r
  claim_next-IsSettled timestamp_text d worker_id q t up none' due free r m =
      elim (claim_next-Claims timestamp_text d worker_id q t up) [
        | inl (_, _, _, o) ↦ cc
        | inr (inl (_, _, _, o)) ↦ cc
        | inr (inr (absent, o)) ↦
            settled q.checked t due (λ s k. ground (arith, absent s k, free s k))
              (suc r.aggregate_sequence) r m (omega arith)
      ]
