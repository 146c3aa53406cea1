-- ===== src/Dispatcher/Order.antt =====
-- The order of the events of an aggregate under every interleaving of the statements of
-- core/src/dispatcher.rs, and what a resolved event stays.
use better_commerce.Prelude.{
  snoc-mem, ℕ, ◌≡◌, inl, inr, Bool, true, false, ◌&&◌, Text, [], Memᴰ, Bool-cases, text_eq, arith,
  lt_cases,
}
use better_commerce.Dispatcher.Types.{OutboxEvent}
use better_commerce.Dispatcher.Table.{is_null, is_before, same_aggregate, is_eligible}
use better_commerce.Dispatcher.Operations.{
  Table, Statement, update_one, acknowledge, release_rejected, dead_letter,
}
use better_commerce.Dispatcher.Rows.{update_where-mem, Unique-eq}
use better_commerce.Dispatcher.Invariant.{same_aggregate_symm, IsSound, is_started}
use better_commerce.Dispatcher.Selection.{IsCandidate}
use better_commerce.Dispatcher.Steps.{
  Step, Reach, claims, acknowledges, releases, dead_letters, appends, here, next, Reach-IsSound,
  empty-IsSound, claim_next-table, update_one-table,
}

module _ {Json : Type 0} (timestamp_text : ℕ → Text) where
  -- From an empty table, by any statements of the workers and any rows of producers that have new
  -- identifiers, bear no mark of a worker and stand behind all events of their aggregate: while an
  -- event is leased, or once it is delivered or dead-lettered, all earlier events of its aggregate
  -- are delivered.
  pub started_in_order :
      {t : Table Json} (r e : OutboxEvent Json)
      → Reach timestamp_text [] t
      → Memᴰ r t
      → Memᴰ e t
      → is_before e r ≡ true
      → is_started r ≡ true
      → is_null e.delivered_at ≡ false
  started_in_order r e reach = (Reach-IsSound timestamp_text empty-IsSound reach).in_order r e

  is_leased-is_started : (r : OutboxEvent Json) → is_null r.claimed_by ≡ false → is_started r ≡ true
  is_leased-is_started r h = ground arith

  leased_behind :
      {t : Table Json} (r e : OutboxEvent Json)
      → IsSound t
      → Memᴰ r t
      → Memᴰ e t
      → is_null r.claimed_by ≡ false
      → is_null e.claimed_by ≡ false
      → is_before e r ≡ true
      → ⊥
  leased_behind r e v mr me cr ce b =
      ground
        (arith, v.in_order r e mr me b (is_leased-is_started r cr), (v.consistent e me).delivered)

  -- At most one event of an aggregate is leased at a time.
  pub one_lease :
      {t : Table Json} (r e : OutboxEvent Json)
      → Reach timestamp_text [] t
      → Memᴰ r t
      → Memᴰ e t
      → same_aggregate e r ≡ true
      → is_null r.claimed_by ≡ false
      → is_null e.claimed_by ≡ false
      → e ≡ r
  one_lease r e reach mr me same cr ce =
      let v = Reach-IsSound timestamp_text empty-IsSound reach in
      elim (lt_cases e.aggregate_sequence r.aggregate_sequence) [
        | inl below ↦ absurd (leased_behind r e v mr me cr ce (rw same below))
        | inr (inl above) ↦
            absurd (leased_behind e r v me mr ce cr (rw (same_aggregate_symm e r same) above))
        | inr (inr place) ↦ v.placed r e mr me same place
      ]

  -- The row is out of reach of every statement.
  abbrev IsClosed : OutboxEvent Json → Type 0
  IsClosed r =
      ((is_null r.delivered_at && is_null r.dead_lettered_at) ≡ false)
      × (is_null r.claimed_by ≡ true)

  update_one-mem :
      (s : Statement) (test : OutboxEvent Json → Bool)
      (change : OutboxEvent Json → OutboxEvent Json) (t : Table Json) (r : OutboxEvent Json)
      → Memᴰ r t
      → test r ≡ false
      → Memᴰ r (update_one s test change t).1
  update_one-mem s test change t r m h = elim (update_one-table s test change t) [
    | inl e ↦ rw e m
    | inr e ↦ rw e (update_where-mem test change t r m h)
  ]

  closed-unclaimable :
      (now : ℕ) (locked : Text → Bool) (t : Table Json) (r c : OutboxEvent Json)
      → IsSound t
      → Memᴰ r t
      → IsClosed r
      → IsCandidate now locked t c
      → text_eq r.event_id c.event_id ≡ false
  closed-unclaimable now locked t r c v m closed k =
      elim (Bool-cases (text_eq r.event_id c.event_id)) [
        | inl h ↦
            let same : r ≡ c = Unique-eq t v.unique k.member m h in
            let can : is_eligible now t r ≡ true = rw same k.eligible in
            unfold is_eligible in ground arith
        | inr h ↦ h
      ]

  Step-closed :
      {t u : Table Json} (r : OutboxEvent Json)
      → Step timestamp_text t u
      → IsSound t
      → Memᴰ r t
      → IsClosed r
      → Memᴰ r u
  unfolding acknowledge release_rejected dead_letter
  Step-closed {t} r (claims d worker_id q e) v m closed =
      elim (claim_next-table timestamp_text d worker_id q t) [
        | inl same ↦ rw (e, same) m
        | inr (c, k, new) ↦
            rw (e, new)
              (update_where-mem _ _ t r m
                (closed-unclaimable q.checked q.locked t r c v m closed k))
      ]
  Step-closed {t} r (acknowledges claim s e) v m closed =
      rw e (update_one-mem s _ _ t r m (ground arith))
  Step-closed {t} r (releases claim s e) v m closed =
      rw e (update_one-mem s _ _ t r m (ground arith))
  Step-closed {t} r (dead_letters claim reason s e) v m closed =
      rw e (update_one-mem s _ _ t r m (ground arith))
  Step-closed r (appends new a e) v m closed = rw e (snoc-mem new m)

  Reach-closed :
      {t u : Table Json} (r : OutboxEvent Json)
      → Reach timestamp_text t u
      → IsSound t
      → Memᴰ r t
      → IsClosed r
      → Memᴰ r u
  Reach-closed r here v m closed = m
  Reach-closed r (next p s) v m closed =
      Step-closed r s (Reach-IsSound timestamp_text v p) (Reach-closed r p v m closed) closed

  -- A delivered event stays as it is for ever.
  pub delivered_final :
      {t u : Table Json} (r : OutboxEvent Json)
      → Reach timestamp_text [] t
      → Reach timestamp_text t u
      → Memᴰ r t
      → is_null r.delivered_at ≡ false
      → Memᴰ r u
  delivered_final r before after m h =
      let v = Reach-IsSound timestamp_text empty-IsSound before in
      let k = v.consistent r m in Reach-closed r after v m (ground arith)

  -- A dead-lettered event stays as it is for ever, and bars the way to every later event of its
  -- aggregate: none is ever leased, delivered or dead-lettered.
  pub dead_letter_barrier :
      {t u : Table Json} (r : OutboxEvent Json)
      → Reach timestamp_text [] t
      → Reach timestamp_text t u
      → Memᴰ r t
      → is_null r.dead_lettered_at ≡ false
      → Memᴰ r u × ((s : OutboxEvent Json) → Memᴰ s u → is_before r s ≡ true → is_started s ≡ false)
  dead_letter_barrier {u = u} r before after m h =
      let v = Reach-IsSound timestamp_text empty-IsSound before in
      let k = v.consistent r m in
      let stays : Memᴰ r u = Reach-closed r after v m (ground arith) in
      (
        stays,
        λ s ms b. elim (Bool-cases (is_started s)) [
          | inl on ↦
              cc ((Reach-IsSound timestamp_text v after).in_order s r ms stays b on, k.one_end, h)
          | inr off ↦ off
        ],
      )
