-- ===== src/Dispatcher/Steps.antt =====
-- The steps of the outbox table: the statements of the workers of core/src/dispatcher.rs in any
-- order, with any claim, old or current, and the rows that producers append.
use better_commerce.Prelude.{
  ℕ, ◌+◌, ◌*◌, ◌≡◌, refl, ◌⊎◌, inl, inr, Bool, true, none, some, Text, [], ◌∷◌, ◌++◌, Memᴰ,
  Option-cases, Bool-cases, text_eq, arith, ltb,
}
use better_commerce.Dispatcher.Types.{OutboxEvent, ClaimedEvent}
use better_commerce.Dispatcher.Table.{
  is_eligible, candidate, update_where, set_claimed, is_held, set_delivered, set_released,
  is_held_alive, set_dead,
}
use better_commerce.Dispatcher.Operations.{
  Link, answered, unsent, unanswered, answer, Table, Statement, ClaimStatement,
  PostgresOutboxDispatcher, claim_token, second, max_integer, claim_row, claim_next, update_one,
  acknowledge, release_rejected, dead_letter,
}
use better_commerce.Dispatcher.Rows.{Unique-eq}
use better_commerce.Dispatcher.Invariant.{
  IsLawful, IsSound, IsAppended, update_where-IsSound, append-IsSound,
}
use better_commerce.Dispatcher.Selection.{IsCandidate, candidate-IsCandidate}

module _ {Json : Type 0} where
  answer-table :
      {A : Type 0} (l : Link) (a : A) (t u : Table Json)
      → ((answer l a t u).1 ≡ t) ⊎ ((answer l a t u).1 ≡ u)
  answer-table answered a t u = inr refl
  answer-table unsent a t u = inl refl
  answer-table unanswered a t u = inr refl

  answer_same : {A : Type 0} (l : Link) (a : A) (t : Table Json) → (answer l a t t).1 ≡ t
  answer_same answered a t = refl
  answer_same unsent a t = refl
  answer_same unanswered a t = refl

  pub update_one-table :
      (s : Statement) (test : OutboxEvent Json → Bool)
      (change : OutboxEvent Json → OutboxEvent Json) (t : Table Json)
      → ((update_one s test change t).1 ≡ t)
        ⊎ ((update_one s test change t).1 ≡ update_where test change t)
  unfolding update_one
  update_one-table s test change t = answer-table s.link _ t (update_where test change t)

  update_one-IsSound :
      (s : Statement) (test : OutboxEvent Json → Bool)
      (change : OutboxEvent Json → OutboxEvent Json) (t : Table Json)
      → IsSound t
      → ((r : OutboxEvent Json) → (change r).event_id ≡ r.event_id)
      → ((r : OutboxEvent Json) → Memᴰ r t → test r ≡ true → IsLawful t r (change r))
      → IsSound (update_one s test change t).1
  update_one-IsSound s test change t v keeps lawful = elim (update_one-table s test change t) [
    | inl e ↦ rw e v
    | inr e ↦ rw e (update_where-IsSound test change t lawful keeps v)
  ]

  delivered-IsLawful :
      (now : ℕ) (id token : Text) (checked : ℕ) (t : Table Json) (r : OutboxEvent Json)
      → is_held id token checked r ≡ true
      → IsLawful t r (set_delivered now r)
  delivered-IsLawful now id token checked t r h = record {
    event_id = refl;
    aggregate_type = refl;
    aggregate_id = refl;
    aggregate_sequence = refl;
    final = λ d. ground arith;
    starts = λ b. inl (ground arith);
    consistent = λ k. ground arith;
  }

  released-IsLawful :
      (now : ℕ) (id token : Text) (checked : ℕ) (t : Table Json) (r : OutboxEvent Json)
      → is_held id token checked r ≡ true
      → IsLawful t r (set_released now r)
  released-IsLawful now id token checked t r h = record {
    event_id = refl;
    aggregate_type = refl;
    aggregate_id = refl;
    aggregate_sequence = refl;
    final = λ d. ground arith;
    starts = λ b. inl (ground arith);
    consistent = λ k. ground arith;
  }

  dead-IsLawful :
      (now : ℕ) (reason : Text) (id token : Text) (checked : ℕ) (t : Table Json)
      (r : OutboxEvent Json)
      → is_held_alive id token checked r ≡ true
      → IsLawful t r (set_dead now reason r)
  dead-IsLawful now reason id token checked t r h = record {
    event_id = refl;
    aggregate_type = refl;
    aggregate_id = refl;
    aggregate_sequence = refl;
    final = λ d. ground arith;
    starts = λ b. inl (ground arith);
    consistent = λ k. ground arith;
  }

  abbrev pub claimed_table : Text → ℕ → OutboxEvent Json → Table Json → Table Json
  claimed_table token until r t =
      update_where (λ e. text_eq e.event_id r.event_id) (set_claimed token until) t

  module _ (timestamp_text : ℕ → Text) where
    claim_row-table :
        (d : PostgresOutboxDispatcher) (worker_id : Text) (q : ClaimStatement) (t : Table Json)
        (r : OutboxEvent Json)
        → let u = (claim_row timestamp_text d worker_id q t (some r)).1 in
          (u ≡ t)
          ⊎ (u
              ≡ claimed_table
                  (claim_token worker_id q.uuid)
                  (q.stamped + d.lease_seconds * second)
                  r
                  t)
    unfolding claim_row
    claim_row-table d worker_id q t r = elim (Bool-cases (ltb max_integer (r.attempt_count + 1))) [
      | inl e ↦ rw e (inl refl)
      | inr e ↦ rw e (answer-table q.link _ t _)
    ]

    -- A claim leaves the table alone, or leases the candidate.
    pub claim_next-table :
        (d : PostgresOutboxDispatcher) (worker_id : Text) (q : ClaimStatement) (t : Table Json)
        → ((claim_next timestamp_text d worker_id q t).1 ≡ t)
          ⊎ ((r : OutboxEvent Json) × IsCandidate q.checked q.locked t r
              × ((claim_next timestamp_text d worker_id q t).1
                  ≡ claimed_table
                      (claim_token worker_id q.uuid)
                      (q.stamped + d.lease_seconds * second)
                      r
                      t))
    unfolding claim_next
    claim_next-table d worker_id q t = elim (Option-cases (candidate q.checked q.locked t)) [
      | inl e ↦ rw e (unfold claim_row in inl (answer_same q.link none t))
      | inr (r, e) ↦ rw e (elim (claim_row-table d worker_id q t r) [
        | inl same ↦ inl same
        | inr new ↦ inr (r, candidate-IsCandidate q.checked q.locked t e, new)
      ])
    ]

    pub data Step (t u : Table Json) : Type 0 where
      claims :
          (d : PostgresOutboxDispatcher) (worker_id : Text) (q : ClaimStatement)
          → u ≡ (claim_next timestamp_text d worker_id q t).1
          → Step t u
      acknowledges :
          (claim : ClaimedEvent Json) (s : Statement) → u ≡ (acknowledge claim s t).1 → Step t u
      releases :
          (claim : ClaimedEvent Json) (s : Statement)
          → u ≡ (release_rejected claim s t).1
          → Step t u
      dead_letters :
          (claim : ClaimedEvent Json) (reason : Text) (s : Statement)
          → u ≡ (dead_letter claim reason s t).1
          → Step t u
      appends : (r : OutboxEvent Json) → IsAppended t r → u ≡ t ++ r ∷ [] → Step t u

    pub data Reach (t : Table Json) : Table Json → Type 0 where
      here : Reach t t
      next : {u v : Table Json} → Reach t u → Step u v → Reach t v

    claimed-IsLawful :
        (token : Text) (until : ℕ) (now : ℕ) (locked : Text → Bool) (t : Table Json)
        (r : OutboxEvent Json)
        → IsSound t
        → IsCandidate now locked t r
        → (e : OutboxEvent Json) → Memᴰ e t
        → text_eq e.event_id r.event_id ≡ true
        → IsLawful t e (set_claimed token until e)
    claimed-IsLawful token until now locked t r v c e m h =
        let same : e ≡ r = Unique-eq t v.unique c.member m h in
        let can : is_eligible now t e ≡ true = rw same c.eligible in
        unfold is_eligible in
        record {
          event_id = refl;
          aggregate_type = refl;
          aggregate_id = refl;
          aggregate_sequence = refl;
          final = λ d. d;
          starts = λ _. inr (ground arith);
          consistent = λ k. record {
            lease = refl;
            delivered = ground arith;
            dead = ground arith;
            one_end = k.one_end;
            reason = k.reason;
          };
        }

    -- Every step keeps the invariant.
    pub Step-IsSound : {t u : Table Json} → Step t u → IsSound t → IsSound u
    unfolding acknowledge release_rejected dead_letter
    Step-IsSound {t} (claims d worker_id q e) v = elim (claim_next-table d worker_id q t) [
      | inl same ↦ rw (e, same) v
      | inr (r, c, new) ↦
          rw (e, new)
            (update_where-IsSound _ _ t (claimed-IsLawful _ _ q.checked q.locked t r v c)
              (λ _. refl) v)
    ]
    Step-IsSound {t} (acknowledges claim s e) v =
        rw (e, acknowledge)
          (update_one-IsSound s _ _ t v (λ _. refl)
            (λ r m h.
              delivered-IsLawful s.stamped claim.request.event_id claim.claimed_by s.checked t r h))
    Step-IsSound {t} (releases claim s e) v =
        rw (e, release_rejected)
          (update_one-IsSound s _ _ t v (λ _. refl)
            (λ r m h.
              released-IsLawful s.stamped claim.request.event_id claim.claimed_by s.checked t r h))
    Step-IsSound {t} (dead_letters claim reason s e) v =
        rw (e, dead_letter)
          (update_one-IsSound s _ _ t v (λ _. refl)
            (λ r m h.
              dead-IsLawful s.stamped reason claim.request.event_id claim.claimed_by s.checked t r
                h))
    Step-IsSound (appends r a e) v = rw e (append-IsSound _ r v a)

    pub Reach-IsSound : {first last : Table Json} → IsSound first → Reach first last → IsSound last
    Reach-IsSound sound (next steps step) = Step-IsSound step (Reach-IsSound sound steps)
    Reach-IsSound sound here = sound

  pub empty-IsSound : IsSound {Json = Json} []
  empty-IsSound = record {
    unique = tt;
    consistent = λ r m. elim m [ ];
    in_order = λ r e m k b s. elim m [ ];
    placed = λ r e m k a p. elim m [ ];
  }
