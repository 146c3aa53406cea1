-- ===== src/Dispatcher/Lease.antt =====
-- The updates of `acknowledge`, `release_rejected` and `dead_letter` of core/src/dispatcher.rs in the
-- terms of their conditions and assignments.
use better_commerce.Prelude.{
  ◌≡◌, refl, ◌⊎◌, inl, inr, Bool, true, false, Text, [], ◌∷◌, Memᴰ, All, All-mem, Bool-cases,
  text_eq, text_eq_iff, arith, Result,
}
use better_commerce.Dispatcher.Types.{OutboxEvent, ClaimedEvent, SqlError}
use better_commerce.Dispatcher.Table.{
  update_where, rows_affected, is_held, is_held_alive, set_delivered, set_released, set_dead,
}
use better_commerce.Dispatcher.Operations.{
  answer, Table, Statement, update_one, acknowledge, release_rejected, dead_letter,
}
use better_commerce.Dispatcher.Rows.{Unique, update_where-changed}

module _ {Json : Type 0} where
  -- A test that only rows with one identifier pass.
  abbrev Names : Text → (OutboxEvent Json → Bool) → Type 0
  Names id test = (r : OutboxEvent Json) → test r ≡ true → text_eq r.event_id id ≡ true

  rows_affected-zero :
      (test : OutboxEvent Json → Bool) (t : Table Json)
      → All (λ r. test r ≡ false) t
      → rows_affected test t ≡ 0
  unfolding rows_affected
  rows_affected-zero test [] h = refl
  rows_affected-zero test (x ∷ t) h = rw (h.0) (rows_affected-zero test t h.1)

  update_where-same :
      (test : OutboxEvent Json → Bool) (change : OutboxEvent Json → OutboxEvent Json)
      (t : Table Json)
      → All (λ r. test r ≡ false) t
      → update_where test change t ≡ t
  unfolding update_where
  update_where-same test change [] h = refl
  update_where-same test change (x ∷ t) h = ground (arith, h.0, update_where-same test change t h.1)

  others-fail :
      (id : Text) (test : OutboxEvent Json → Bool) (x : OutboxEvent Json) (t : Table Json)
      → Names id test
      → text_eq x.event_id id ≡ true
      → All (λ e. text_eq e.event_id x.event_id ≡ false) t
      → All (λ r. test r ≡ false) t
  others-fail id test x [] names h u = tt
  others-fail id test x (e ∷ t) names h u =
      (ground (arith, names e, u.0, text_eq_iff x.event_id id), others-fail id test x t names h u.1)

  -- Either one row passes the test, or none does.
  rows_affected-one :
      (id : Text) (test : OutboxEvent Json → Bool) (t : Table Json)
      → Names id test
      → Unique t
      → ((r : OutboxEvent Json) × Memᴰ r t × (test r ≡ true) × (rows_affected test t ≡ 1))
        ⊎ All (λ r. test r ≡ false) t
  unfolding rows_affected
  rows_affected-one id test [] names u = inr tt
  rows_affected-one id test (x ∷ t) names u = elim (Bool-cases (test x)) [
    | inl h ↦ inl (
      x,
      Memᴰ.head refl,
      h,
      rw (h, rows_affected-zero test t (others-fail id test x t names (names x h) u.0)),
    )
    | inr h ↦ elim (rows_affected-one id test t names u.1) [
      | inl (r, m, k, n) ↦ inl (r, Memᴰ.tail m, k, rw h n)
      | inr absent ↦ inr (h, absent)
    ]
  ]

  -- An update by a test that names one row reports, and changes, that row or nothing.
  abbrev pub Decides :
      Statement
      → (OutboxEvent Json → Bool)
      → (OutboxEvent Json → OutboxEvent Json)
      → Table Json
      → Result SqlError Bool × Table Json
      → Type 0
  Decides s test change t o =
      ((r : OutboxEvent Json) × Memᴰ r t
        × (test r ≡ true)
        × (o ≡ answer s.link true t (update_where test change t))
        × Memᴰ (change r) (update_where test change t))
      ⊎ (((r : OutboxEvent Json) → Memᴰ r t → test r ≡ false) × (o ≡ answer s.link false t t))

  update_one-Decides :
      (id : Text) (s : Statement) (test : OutboxEvent Json → Bool)
      (change : OutboxEvent Json → OutboxEvent Json) (t : Table Json)
      → Names id test
      → Unique t
      → Decides s test change t (update_one s test change t)
  unfolding update_one
  update_one-Decides id s test change t names u = elim (rows_affected-one id test t names u) [
    | inl (r, m, h, n) ↦ inl (r, m, h, rw n refl, update_where-changed test change t r m h)
    | inr absent ↦ inr (
      (λ r m. All-mem (λ x. test x ≡ false) t absent m),
      rw (rows_affected-zero test t absent, update_where-same test change t absent),
    )
  ]

  module _ (claim : ClaimedEvent Json) (s : Statement) (t : Table Json) (u : Unique t) where
    open claim use {request, claimed_by}

    abbrev pub holds : OutboxEvent Json → Bool
    holds = is_held request.event_id claimed_by s.checked

    abbrev pub holds_alive : OutboxEvent Json → Bool
    holds_alive = is_held_alive request.event_id claimed_by s.checked

    -- `acknowledge` makes its assignments in a row that meets its conditions and reports true, or
    -- there is none and it reports false and changes nothing.
    pub acknowledge-Decides : Decides s holds (set_delivered s.stamped) t (acknowledge claim s t)
    unfolding acknowledge
    acknowledge-Decides =
        update_one-Decides request.event_id s holds (set_delivered s.stamped) t
          (λ r h. ground arith) u

    -- The same of `release_rejected`.
    pub release_rejected-Decides :
        Decides s holds (set_released s.stamped) t (release_rejected claim s t)
    unfolding release_rejected
    release_rejected-Decides =
        update_one-Decides request.event_id s holds (set_released s.stamped) t (λ r h. ground arith)
          u

    -- The same of `dead_letter`.
    pub dead_letter-Decides :
        (reason : Text)
        → Decides s holds_alive (set_dead s.stamped reason) t (dead_letter claim reason s t)
    unfolding dead_letter
    dead_letter-Decides reason =
        update_one-Decides request.event_id s holds_alive (set_dead s.stamped reason) t
          (λ r h. ground arith) u
