-- ===== src/Dispatcher/Holders.antt =====
-- What `acknowledge`, `release_rejected` and `dead_letter` of core/src/dispatcher.rs report to the
-- holder of a lease and to everybody else, and what they write.
use better_commerce.Prelude.{
  ℕ, ◌<◌, ◌≡◌, refl, ◌⊎◌, inl, inr, Bool, true, false, Option, none, some, Text, Memᴰ, text_eq_refl,
  eq_of_text_eq, Result, and-eq-true, ltb→lt, lt→ltb, ◌↔◌,
}
use better_commerce.Dispatcher.Types.{OutboxEvent, ClaimedEvent, SqlError}
use better_commerce.Dispatcher.Table.{
  is_null, is_ahead, is_owner, is_held, is_held_alive, set_delivered, set_released, set_dead,
}
use better_commerce.Dispatcher.Operations.{
  Table, Statement, acknowledge, release_rejected, dead_letter,
}
use better_commerce.Dispatcher.Rows.{Unique}
use better_commerce.Dispatcher.Lease.{
  Decides, acknowledge-Decides, release_rejected-Decides, dead_letter-Decides,
}
use better_commerce.Dispatcher.Effects.{Ends, answer-Ends, changed_at, update_where-event}

pub is_null-none : {A : Type 0} (o : Option A) → is_null o ≡ true → o ≡ none
is_null-none none h = refl
is_null-none (some a) h = cc

is_owner-some : (o : Option Text) (token : Text) → is_owner o token ≡ true → o ≡ some token
is_owner-some none token h = cc
is_owner-some (some owner) token h = rw (eq_of_text_eq owner token h) refl

is_ahead-some :
    (o : Option ℕ) (now : ℕ)
    → is_ahead o now ≡ true
    → (until : ℕ) × ((o ≡ some until) × (now < until))
is_ahead-some none now h = cc
is_ahead-some (some until) now h = (until, (refl, ltb→lt now until h))

module _ {Json : Type 0} where
  -- The claim holds the row: it is its event, not delivered, under its token, and the lease runs.
  pub record IsHolder (claim : ClaimedEvent Json) (now : ℕ) (r : OutboxEvent Json) : Type 0 where
    pub event_id : r.event_id ≡ claim.request.event_id
    pub undelivered : r.delivered_at ≡ none
    pub owner : r.claimed_by ≡ some claim.claimed_by
    pub until : ℕ
    pub lease : r.claim_until ≡ some until
    pub running : now < until

  is_held-IsHolder :
      (claim : ClaimedEvent Json) (now : ℕ) (r : OutboxEvent Json)
      → is_held claim.request.event_id claim.claimed_by now r ≡ true
      → IsHolder claim now r
  is_held-IsHolder claim now r h =
      let (same, h1) = and-eq-true _ _ h in
      let (fresh, h2) = and-eq-true _ _ h1 in
      let (owned, h3) = and-eq-true _ _ h2 in
      let (until, (lease, running)) = is_ahead-some r.claim_until now h3 in
      record {
        event_id = eq_of_text_eq _ _ same;
        undelivered = is_null-none _ fresh;
        owner = is_owner-some _ _ owned;
        until = until;
        lease = lease;
        running = running;
      }

  IsHolder-is_held :
      (claim : ClaimedEvent Json) (now : ℕ) (r : OutboxEvent Json)
      → IsHolder claim now r
      → is_held claim.request.event_id claim.claimed_by now r ≡ true
  IsHolder-is_held claim now r h =
      rw
        (
          h.event_id,
          text_eq_refl claim.request.event_id,
          h.undelivered,
          h.owner,
          text_eq_refl claim.claimed_by,
          h.lease,
          lt→ltb now h.until h.running,
        )
        refl

  -- The statement of a claim on the row that it holds, or on none.
  abbrev pub Decided :
      ClaimedEvent Json
      → Statement
      → (OutboxEvent Json → Type 0)
      → (OutboxEvent Json → OutboxEvent Json)
      → Table Json
      → Result SqlError Bool × Table Json
      → Type 0
  Decided claim s Holder change t out =
      ((r : OutboxEvent Json) × Memᴰ r t
        × Holder r
        × Ends s.link true t (changed_at claim.request.event_id change t) out)
      ⊎ (((r : OutboxEvent Json) → Memᴰ r t → ¬ Holder r) × Ends s.link false t t out)

  Decides-Decided :
      (claim : ClaimedEvent Json) (s : Statement) (test : OutboxEvent Json → Bool)
      (Holder : OutboxEvent Json → Type 0) (change : OutboxEvent Json → OutboxEvent Json)
      (t : Table Json) (out : Result SqlError Bool × Table Json)
      → Unique t
      → ((r : OutboxEvent Json) → test r ≡ true → r.event_id ≡ claim.request.event_id)
      → ((r : OutboxEvent Json) → (test r ≡ true) ↔ Holder r)
      → Decides s test change t out
      → Decided claim s Holder change t out
  Decides-Decided claim s test Holder change t out u names same (inl (r, m, h, e, _)) = inl (
    r,
    m,
    (same r).0 h,
    rw (e, update_where-event test change claim.request.event_id t r names u m h)
        (answer-Ends s.link true t _),
  )
  Decides-Decided claim s test Holder change t out u names same (inr (absent, e)) =
      inr (λ r m k. cc (absent r m, (same r).1 k), rw e (answer-Ends s.link false t t))

  module _ (claim : ClaimedEvent Json) (s : Statement) (t : Table Json) where
    holds_iff :
        (r : OutboxEvent Json)
        → (is_held claim.request.event_id claim.claimed_by s.checked r ≡ true)
          ↔ IsHolder claim s.checked r
    holds_iff r = (is_held-IsHolder claim s.checked r, IsHolder-is_held claim s.checked r)

    holds_alive_iff :
        (r : OutboxEvent Json)
        → (is_held_alive claim.request.event_id claim.claimed_by s.checked r ≡ true)
          ↔ (IsHolder claim s.checked r × (r.dead_lettered_at ≡ none))
    holds_alive_iff r = (
      λ h.
          let (held, alive) = and-eq-true _ _ h in
          (is_held-IsHolder claim s.checked r held, is_null-none _ alive),
      λ h. rw (IsHolder-is_held claim s.checked r h.0, h.1) refl,
    )

    -- In a table with unique identifiers: if the claim holds a row, `acknowledge` stamps the row
    -- delivered and ends its lease, and reports true; if it holds none, it changes nothing and
    -- reports false; an unsent statement fails and changes nothing, and one whose answer is lost
    -- fails after its effect.
    pub acknowledge-Decided :
        Unique t
        → Decided claim s
            (IsHolder claim s.checked)
            (λ r. record r { delivered_at = some s.stamped; claimed_by = none; claim_until = none })
            t
            (acknowledge claim s t)
    acknowledge-Decided u =
        Decides-Decided claim s _ (IsHolder claim s.checked) (set_delivered s.stamped) t _ u
          (λ r h. (is_held-IsHolder claim s.checked r h).event_id) holds_iff
          (acknowledge-Decides claim s t u)

    -- The same of `release_rejected`, which ends the lease of the row and makes it available at
    -- once.
    pub release_rejected-Decided :
        Unique t
        → Decided claim s
            (IsHolder claim s.checked)
            (λ r. record r { claimed_by = none; claim_until = none; available_at = s.stamped })
            t
            (release_rejected claim s t)
    release_rejected-Decided u =
        Decides-Decided claim s _ (IsHolder claim s.checked) (set_released s.stamped) t _ u
          (λ r h. (is_held-IsHolder claim s.checked r h).event_id) holds_iff
          (release_rejected-Decides claim s t u)

    -- The same of `dead_letter`, which asks of the held row that it is not dead-lettered, stamps it
    -- dead-lettered with the reason, and ends its lease.
    pub dead_letter-Decided :
        (reason : Text)
        → Unique t
        → Decided claim s
            (λ r. IsHolder claim s.checked r × (r.dead_lettered_at ≡ none))
            (λ r. record r {
              dead_lettered_at = some s.stamped;
              dead_letter_reason = some reason;
              claimed_by = none;
              claim_until = none;
            })
            t
            (dead_letter claim reason s t)
    dead_letter-Decided reason u =
        Decides-Decided claim s _ (λ r. IsHolder claim s.checked r × (r.dead_lettered_at ≡ none))
          (set_dead s.stamped reason) t _ u
          (λ r h. (is_held-IsHolder claim s.checked r (and-eq-true _ _ h).0).event_id)
          holds_alive_iff (dead_letter-Decides claim s t u reason)
