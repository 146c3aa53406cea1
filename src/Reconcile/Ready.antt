-- ===== src/Reconcile/Ready.antt =====
-- `verify_ready` of core/src/reconcile.rs.
use better_commerce.Prelude.{
  ℕ, zero, suc, ◌+◌, ◌*◌, ◌≡◌, refl, ◌≤◌, ◌<◌, ◌⊎◌, inl, inr, Bool, true, false, Option, none, some,
  Text, text, [], ◌∷◌, Outcome, returns, fails, out_of_fuel, ltb, ◌==◌, if◌then◌else◌, arith,
  Bool-cases, subst, ltb→lt,
}
use better_commerce.Manifest.Types.{Crates}
use better_commerce.Reconcile.Types.{Machine, Round, ReconcileError}
use better_commerce.Reconcile.Status.{get_status}
use better_commerce.Reconcile.Diagnostics.{starts_with, skip}
use better_commerce.Reconcile.Effects.{probed, Traced}

abbrev pub ready_timeout : ℕ
ready_timeout = 90_000

abbrev pub is_success : Option ℕ → Bool
is_success none = false
is_success (some status) = status == 200

-- The status that a round reads.
abbrev pub status_in : Round → Option ℕ
status_in r = get_status r.response

abbrev pub readiness_error : Text → ReconcileError
readiness_error message = record { phase = text "readiness"; message = message }

abbrev pub timeout_error : ReconcileError
timeout_error =
    readiness_error (text "API did not return HTTP 200 from /readyz before the 90 second timeout")

-- `split('/').next()`.
unfoldable pub until_slash : Text → Text
until_slash [] = []
until_slash (c ∷ s) = let rest = until_slash s in if c == 0x2f then [] else c ∷ rest

module _ {X : Crates} (M : Machine X) where
  abbrev pub address_of : Text → Option Text
  address_of url =
      if starts_with (text "http://") url
      then (if M.is_address (until_slash (skip 7 url))
          then some (until_slash (skip 7 url))
          else none)
      else none

  -- The loop from its round `n` on.
  unfoldable pub await_ready : ℕ → Text → ℕ → Traced (Unit {0})
  await_ready zero url n = (out_of_fuel, [])
  await_ready (suc fuel) url n =
      let rest = await_ready fuel url (suc n) in
      if ltb (M.round n).begins (M.starts + ready_timeout)
      then (if is_success (status_in (M.round n))
          then (returns tt, probed url ∷ [])
          else (rest.0, probed url ∷ rest.1))
      else (fails timeout_error, [])

  -- Ninety rounds that take a second each, and the test that ends the loop.
  abbrev pub rounds : ℕ
  rounds = 91

  abbrev pub verify_address : Text → Option Text → Traced (Unit {0})
  verify_address url none = (fails (readiness_error (text "readiness address is invalid")), [])
  verify_address url (some address) = await_ready rounds url 0

  unfoldable pub verify_ready : Text → Traced (Unit {0})
  verify_ready url = verify_address url (address_of url)

  -- A round sleeps for a second, and time does not run back.
  pub record HasClock : Type 0 where
    pub first : M.starts ≤ (M.round 0).begins
    pub sleeps : (n : ℕ) → (M.round n).begins + 1000 ≤ (M.round (suc n)).begins

  -- The round reads the status 200 before the deadline.
  pub record IsReadyRound (n : ℕ) : Type 0 where
    pub in_time : (M.round n).begins < M.starts + ready_timeout
    pub success : is_success (status_in (M.round n)) ≡ true

  HasClock-begins : HasClock → (n : ℕ) → M.starts + n * 1000 ≤ (M.round n).begins
  HasClock-begins c zero = omega (arith, c.first)
  HasClock-begins c (suc n) = omega (arith, HasClock-begins c n, c.sleeps n)

  same_begins : (n m : ℕ) → n ≡ m → (M.round n).begins ≤ (M.round m).begins
  same_begins n m e = subst (λ x. (M.round n).begins ≤ (M.round x).begins) e (omega arith)

  begins_ordered : HasClock → (n m : ℕ) → n ≤ m → (M.round n).begins ≤ (M.round m).begins
  begins_ordered c n zero le = same_begins n zero (omega arith)
  begins_ordered c n (suc m) le = elim (Bool-cases (n == suc m)) [
    | inl same ↦ same_begins n (suc m) (ground arith)
    | inr other ↦
        let earlier : (M.round n).begins ≤ (M.round m).begins =
          begins_ordered c n m (ground arith) in
        let step : (M.round m).begins + 1000 ≤ (M.round (suc m)).begins = c.sleeps m in
        omega (arith, earlier, step)
  ]

  -- From round `n` on: some round succeeds, or none does.
  abbrev pub Ends : ℕ → Outcome ReconcileError (Unit {0}) → Type 0
  Ends n result =
      ((result ≡ returns tt) × (m : ℕ) × (n ≤ m) × IsReadyRound m)
      ⊎ ((result ≡ fails timeout_error)
          × ((m : ℕ)
              → n ≤ m
              → (M.round m).begins < M.starts + ready_timeout
              → is_success (status_in (M.round m)) ≡ false))

  later-Ends :
      (n : ℕ) (result : Outcome ReconcileError (Unit {0}))
      → is_success (status_in (M.round n)) ≡ false
      → Ends (suc n) result
      → Ends n result
  later-Ends n result missed (inl (e, m, le, ready)) = inl (e, m, omega arith, ready)
  later-Ends n result missed (inr (e, never)) = inr (
    e,
    λ m le early. elim (Bool-cases (n == m)) [
      | inl same ↦
          let is : n ≡ m = ground arith in
          subst (λ x. is_success (status_in (M.round x)) ≡ false) is missed
      | inr other ↦ never m (ground arith) early
    ],
  )

  await_ready-Ends :
      (fuel : ℕ) (url : Text) (n : ℕ)
      → HasClock
      → 91 ≤ fuel + n
      → 0 < fuel
      → Ends n (await_ready fuel url n).0
  unfolding await_ready
  await_ready-Ends zero url n c enough some' = absurd (omega arith)
  await_ready-Ends (suc fuel) url n c enough some' =
      elim (Bool-cases (ltb (M.round n).begins (M.starts + ready_timeout))) [
        | inl early ↦ elim (Bool-cases (is_success (status_in (M.round n)))) [
          | inl hit ↦
              rw (early, hit)
                (inl (refl, n, omega arith, record { in_time = ltb→lt _ _ early; success = hit }))
          | inr missed ↦
              let low : n ≤ 89 = omega (arith, HasClock-begins c n, ltb→lt _ _ early) in
              let rest : Ends (suc n) (await_ready fuel url (suc n)).0 =
                await_ready-Ends fuel url (suc n) c (omega arith) (omega arith) in
              rw (early, missed) (later-Ends n _ missed rest)
        ]
        | inr late ↦ rw late (
            inr
              (refl, λ m le early. absurd (omega (arith, begins_ordered c n m le, late_of n late))))
      ]
    where
      late_of :
          (n : ℕ)
          → ltb (M.round n).begins (M.starts + ready_timeout) ≡ false
          → M.starts + ready_timeout ≤ (M.round n).begins
      late_of n h = ground arith

  -- For a URL with an address, on a machine whose rounds take a second or more, `verify_ready` ends:
  -- it succeeds and some round before the deadline read the status 200, or it reports the timeout
  -- and no round before the deadline did.
  pub verify_ready-Ends :
      (url address : Text) → HasClock → address_of url ≡ some address → Ends 0 (verify_ready url).0
  unfolding verify_ready
  verify_ready-Ends url address c e =
      rw e (await_ready-Ends rounds url 0 c (omega arith) (omega arith))
