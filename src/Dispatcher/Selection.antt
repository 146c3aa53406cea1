-- ===== src/Dispatcher/Selection.antt =====
-- Which row the query of `claim_next` in core/src/dispatcher.rs selects.
use better_commerce.Prelude.{
  ℕ, ◌≡◌, refl, ◌⊎◌, inl, inr, Bool, true, false, ◌&&◌, not, Option, none, some, Text, List, [],
  ◌∷◌, Memᴰ, Bool-cases, Option-cases, if◌then◌else◌, text_lt, arith, sym, subst,
}
use mathlib.Core.Option.{some-injective}
use better_commerce.Dispatcher.Types.{OutboxEvent}
use better_commerce.Dispatcher.Table.{is_eligible, first_where, first_of_two, candidate, precedes}

text_lt-asymm : (s t : Text) → text_lt s t ≡ true → text_lt t s ≡ false
unfolding text_lt
text_lt-asymm [] [] h = cc
text_lt-asymm [] (d ∷ t) h = refl
text_lt-asymm (c ∷ s) [] h = cc
text_lt-asymm (c ∷ s) (d ∷ t) h = ground (arith, text_lt-asymm s t)

-- A text between two others, or beside them, is on one side of one of them.
text_lt-cotrans : (s t u : Text) → text_lt s u ≡ true → text_lt s t ≡ false → text_lt t u ≡ true
unfolding text_lt
text_lt-cotrans [] [] u h k = h
text_lt-cotrans [] (d ∷ t) u h k = cc
text_lt-cotrans (c ∷ s) t [] h k = cc
text_lt-cotrans (c ∷ s) [] (e ∷ u) h k = refl
text_lt-cotrans (c ∷ s) (d ∷ t) (e ∷ u) h k = ground (arith, text_lt-cotrans s t u)

module _ {Json : Type 0} where
  precedes-asymm : (r s : OutboxEvent Json) → precedes r s ≡ true → precedes s r ≡ false
  precedes-asymm r s h = ground (arith, text_lt-asymm r.event_id s.event_id)

  precedes_irrefl : (r : OutboxEvent Json) → precedes r r ≡ false
  precedes_irrefl r = ground (arith, text_lt-asymm r.event_id r.event_id)

  precedes-cotrans :
      (r s u : OutboxEvent Json) → precedes r u ≡ true → precedes r s ≡ false → precedes s u ≡ true
  precedes-cotrans r s u h k = ground (arith, text_lt-cotrans r.event_id s.event_id u.event_id)

  -- `r` is the first of two candidates.
  first_of_two-cases :
      (o p : Option (OutboxEvent Json)) {r : OutboxEvent Json}
      → first_of_two o p ≡ some r
      → (o ≡ some r) ⊎ (p ≡ some r)
  first_of_two-cases none p h = inr h
  first_of_two-cases (some x) none h = inl h
  first_of_two-cases (some x) (some y) h = ground arith

  least_left :
      (x r : OutboxEvent Json) (p : Option (OutboxEvent Json))
      → first_of_two (some x) p ≡ some r
      → precedes x r ≡ false
  least_left x r none h =
      subst (λ y. precedes x y ≡ false) (some-injective _ _ h) (precedes_irrefl x)
  least_left x r (some y) h = elim (Bool-cases (precedes y x)) [
    | inl e ↦
        subst (λ z. precedes x z ≡ false) (some-injective _ _ (rw e at h)) (precedes-asymm y x e)
    | inr e ↦ subst (λ z. precedes x z ≡ false) (some-injective _ _ (rw e at h)) (precedes_irrefl x)
  ]

  least_right :
      (s y r : OutboxEvent Json) (o : Option (OutboxEvent Json))
      → first_of_two o (some y) ≡ some r
      → precedes s y ≡ false
      → precedes s r ≡ false
  least_right s y r none h k = subst (λ z. precedes s z ≡ false) (some-injective _ _ h) k
  least_right s y r (some x) h k = elim (Bool-cases (precedes y x)) [
    | inl e ↦ subst (λ z. precedes s z ≡ false) (some-injective _ _ (rw e at h)) k
    | inr e ↦
        subst (λ z. precedes s z ≡ false) (some-injective _ _ (rw e at h))
          (elim (Bool-cases (precedes s x)) [ inl f ↦ cc (precedes-cotrans s y x f k) | inr f ↦ f ])
  ]

  module _ (test : OutboxEvent Json → Bool) where
    pub first_where-mem :
        (t : List (OutboxEvent Json)) {r : OutboxEvent Json}
        → first_where test t ≡ some r
        → Memᴰ r t × (test r ≡ true)
    unfolding first_where
    first_where-mem [] h = cc
    first_where-mem (x ∷ t) {r} h =
        elim (first_of_two-cases (if test x then some x else none) (first_where test t) h) [
          | inl e ↦ (Memᴰ.head (ground arith), ground arith)
          | inr e ↦ let (m, k) = first_where-mem t e in (Memᴰ.tail m, k)
        ]

    pub first_where-none :
        (t : List (OutboxEvent Json)) {s : OutboxEvent Json}
        → first_where test t ≡ none
        → Memᴰ s t
        → test s ≡ false
    unfolding first_where
    first_where-none [] h m = elim m [ ]
    first_where-none (x ∷ t) {s} h (Memᴰ.head e) =
        subst (λ y. test y ≡ false) (sym e) (ground arith)
    first_where-none (x ∷ t) h (Memᴰ.tail m) = first_where-none t (ground arith) m

    -- No row that passes the test stands before the one that is found.
    pub first_where-least :
        (t : List (OutboxEvent Json)) {r s : OutboxEvent Json}
        → first_where test t ≡ some r
        → Memᴰ s t
        → test s ≡ true
        → precedes s r ≡ false
    unfolding first_where
    first_where-least [] h m k = elim m [ ]
    first_where-least (x ∷ t) {r} {s} h (Memᴰ.head e) k =
        subst (λ y. precedes y r ≡ false) (sym e)
          (least_left x r (first_where test t) (ground arith))
    first_where-least (x ∷ t) {r} {s} h (Memᴰ.tail m) k = elim (Option-cases (first_where test t)) [
      | inl e ↦ cc (first_where-none t e m)
      | inr (y, e) ↦
          least_right s y r (if test x then some x else none) (ground arith)
            (first_where-least t e m k)
    ]

  -- The candidate is eligible and unlocked, and no eligible and unlocked row stands before it in the
  -- order of occurrence.
  pub record IsCandidate (now : ℕ) (locked : Text → Bool) (t : List (OutboxEvent Json))
      (r : OutboxEvent Json) : Type 0 where
    pub member : Memᴰ r t
    pub eligible : is_eligible now t r ≡ true
    pub unlocked : locked r.event_id ≡ false
    pub first :
        (s : OutboxEvent Json)
        → Memᴰ s t
        → is_eligible now t s ≡ true
        → locked s.event_id ≡ false
        → precedes s r ≡ false

  abbrev pub can_claim : ℕ → (Text → Bool) → List (OutboxEvent Json) → OutboxEvent Json → Bool
  can_claim now locked t r = is_eligible now t r && not (locked r.event_id)

  pub candidate-IsCandidate :
      (now : ℕ) (locked : Text → Bool) (t : List (OutboxEvent Json)) {r : OutboxEvent Json}
      → candidate now locked t ≡ some r
      → IsCandidate now locked t r
  unfolding candidate
  candidate-IsCandidate now locked t {r} h =
      let (m, k) = first_where-mem (can_claim now locked t) t h in
      record {
        member = m;
        eligible = ground arith;
        unlocked = ground arith;
        first = λ s ms es us. first_where-least (can_claim now locked t) t h ms (rw (es, us));
      }

  pub candidate-none :
      (now : ℕ) (locked : Text → Bool) (t : List (OutboxEvent Json)) {s : OutboxEvent Json}
      → candidate now locked t ≡ none
      → Memᴰ s t
      → (is_eligible now t s && not (locked s.event_id)) ≡ false
  unfolding candidate
  candidate-none now locked t h m = first_where-none (can_claim now locked t) t h m
