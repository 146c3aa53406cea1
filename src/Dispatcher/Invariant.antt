-- ===== src/Dispatcher/Invariant.antt =====
-- The invariant of the table `outbox_events` under the statements of core/src/dispatcher.rs.
use better_commerce.Prelude.{
  ◌≡◌, refl, ◌⊎◌, inl, inr, Bool, true, false, ◌&&◌, ◌||◌, not, List, [], ◌∷◌, ◌++◌, Memᴰ, All,
  mem-snoc, Bool-cases, text_eq, arith, sym, ap, ltb, ltb→lt, int_eq_iff, ◌∙◌, text_eq_comm, subst,
}
use better_commerce.Dispatcher.Types.{OutboxEvent}
use better_commerce.Dispatcher.Table.{is_null, is_before, same_aggregate, has_earlier, update_where}
use better_commerce.Dispatcher.Rows.{
  Unique, has_earlier-delivered, changed, mem-update_where, update_where-Unique,
}

module _ {Json : Type 0} where
  -- A row carries a lease with a deadline or neither, a resolution or a lease, one resolution at
  -- most, and a reason exactly if it is dead-lettered.
  pub record IsConsistent (r : OutboxEvent Json) : Type 0 where
    pub lease : is_null r.claimed_by ≡ is_null r.claim_until
    pub delivered : (is_null r.delivered_at || is_null r.claimed_by) ≡ true
    pub dead : (is_null r.dead_lettered_at || is_null r.claimed_by) ≡ true
    pub one_end : (is_null r.delivered_at || is_null r.dead_lettered_at) ≡ true
    pub reason : is_null r.dead_lettered_at ≡ is_null r.dead_letter_reason

  -- The event is leased, delivered or dead-lettered: it was handed to a worker and is not back.
  abbrev pub is_started : OutboxEvent Json → Bool
  is_started r =
      not (is_null r.claimed_by && (is_null r.delivered_at && is_null r.dead_lettered_at))

  -- An event is started only once all earlier events of its aggregate are delivered.
  abbrev pub InOrder : List (OutboxEvent Json) → Type 0
  InOrder t =
      (r e : OutboxEvent Json)
      → Memᴰ r t
      → Memᴰ e t
      → is_before e r ≡ true
      → is_started r ≡ true
      → is_null e.delivered_at ≡ false

  -- The unique constraint on the place in an aggregate.
  abbrev pub IsPlaced : List (OutboxEvent Json) → Type 0
  IsPlaced t =
      (r e : OutboxEvent Json)
      → Memᴰ r t
      → Memᴰ e t
      → same_aggregate e r ≡ true
      → e.aggregate_sequence ≡ r.aggregate_sequence
      → e ≡ r

  pub record IsSound (t : List (OutboxEvent Json)) : Type 0 where
    pub unique : Unique t
    pub consistent : (r : OutboxEvent Json) → Memᴰ r t → IsConsistent r
    pub in_order : InOrder t
    pub placed : IsPlaced t

  -- A change of one row that keeps the invariant.
  pub record IsLawful (t : List (OutboxEvent Json)) (r s : OutboxEvent Json) : Type 0 where
    pub event_id : s.event_id ≡ r.event_id
    pub aggregate_type : s.aggregate_type ≡ r.aggregate_type
    pub aggregate_id : s.aggregate_id ≡ r.aggregate_id
    pub aggregate_sequence : s.aggregate_sequence ≡ r.aggregate_sequence
    pub final : is_null r.delivered_at ≡ false → is_null s.delivered_at ≡ false
    pub starts : is_started s ≡ true → (is_started r ≡ true) ⊎ (has_earlier t r ≡ false)
    pub consistent : IsConsistent r → IsConsistent s

  IsLawful-refl : (t : List (OutboxEvent Json)) (r : OutboxEvent Json) → IsLawful t r r
  IsLawful-refl t r = record {
    event_id = refl;
    aggregate_type = refl;
    aggregate_id = refl;
    aggregate_sequence = refl;
    final = λ h. h;
    starts = λ h. inl h;
    consistent = λ h. h;
  }

  IsLawful-before :
      {t : List (OutboxEvent Json)} {r s e f : OutboxEvent Json}
      → IsLawful t r s
      → IsLawful t e f
      → is_before f s ≡ is_before e r
  IsLawful-before k l = cc

  IsLawful-same :
      {t : List (OutboxEvent Json)} {r s e f : OutboxEvent Json}
      → IsLawful t r s
      → IsLawful t e f
      → same_aggregate f s ≡ same_aggregate e r
  IsLawful-same k l = cc

  module _ (test : OutboxEvent Json → Bool) (change : OutboxEvent Json → OutboxEvent Json)
      (t : List (OutboxEvent Json))
      (lawful : (r : OutboxEvent Json) → Memᴰ r t → test r ≡ true → IsLawful t r (change r)) where
    changed-IsLawful : (r : OutboxEvent Json) → Memᴰ r t → IsLawful t r (changed test change r)
    changed-IsLawful r m = elim (Bool-cases (test r)) [
      | inl h ↦ rw h (lawful r m h)
      | inr h ↦ rw h (IsLawful-refl t r)
    ]

    update_where-InOrder : InOrder t → InOrder (update_where test change t)
    update_where-InOrder order s f ms mf before started =
        let (r, mr, er) = mem-update_where test change t ms in
        let (e, me, ee) = mem-update_where test change t mf in
        let ks : IsLawful t r s = subst (IsLawful t r) (sym er) (changed-IsLawful r mr) in
        let kf : IsLawful t e f = subst (IsLawful t e) (sym ee) (changed-IsLawful e me) in
        let b : is_before e r ≡ true = sym (IsLawful-before ks kf) ∙ before in
        kf.final (elim (ks.starts started) [
          | inl old ↦ order r e mr me b old
          | inr head ↦ has_earlier-delivered t r e head me b
        ])

    update_where-IsPlaced : IsPlaced t → IsPlaced (update_where test change t)
    update_where-IsPlaced placed s f ms mf same place =
        let (r, mr, er) = mem-update_where test change t ms in
        let (e, me, ee) = mem-update_where test change t mf in
        let ks : IsLawful t r s = subst (IsLawful t r) (sym er) (changed-IsLawful r mr) in
        let kf : IsLawful t e f = subst (IsLawful t e) (sym ee) (changed-IsLawful e me) in
        let one : e ≡ r =
          placed r e mr me (sym (IsLawful-same ks kf) ∙ same)
            (sym kf.aggregate_sequence ∙ (place ∙ ks.aggregate_sequence)) in
        ee ∙ (ap (changed test change) one ∙ sym er)

    pub update_where-IsSound :
        ((r : OutboxEvent Json) → (change r).event_id ≡ r.event_id)
        → IsSound t
        → IsSound (update_where test change t)
    update_where-IsSound keeps v = record {
      unique = update_where-Unique test change t keeps v.unique;
      consistent = λ s m.
          let (r, mr, er) = mem-update_where test change t m in
          subst IsConsistent (sym er) ((changed-IsLawful r mr).consistent (v.consistent r mr));
      in_order = update_where-InOrder v.in_order;
      placed = update_where-IsPlaced v.placed;
    }

  -- What the producers of core/src/dispatcher.rs's table promise of a new row: a new identifier, no
  -- mark of a worker, and a place behind the events of its aggregate.
  pub record IsAppended (t : List (OutboxEvent Json)) (r : OutboxEvent Json) : Type 0 where
    pub fresh : All (λ e. text_eq r.event_id e.event_id ≡ false) t
    pub untouched : is_started r ≡ false
    pub consistent : IsConsistent r
    pub last :
        (e : OutboxEvent Json)
        → Memᴰ e t
        → same_aggregate e r ≡ true
        → ltb e.aggregate_sequence r.aggregate_sequence ≡ true

  pub same_aggregate_symm :
      (e r : OutboxEvent Json) → same_aggregate e r ≡ true → same_aggregate r e ≡ true
  same_aggregate_symm e r h = ground (
    arith,
    text_eq_comm e.aggregate_type r.aggregate_type,
    int_eq_iff e.aggregate_id r.aggregate_id,
    int_eq_iff r.aggregate_id e.aggregate_id,
  )

  module _ {t : List (OutboxEvent Json)} {r : OutboxEvent Json} (a : IsAppended t r)
      (e : OutboxEvent Json) (m : Memᴰ e t) where
    not_before : is_before r e ≡ false
    not_before = elim (Bool-cases (same_aggregate r e)) [
      | inl same ↦ ground (arith, a.last e m (same_aggregate_symm r e same))
      | inr other ↦ rw other
    ]

    not_placed : same_aggregate r e ≡ true → r.aggregate_sequence ≡ e.aggregate_sequence → ⊥
    not_placed same place = omega (arith, ltb→lt _ _ (a.last e m (same_aggregate_symm r e same)))

  All-snoc :
      (P : OutboxEvent Json → Type 0) (t : List (OutboxEvent Json)) {r : OutboxEvent Json}
      → All P t
      → P r
      → All P (t ++ r ∷ [])
  All-snoc P [] h p = (p, tt)
  All-snoc P (x ∷ t) h p = (h.0, All-snoc P t h.1 p)

  Unique-snoc :
      (t : List (OutboxEvent Json)) (r : OutboxEvent Json)
      → Unique t
      → All (λ e. text_eq r.event_id e.event_id ≡ false) t
      → Unique (t ++ r ∷ [])
  Unique-snoc [] r u h = (tt, tt)
  Unique-snoc (x ∷ t) r u h =
      (All-snoc (λ e. text_eq e.event_id x.event_id ≡ false) t u.0 h.0, Unique-snoc t r u.1 h.1)

  append-InOrder :
      (t : List (OutboxEvent Json)) (r : OutboxEvent Json)
      → InOrder t
      → IsAppended t r
      → InOrder (t ++ r ∷ [])
  append-InOrder t r order a s f ms mf before started = elim (mem-snoc t ms) [
    | inl ks ↦ elim (mem-snoc t mf) [
      | inl kf ↦ order s f ks kf before started
      | inr ef ↦ cc (not_before a s ks)
    ]
    | inr es ↦ cc (a.untouched)
  ]

  append-IsPlaced :
      (t : List (OutboxEvent Json)) (r : OutboxEvent Json)
      → IsPlaced t
      → IsAppended t r
      → IsPlaced (t ++ r ∷ [])
  append-IsPlaced t r placed a s f ms mf same place = elim (mem-snoc t ms) [
    | inl ks ↦ elim (mem-snoc t mf) [
      | inl kf ↦ placed s f ks kf same place
      | inr ef ↦ absurd (not_placed a s ks (rw ef at same) (rw ef at place))
    ]
    | inr es ↦ elim (mem-snoc t mf) [
      | inl kf ↦
          absurd
            (not_placed a f kf (same_aggregate_symm f r (rw es at same)) (sym (rw es at place)))
      | inr ef ↦ ef ∙ sym es
    ]
  ]

  pub append-IsSound :
      (t : List (OutboxEvent Json)) (r : OutboxEvent Json)
      → IsSound t
      → IsAppended t r
      → IsSound (t ++ r ∷ [])
  append-IsSound t r v a = record {
    unique = Unique-snoc t r v.unique a.fresh;
    consistent = λ s m. elim (mem-snoc t m) [
      | inl k ↦ v.consistent s k
      | inr e ↦ subst IsConsistent (sym e) a.consistent
    ];
    in_order = append-InOrder t r v.in_order a;
    placed = append-IsPlaced t r v.placed a;
  }
