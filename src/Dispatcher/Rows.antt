-- ===== src/Dispatcher/Rows.antt =====
-- Members of an updated table, and the rows that the statements of core/src/dispatcher.rs test.
use better_commerce.Prelude.{
  ◌≡◌, refl, Bool, true, false, List, [], ◌∷◌, map, Memᴰ, All, if◌then◌else◌, text_eq, arith, subst,
  ap, All-mem, text_eq_comm,
}
use better_commerce.Dispatcher.Types.{OutboxEvent}
use better_commerce.Dispatcher.Table.{is_null, is_before, has_earlier, update_where}

module _ {Json : Type 0} where
  -- The primary key.
  abbrev pub Unique : List (OutboxEvent Json) → Type 0
  Unique [] = Unit {0}
  Unique (r ∷ t) = All (λ e. text_eq e.event_id r.event_id ≡ false) t × Unique t

  -- What no statement changes in a row.
  pub record Keeps (r s : OutboxEvent Json) : Type 0 where
    pub event_id : s.event_id ≡ r.event_id
    pub aggregate_type : s.aggregate_type ≡ r.aggregate_type
    pub aggregate_id : s.aggregate_id ≡ r.aggregate_id
    pub aggregate_sequence : s.aggregate_sequence ≡ r.aggregate_sequence

  pub has_earlier-delivered :
      (t : List (OutboxEvent Json)) (r e : OutboxEvent Json)
      → has_earlier t r ≡ false
      → Memᴰ e t
      → is_before e r ≡ true
      → is_null e.delivered_at ≡ false
  unfolding has_earlier
  has_earlier-delivered [] r e h m b = elim m [ ]
  has_earlier-delivered (x ∷ t) r e h (Memᴰ.head q) b = ground arith
  has_earlier-delivered (x ∷ t) r e h (Memᴰ.tail m) b =
      has_earlier-delivered t r e (ground arith) m b

  module _ (test : OutboxEvent Json → Bool) (change : OutboxEvent Json → OutboxEvent Json) where
    abbrev pub changed : OutboxEvent Json → OutboxEvent Json
    changed r = if test r then change r else r

    pub mem-update_where :
        (t : List (OutboxEvent Json)) {s : OutboxEvent Json}
        → Memᴰ s (update_where test change t)
        → (r : OutboxEvent Json) × Memᴰ r t × (s ≡ changed r)
    unfolding update_where
    mem-update_where [] m = elim m [ ]
    mem-update_where (x ∷ t) (Memᴰ.head e) = (x, Memᴰ.head refl, e)
    mem-update_where (x ∷ t) (Memᴰ.tail m) =
        let (r, k, e) = mem-update_where t m in (r, Memᴰ.tail k, e)

    pub changed-mem :
        (t : List (OutboxEvent Json)) {r : OutboxEvent Json}
        → Memᴰ r t
        → Memᴰ (changed r) (update_where test change t)
    unfolding update_where
    changed-mem [] m = elim m [ ]
    changed-mem (x ∷ t) (Memᴰ.head e) = Memᴰ.head (ap changed e)
    changed-mem (x ∷ t) (Memᴰ.tail m) = Memᴰ.tail (changed-mem t m)

    -- A row that fails the test stays.
    pub update_where-mem :
        (t : List (OutboxEvent Json)) (r : OutboxEvent Json)
        → Memᴰ r t
        → test r ≡ false
        → Memᴰ r (update_where test change t)
    update_where-mem t r m h =
        subst (λ x. Memᴰ x (update_where test change t)) {x = changed r} (rw h) (changed-mem t m)

    -- A row that passes the test is changed.
    pub update_where-changed :
        (t : List (OutboxEvent Json)) (r : OutboxEvent Json)
        → Memᴰ r t
        → test r ≡ true
        → Memᴰ (change r) (update_where test change t)
    update_where-changed t r m h =
        subst (λ x. Memᴰ x (update_where test change t)) {x = changed r} (rw h) (changed-mem t m)

    -- A change that keeps the identifiers keeps them unique.
    pub update_where-Unique :
        (t : List (OutboxEvent Json))
        → ((r : OutboxEvent Json) → (change r).event_id ≡ r.event_id)
        → Unique t
        → Unique (update_where test change t)
    unfolding update_where
    update_where-Unique [] k u = tt
    update_where-Unique (x ∷ t) k (fresh, u) = (others t fresh, update_where-Unique t k u)
      where
        others :
            (es : List (OutboxEvent Json))
            → All (λ e. text_eq e.event_id x.event_id ≡ false) es
            → All (λ e. text_eq e.event_id (changed x).event_id ≡ false) (map changed es)
        others [] h = tt
        others (e ∷ es) h = (ground (arith, k e, k x), others es h.1)

  -- Rows with one identifier are one row.
  pub Unique-eq :
      (t : List (OutboxEvent Json)) {r e : OutboxEvent Json}
      → Unique t
      → Memᴰ r t
      → Memᴰ e t
      → text_eq e.event_id r.event_id ≡ true
      → e ≡ r
  Unique-eq [] u m k h = elim m [ ]
  Unique-eq (x ∷ t) u (Memᴰ.head p) (Memᴰ.head q) h = cc
  Unique-eq (x ∷ t) {r} {e} u (Memᴰ.head p) (Memᴰ.tail k) h =
      cc (All-mem (λ y. text_eq y.event_id x.event_id ≡ false) t u.0 k)
  Unique-eq (x ∷ t) {r} {e} u (Memᴰ.tail m) (Memᴰ.head q) h = cc (
    All-mem (λ y. text_eq y.event_id x.event_id ≡ false) t u.0 m,
    text_eq_comm e.event_id r.event_id,
  )
  Unique-eq (x ∷ t) u (Memᴰ.tail m) (Memᴰ.tail k) h = Unique-eq t u.1 m k h
