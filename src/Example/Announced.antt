-- ===== src/Example/Announced.antt =====
-- The records of modules/example and the events of its outbox, while `create_record` of
-- modules/example/src/database.rs and the workers of core/src/dispatcher.rs run in any order.
use better_commerce.Prelude.{
  ℕ, suc, ◌≡◌, refl, ◌≤◌, inl, inr, pos, true, false, Text, [], ◌∷◌, Memᴰ, arith, text_eq, sym,
  mem-snoc, snoc-mem, last-mem, All, Bool-cases, int_eq_iff, ap, ◌∙◌,
}
use better_commerce.Dispatcher.Types.{OutboxEvent}
use better_commerce.Dispatcher.Table.{same_aggregate}
use better_commerce.Dispatcher.Operations.{Table}
use better_commerce.Dispatcher.Invariant.{IsAppended}
use better_commerce.Example.Types.{ExampleRecord, ExampleSchema, CreateStatements, JsonValues}
use better_commerce.Example.Database.{
  example_record, violates_unique, next_event, with_record, payload_of, event_row, with_event,
}
use better_commerce.Example.Writes.{IsUnwritten}

module _ {Json : Type 0} (J : JsonValues Json) where
  -- The event tells of the record.
  pub record IsAbout (r : ExampleRecord) (e : OutboxEvent Json) : Type 0 where
    pub kind : e.aggregate_type ≡ example_record
    pub id : e.aggregate_id ≡ r.id
    pub payload :
        e.payload
        ≡ J.jsonb (J.to_string (payload_of J (record { record_id = r.id; label = r.label })))

  -- Each record has an event that tells of it, and each event of a record its record; the
  -- identifiers are those that the sequence gave out.
  pub record IsAnnounced (s : ExampleSchema Json) : Type 0 where
    pub numbered :
        (r : ExampleRecord) → Memᴰ r s.records → (n : ℕ) × (r.id ≡ pos n) × (n ≤ s.last_id)
    pub announced :
        (r : ExampleRecord)
        → Memᴰ r s.records
        → (e : OutboxEvent Json) × Memᴰ e s.outbox × IsAbout r e
    pub recorded :
        (e : OutboxEvent Json)
        → Memᴰ e s.outbox
        → text_eq e.aggregate_type example_record ≡ true
        → (r : ExampleRecord) × Memᴰ r s.records × (r.id ≡ e.aggregate_id)

  module _ {s after : ExampleSchema Json} (v : IsAnnounced s) where
    pub unwritten-IsAnnounced : IsUnwritten s after → IsAnnounced after
    unwritten-IsAnnounced u = record {
      numbered = λ r m.
          let (n, e, le) = v.numbered r (rw (← u.records) m) in
          (n, e, elim u.last_id [ inl k ↦ omega arith | inr k ↦ omega arith ]);
      announced = λ r m.
          let (e, k, about) = v.announced r (rw (← u.records) m) in (e, rw u.outbox k, about);
      recorded = λ e m kind.
          let (r, k, same) = v.recorded e (rw (← u.outbox) m) kind in (r, rw u.records k, same);
    }

  violates_unique-All :
      (row : OutboxEvent Json) (t : Table Json)
      → violates_unique row t ≡ false
      → All (λ e. text_eq row.event_id e.event_id ≡ false) t
  unfolding violates_unique
  violates_unique-All row [] h = tt
  violates_unique-All row (e ∷ t) h = (ground arith, violates_unique-All row t (ground arith))

  module _ (q : CreateStatements) (label : Text) {s : ExampleSchema Json} (v : IsAnnounced s) where
    abbrev new : OutboxEvent Json
    new = event_row J q (next_event s label)

    -- The identifier is new, so no event of the outbox belongs to the new record.
    not_same_aggregate : (e : OutboxEvent Json) → Memᴰ e s.outbox → same_aggregate e new ≡ false
    not_same_aggregate e m = elim (Bool-cases (same_aggregate e new)) [
      | inl same ↦
          let (r, k, id) = v.recorded e m (ground arith) in
          let (n, number, le) = v.numbered r k in
          let place : e.aggregate_id ≡ pos (suc s.last_id) =
            (int_eq_iff e.aggregate_id (pos (suc s.last_id))).0 (ground arith) in
          ground (arith, sym number ∙ (id ∙ place))
      | inr other ↦ other
    ]

    pub new-IsAppended : violates_unique new s.outbox ≡ false → IsAppended s.outbox new
    new-IsAppended h = record {
      fresh = violates_unique-All new s.outbox h;
      untouched = refl;
      consistent = record {
        lease = refl;
        delivered = refl;
        dead = refl;
        one_end = refl;
        reason = refl;
      };
      last = λ e m same. cc (not_same_aggregate e m);
    }

    abbrev tx : ExampleSchema Json
    tx = with_event J q (next_event s label) (with_record s label)

    pub written-IsAnnounced : IsAnnounced tx
    written-IsAnnounced = record {
      numbered = λ r m. elim (mem-snoc s.records m) [
        | inl k ↦ let (n, e, le) = v.numbered r k in (n, e, omega arith)
        | inr e ↦ (suc s.last_id, ap (λ x. x.id) e, omega arith)
      ];
      announced = λ r m. elim (mem-snoc s.records m) [
        | inl k ↦ let (e, w, about) = v.announced r k in (e, snoc-mem new w, about)
        | inr e ↦
            (new, last-mem s.outbox new, rw e (record { kind = refl; id = refl; payload = refl }))
      ];
      recorded = λ e m kind. elim (mem-snoc s.outbox m) [
        | inl k ↦ let (r, w, same) = v.recorded e k kind in (r, snoc-mem _ w, same)
        | inr is ↦ (_, last-mem s.records _, ap (λ x. x.aggregate_id) (sym is))
      ];
    }
