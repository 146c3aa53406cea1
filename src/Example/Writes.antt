-- ===== src/Example/Writes.antt =====
-- What `create_record` of modules/example/src/database.rs leaves in the two tables.
use better_commerce.Prelude.{
  suc, ◌≡◌, refl, ◌⊎◌, inl, inr, ◌<◌, true, false, Text, Result, ok, err, Bool-cases, ltb, ltb→lt,
}
use better_commerce.Dispatcher.Types.{SqlError}
use better_commerce.Dispatcher.Operations.{Link, answered, unsent, unanswered, answer}
use better_commerce.Example.Types.{
  ExampleRecordCreated, ExampleSchema, CreateStatements, JsonValues,
}
use better_commerce.Example.Database.{
  max_bigint, has_record, violates_unique, next_event, with_record, write_business_state, event_row,
  with_event, write_outbox_event, after_event, after_record, after_begin, create_record,
  rolled_back,
}

module _ {Json : Type 0} where
  -- The record and its event are both there, next to the rows of before.
  pub record IsWritten (J : JsonValues Json) (q : CreateStatements) (label : Text)
      (s after : ExampleSchema Json) : Type 0 where
    pub room : s.last_id < max_bigint
    pub new_record : has_record (next_event s label).record_id s.records ≡ false
    pub new_event : violates_unique (event_row J q (next_event s label)) s.outbox ≡ false
    pub both : after ≡ with_event J q (next_event s label) (with_record s label)

  -- Neither is there; the sequence may have given out a number.
  pub record IsUnwritten (s after : ExampleSchema Json) : Type 0 where
    pub records : after.records ≡ s.records
    pub outbox : after.outbox ≡ s.outbox
    pub last_id : (after.last_id ≡ s.last_id) ⊎ (after.last_id ≡ suc s.last_id)

  -- An answer tells of both rows; an error of neither, or its answer was lost at the commit.
  abbrev pub CreateOutcome :
      JsonValues Json
      → CreateStatements
      → Text
      → ExampleSchema Json
      → Result SqlError ExampleRecordCreated × ExampleSchema Json
      → Type 0
  CreateOutcome J q label s (ok event, after) =
      (event ≡ next_event s label) × IsWritten J q label s after
  CreateOutcome J q label s (err e, after) =
      IsUnwritten s after ⊎ ((q.commit ≡ unanswered) × IsWritten J q label s after)

  module _ (J : JsonValues Json) (q : CreateStatements) (label : Text)
      (s : ExampleSchema Json) where
    abbrev tx : ExampleSchema Json
    tx = with_event J q (next_event s label) (with_record s label)

    commit-Outcome :
        (l : Link)
        → q.commit ≡ l
        → IsWritten J q label s tx
        → CreateOutcome J q label s (answer l (next_event s label) (rolled_back s tx) tx)
    commit-Outcome answered e w = (refl, w)
    commit-Outcome unsent e w = inl (record { records = refl; outbox = refl; last_id = inr refl })
    commit-Outcome unanswered e w = inr (e, w)

    inserted-Outcome :
        (l : Link)
        → IsWritten J q label s tx
        → CreateOutcome J q label s
            (after_event J q s (next_event s label) (answer l tt (with_record s label) tx))
    inserted-Outcome answered w = commit-Outcome q.commit refl w
    inserted-Outcome unsent w = inl (record { records = refl; outbox = refl; last_id = inr refl })
    inserted-Outcome unanswered w =
        inl (record { records = refl; outbox = refl; last_id = inr refl })

    event-Outcome :
        ltb s.last_id max_bigint ≡ true
        → has_record (next_event s label).record_id s.records ≡ false
        → CreateOutcome J q label s (
            after_event J q s
              (next_event s label)
              (write_outbox_event J q (next_event s label) (with_record s label)))
    unfolding write_outbox_event
    event-Outcome room fresh =
        elim (Bool-cases (violates_unique (event_row J q (next_event s label)) s.outbox)) [
          | inl taken ↦
              rw taken (inl (record { records = refl; outbox = refl; last_id = inr refl }))
          | inr new ↦ rw new (
              inserted-Outcome q.insert_event (record {
                room = ltb→lt _ _ room;
                new_record = fresh;
                new_event = new;
                both = refl;
              }))
        ]

    numbered-Outcome :
        (l : Link)
        → ltb s.last_id max_bigint ≡ true
        → has_record (next_event s label).record_id s.records ≡ false
        → CreateOutcome J q label s
            (after_record J q s (answer l (next_event s label) s (with_record s label)))
    numbered-Outcome answered room fresh = event-Outcome room fresh
    numbered-Outcome unsent room fresh =
        inl (record { records = refl; outbox = refl; last_id = inl refl })
    numbered-Outcome unanswered room fresh =
        inl (record { records = refl; outbox = refl; last_id = inr refl })

    record-Outcome :
        CreateOutcome J q label s
          (after_record J q s (write_business_state q.insert_record label s))
    unfolding write_business_state
    record-Outcome = elim (Bool-cases (ltb s.last_id max_bigint)) [
      | inl room ↦ elim (Bool-cases (has_record (next_event s label).record_id s.records)) [
        | inl taken ↦
            rw (room, taken) (inl (record { records = refl; outbox = refl; last_id = inr refl }))
        | inr fresh ↦ rw (room, fresh) (numbered-Outcome q.insert_record room fresh)
      ]
      | inr full ↦ rw full (inl (record { records = refl; outbox = refl; last_id = inl refl }))
    ]

    begin-Outcome : (l : Link) → CreateOutcome J q label s (after_begin J l q label s)
    begin-Outcome answered = record-Outcome
    begin-Outcome unsent = inl (record { records = refl; outbox = refl; last_id = inl refl })
    begin-Outcome unanswered = inl (record { records = refl; outbox = refl; last_id = inl refl })

    -- `create_record` writes both rows or neither. It answers with the event of the new row only if
    -- both are there; if it fails, both are there only if the answer to the commit was lost.
    pub create_record-Outcome : CreateOutcome J q label s (create_record J q label s)
    unfolding create_record
    create_record-Outcome = begin-Outcome q.begin
