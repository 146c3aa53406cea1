-- ===== src/Dispatcher/Effects.antt =====
-- What a statement of core/src/dispatcher.rs leaves behind: which end it comes to by its fate, and
-- the table in which the row of one event is changed.
use better_commerce.Prelude.{
  ◌≡◌, refl, ◌⊎◌, inl, inr, Bool, true, Text, [], ◌∷◌, map, Memᴰ, if◌then◌else◌, text_eq,
  text_eq_iff, arith, ok, err, Result, Bool-cases,
}
use better_commerce.Dispatcher.Types.{OutboxEvent, SqlError, io}
use better_commerce.Dispatcher.Table.{update_where}
use better_commerce.Dispatcher.Operations.{Link, answered, unsent, unanswered, answer, Table}
use better_commerce.Dispatcher.Rows.{Unique, Unique-eq}

-- An answered statement takes effect and reports, one whose answer is lost takes effect and fails,
-- and an unsent one fails and changes nothing.
abbrev pub Ends : {A T : Type 0} → Link → A → T → T → Result SqlError A × T → Type 0
Ends link reported before after out =
    ((link ≡ answered) × (out ≡ (ok reported, after)))
    ⊎ (((link ≡ unanswered) × (out ≡ (err io, after)))
        ⊎ ((link ≡ unsent) × (out ≡ (err io, before))))

pub answer-Ends :
    {A T : Type 0} (link : Link) (reported : A) (before after : T)
    → Ends link reported before after (answer link reported before after)
answer-Ends answered reported before after = inl (refl, refl)
answer-Ends unsent reported before after = inr (inr (refl, refl))
answer-Ends unanswered reported before after = inr (inl (refl, refl))

module _ {Json : Type 0} where
  -- The table with a change in the row of one event.
  abbrev pub changed_at : Text → (OutboxEvent Json → OutboxEvent Json) → Table Json → Table Json
  changed_at id change t = map (λ e. if text_eq e.event_id id then change e else e) t

  module _ (test : OutboxEvent Json → Bool) (change : OutboxEvent Json → OutboxEvent Json)
      (id : Text) where
    agree :
        (t : Table Json)
        → ((e : OutboxEvent Json) → Memᴰ e t → test e ≡ text_eq e.event_id id)
        → update_where test change t ≡ changed_at id change t
    unfolding update_where
    agree [] h = refl
    agree (x ∷ t) h = rw (h x (Memᴰ.head refl), agree t (λ e m. h e (Memᴰ.tail m))) refl

    -- An update by a test that names one row changes the row of that event.
    pub update_where-event :
        (t : Table Json) (r : OutboxEvent Json)
        → ((e : OutboxEvent Json) → test e ≡ true → e.event_id ≡ id)
        → Unique t
        → Memᴰ r t
        → test r ≡ true
        → update_where test change t ≡ changed_at id change t
    update_where-event t r names u m h = agree t (λ e k. elim (Bool-cases (text_eq e.event_id id)) [
      | inl same ↦
          let one : text_eq e.event_id r.event_id ≡ true =
            ground (arith, names r h, text_eq_iff e.event_id id) in
          let eq : e ≡ r = Unique-eq t u m k one in rw (same, eq) h
      | inr other ↦ ground (arith, names e, text_eq_iff e.event_id id)
    ])
