-- ===== src/Example/Tests.antt =====
-- Runs of modules/example, and the theorems about it at these inputs.
use better_commerce.Prelude.{◌≡◌, refl, true, Text, text, [], ok, err, length, text_eq}
use better_commerce.Dispatcher.Operations.{unsent, claim_next}
use better_commerce.Dispatcher.Steps.{Reach, claims}
use better_commerce.Dispatcher.Samples.{dispatcher, shown, claim_at, worker}
use better_commerce.Example.Types.{ExampleSchema, empty_label}
use better_commerce.Example.Database.{
  create_record, write_business_state, write_outbox_event, has_record, violates_unique,
}
use better_commerce.Example.Configuration.{
  parse_configuration, parse_configuration_iff, is_shown, is_whitespace, trim_start, trim_end,
}
use better_commerce.Example.Writes.{CreateOutcome, create_record-Outcome}
use better_commerce.Example.Announced.{IsAnnounced}
use better_commerce.Example.Runs.{Runs, idle, then, creates, works, Runs-IsAnnounced, Runs-Reach}
use better_commerce.Example.Samples.{values, all_answered, commit_lost, no_rows, from_value}

program : Unit {0}
unfolding create_record write_business_state write_outbox_event has_record violates_unique text_eq
    parse_configuration is_shown is_whitespace trim_start trim_end
program = tt

-- A refused event takes the record with it.
abbrev refused : ExampleSchema Text
refused =
    (create_record values (record all_answered { insert_event = unsent }) (text "Demo") no_rows).1

rolled_back_record : refused.records ≡ []
unfolding program
rolled_back_record = refl

written_once : length (create_record values commit_lost (text "Demo") no_rows).1.outbox ≡ 1
unfolding program
written_once = refl

refuses_blank : parse_configuration from_value (text "  ") ≡ err empty_label
unfolding program
refuses_blank = refl

create_record-Outcome_example :
    CreateOutcome values commit_lost
      (text "Demo")
      no_rows
      (create_record values commit_lost (text "Demo") no_rows)
create_record-Outcome_example = create_record-Outcome values commit_lost (text "Demo") no_rows

abbrev created : ExampleSchema Text
created = (create_record values commit_lost (text "Demo") no_rows).1

abbrev claimed : ExampleSchema Text
claimed = record created {
  outbox = (claim_next shown dispatcher worker (claim_at 20 (text "u")) created.outbox).1;
}

sample_run : Runs shown values no_rows claimed
sample_run =
    then (then idle (creates commit_lost (text "Demo") refl))
      (works (claims dispatcher worker (claim_at 20 (text "u")) refl) refl refl)

Runs-IsAnnounced_example : IsAnnounced values claimed
Runs-IsAnnounced_example = Runs-IsAnnounced shown values sample_run

Runs-Reach_example : Reach shown [] claimed.outbox
Runs-Reach_example = Runs-Reach shown values sample_run

shown_label : is_shown (text "Demo") ≡ true
unfolding program
shown_label = refl

parse_configuration_iff_example :
    parse_configuration from_value (text "Demo") ≡ ok (record { label = text "Demo" })
parse_configuration_iff_example =
    (parse_configuration_iff from_value (text "Demo") (record { label = text "Demo" })).1
      (refl, shown_label)
