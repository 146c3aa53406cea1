-- ===== src/Example/Samples.antt =====
-- Sample statements and configurations for modules/example.
use better_commerce.Prelude.{Text, text, [], ◌∷◌, ◌++◌, List, Result, ok}
use better_commerce.Prelude.Formats.{decimal_int}
use better_commerce.Dispatcher.Operations.{answered, unanswered}
use better_commerce.Example.Types.{
  CreateStatements, JsonValues, ExampleSchema, ExampleConfiguration,
}

abbrev fields : List (Text × Text) → Text
fields [] = []
fields ((name, value) ∷ rest) = name ++ (text ":" ++ (value ++ (text "," ++ fields rest)))

-- JSON values as their texts.
abbrev pub values : JsonValues Text
values = record {
  number = decimal_int;
  string = λ s. text "'" ++ (s ++ text "'");
  object = λ entries. text "{" ++ (fields entries ++ text "}");
  to_string = λ s. s;
  jsonb = λ s. s;
}

abbrev pub all_answered : CreateStatements
all_answered = record {
  begin = answered;
  insert_record = answered;
  insert_event = answered;
  commit = answered;
  event_id = text "e";
  occurred_at = 10;
  available_at = 10;
}

-- The answer to the commit is lost.
abbrev pub commit_lost : CreateStatements
commit_lost = record all_answered { commit = unanswered }

abbrev pub no_rows : ExampleSchema Text
no_rows = record { records = []; last_id = 0; outbox = [] }

-- Every value is the configuration of a label.
abbrev pub from_value : Text → Result Text ExampleConfiguration
from_value label = ok (record { label = label })
