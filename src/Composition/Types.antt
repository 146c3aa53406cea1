-- ===== src/Composition/Types.antt =====
-- The types of core/src/composition.rs, and what the consumer of modules/example-consumer asks of
-- its ports.
use better_commerce.Prelude.{Text, Result, BTreeMap}
use better_commerce.Example.Module.{ExampleModule}

pub data ComposedModule : Type 0 where
  example : ExampleModule → ComposedModule

pub record Composition : Type 0 where
  pub modules : BTreeMap ComposedModule

-- `ExampleLabelPort`.
pub record ExampleLabelPort : Type 0 where
  pub read_label : Text

-- `ExampleCommandPort`; the state is the one that the provider changes.
pub record ExampleCommandPort (State : Type 0) : Type 1 where
  pub Error : Type 0
  pub create_record : Text → State → Result Error (Unit {0}) × State
