-- ===== src/Composition/Transport.antt =====
-- The adapter of modules/example-transport/src/lib.rs, another provider of the consumer's port. The
-- message is the one that its build generates.
use better_commerce.Prelude.{Text}
use better_commerce.Composition.Types.{ExampleLabelPort}

pub record ReadLabelResponse : Type 0 where
  pub label : Text

pub record ProtobufExampleLabelAdapter : Type 0 where
  pub response : ReadLabelResponse

abbrev pub from_response : ReadLabelResponse → ProtobufExampleLabelAdapter
from_response response = record { response = response }

-- `read_label`, as the port.
abbrev pub protobuf_adapter : ProtobufExampleLabelAdapter → ExampleLabelPort
protobuf_adapter adapter = record { read_label = adapter.response.label }
