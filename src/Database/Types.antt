-- ===== src/Database/Types.antt =====
-- The types of core/src/database.rs, and what it takes from the crates `url` and
-- `percent_encoding`.
use better_commerce.Prelude.{ℕ, Option, Text}
use better_commerce.Dispatcher.Types.{SqlError}

-- `Box<dyn Error>`: a message of the code, or an error of a crate.
pub data DatabaseError : Type 0 where
  refused : (message : Text) → DatabaseError
  sql_error : SqlError → DatabaseError
  url_error : DatabaseError
  utf8_error : DatabaseError

-- `percent_decode` is `percent_decode_str(..).decode_utf8()`; `none` is an error.
pub record Urls : Type 1 where
  pub Url : Type 0
  pub parse : Text → Option Url
  pub host_str : Url → Option Text
  pub port_or_known_default : Url → Option ℕ
  pub path : Url → Text
  pub username : Url → Text
  pub password : Url → Option Text
  pub percent_decode : Text → Option Text

pub record RuntimeIdentity : Type 0 where
  pub role : Text
  pub password : Text

-- The identities that `migrate_installation` checks before it connects.
pub record Identities : Type 0 where
  pub example : Option RuntimeIdentity
  pub dispatcher : Option RuntimeIdentity
  pub ready : RuntimeIdentity
