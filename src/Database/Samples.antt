-- ===== src/Database/Samples.antt =====
-- A sample installation for core/src/database.rs: a URL is its user name, every password is `it's`,
-- and the server agrees to everything.
use better_commerce.Prelude.{ℕ, false, some, Text, text, List, [], ◌∷◌, ok}
use better_commerce.Database.Types.{Urls, RuntimeIdentity, Identities}
use better_commerce.Database.Session.{Server}

abbrev pub urls : Urls
urls = record {
  Url = Text;
  parse = λ url. some url;
  host_str = λ url. some (text "localhost");
  port_or_known_default = λ url. some 5432;
  path = λ url. text "/bc_demo";
  username = λ url. url;
  password = λ url. some (text "it's");
  percent_decode = some;
}

abbrev pub server : Server
server = record {
  open_session = λ log url. ok tt;
  fetch_bool = λ log query binds. ok false;
  fetch_count = λ log query binds. ok 0;
  fetch_text = λ log query binds. ok (text "bc_demo");
  execute_sql = λ log statement. ok tt;
  run_migrator = λ log schema. ok tt;
  close_session = λ log. ok tt;
}

abbrev pub sha256 : List ℕ → List ℕ
sha256 bytes = 0 ∷ 255 ∷ []

abbrev pub operations_url : Text
operations_url = text "ops"

abbrev pub example_identity : RuntimeIdentity
example_identity = record { role = text "bc_example_bc_demo_00ff"; password = text "it's" }

abbrev pub dispatcher_identity : RuntimeIdentity
dispatcher_identity = record { role = text "bc_dispatch_bc_demo_00ff"; password = text "it's" }

abbrev pub ready_identity : RuntimeIdentity
ready_identity = record { role = text "bc_ready_bc_demo_00ff"; password = text "it's" }

abbrev pub identities : Identities
identities = record {
  example = some example_identity;
  dispatcher = some dispatcher_identity;
  ready = ready_identity;
}
