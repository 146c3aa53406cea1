-- ===== src/Programs/Api.antt =====
-- `main` of core/src/main.rs, up to what it serves.
use better_commerce.Prelude.{ℕ, Option, none, some, text, Result, ok, err, Outcome, returns, fails}
use better_commerce.Prelude.Results.{map_err}
use better_commerce.Prelude.Formats.{parse_unsigned}
use better_commerce.Prelude.Outcomes.{of_result, or_fail, or_else, ◌>>=◌, ◌>>◌}
use mathlib.Core.Option.{bind}
use better_commerce.Manifest.Types.{Crates}
use better_commerce.Dispatcher.Types.{SqlError}
use better_commerce.Composition.Types.{ComposedModule, Composition}
use better_commerce.Composition.Compose.{module_of, attach_example_database}
use better_commerce.Http.Routes.{ReadinessDatabase, connect_readiness}
use better_commerce.Programs.Types.{ProgramError, io_error, refused_url, Host}
use better_commerce.Programs.Start.{var, start}

-- The arguments of `axum::serve` and `router_with_readiness`.
pub record Served : Type 0 where
  pub composition : Composition
  pub readiness : Option ReadinessDatabase
  pub port : ℕ

abbrev pub attach_result :
    Result SqlError (Unit {0}) × Composition → Outcome ProgramError Composition
attach_result (ok tt, c) = returns c
attach_result (err e, c) = fails (refused_url e)

module _ {X : Crates} (H : Host X) where
  -- `if composition.module("example").is_some() { .. }`.
  abbrev pub attach_if : Option ComposedModule → Composition → Outcome ProgramError Composition
  attach_if none c = returns c
  attach_if (some m) c = var H (text "EXAMPLE_RUNTIME_DATABASE_URL") >>= λ url.
      attach_result (attach_example_database H.connect_lazy url c)

  abbrev pub api_port : ℕ
  api_port = or_else (bind (H.get_env (text "PORT")) (parse_unsigned 65536)) 3000

  unfoldable pub api_main : Outcome ProgramError Served
  api_main = do
    composed ← start H
    composition ← attach_if (module_of (text "example") composed) composed
    readiness_url ← var H (text "READINESS_DATABASE_URL")
    readiness ← of_result (map_err refused_url (connect_readiness H.connect_lazy readiness_url))
    or_fail (H.listen api_port) io_error
    returns (record { composition = composition; readiness = some readiness; port = api_port })
