-- ===== src/Http/Routes.antt =====
-- The handlers of core/src/http/routes.rs, and `ReadinessDatabase::is_ready` of
-- core/src/database.rs. Which handler a request meets is decided by axum's router: an `Endpoint`.
use better_commerce.Prelude.{
  ℕ, Bool, false, ◌&&◌, not, ◌||◌, Option, none, some, Text, text, List, [], ◌∷◌, Result, ok, err,
  length, ◌==◌, if◌then◌else◌,
}
use better_commerce.Prelude.Results.{◌>>◌}
use better_commerce.Dispatcher.Types.{SqlError}
use better_commerce.Example.Migrations.{AppliedMigration, Migration, all_applied}
use better_commerce.Example.Module.{ReadyAnswers, is_ok}
use better_commerce.Composition.Types.{Composition}
use better_commerce.Composition.Compose.{modules_are_ready}
use better_commerce.Http.Context.{RequestContext, provide_anonymous_context}

pub data Body : Type 0 where
  health : (status : Text) → Body
  envelope : (code message : Text) → Body

pub record Response : Type 0 where
  pub status : ℕ
  pub body : Body

pub data Endpoint : Type 0 where
  at_healthz at_readyz unmatched : Endpoint

-- The pool of `ReadinessDatabase` stands for its URL.
pub record ReadinessDatabase : Type 0 where
  pub shared : Text

-- `connect`, where `connect_lazy` reads the URL.
abbrev pub connect_readiness :
    (Text → Result SqlError (Unit {0})) → Text → Result SqlError ReadinessDatabase
connect_readiness connect_lazy url = connect_lazy url >> ok (record { shared = url })

-- The pool that `close` closes.
abbrev pub close : ReadinessDatabase → List ReadinessDatabase
close d = d ∷ []

-- `is_ready`, where the shared database answers its two queries.
abbrev pub rows_ready :
    List Migration → Result SqlError (List AppliedMigration) → Result SqlError (Unit {0}) → Bool
rows_ready expected (err e) ping = false
rows_ready expected (ok rows) ping =
    if not (length rows == length expected) || not (all_applied rows expected)
    then false
    else is_ok ping

unfoldable pub is_ready : List Migration → ReadyAnswers → Bool
is_ready expected answers = rows_ready expected answers.migrations answers.ping

abbrev pub ok_response : Response
ok_response = record { status = 200; body = health (text "ok") }

abbrev pub not_ready_response : Response
not_ready_response = record {
  status = 503;
  body = envelope (text "not_ready") (text "Database prerequisites are not ready.");
}

abbrev pub not_found : Response
not_found = record {
  status = 404;
  body = envelope (text "not_found") (text "The requested resource was not found.");
}

abbrev pub healthz : RequestContext → Composition → Response
healthz context c = ok_response

module _ (shared expected : List Migration) (shared_answers : ReadyAnswers)
    (answers : Text → ReadyAnswers) where
  abbrev pub ready_with : Composition → Option ReadinessDatabase → Response
  ready_with c none = not_ready_response
  ready_with c (some d) =
      if is_ready shared shared_answers && modules_are_ready expected answers c
      then ok_response
      else not_ready_response

  unfoldable pub readyz : RequestContext → Composition → Option ReadinessDatabase → Response
  readyz context c readiness = ready_with c readiness

  abbrev pub handler : Endpoint → RequestContext → Composition → Option ReadinessDatabase → Response
  handler at_healthz context c readiness = healthz context c
  handler at_readyz context c readiness = readyz context c readiness
  handler unmatched context c readiness = not_found

  -- `router_with_readiness`: the context is provided first.
  unfoldable pub router_with_readiness :
      Composition → Option ReadinessDatabase → Endpoint → Option RequestContext → Response
  router_with_readiness c readiness endpoint context =
      handler endpoint (provide_anonymous_context context) c readiness

  unfoldable pub router : Composition → Endpoint → Option RequestContext → Response
  router c endpoint context = router_with_readiness c none endpoint context
