-- ===== src/Reconcile/Apply.antt =====
-- `run_compose` of core/src/reconcile.rs, and `reconcile`: the plan, and then the commands.
use better_commerce.Prelude.{
  zero, ℤ, pos, Bool, false, Option, none, some, Text, text, List, [], ◌∷◌, ◌++◌, Outcome, returns,
  fails, int_eq, if◌then◌else◌,
}
use better_commerce.Prelude.Formats.{decimal, decimal_int}
use better_commerce.Manifest.Types.{Crates}
use better_commerce.Reconcile.Types.{
  Machine, ReconcileReport, ReconcileError, ComposeContext, Output,
}
use better_commerce.Reconcile.Diagnostics.{redacted_diagnostics}
use better_commerce.Reconcile.Effects.{ran, Traced, quietly, ◌>>=◌, ◌>>◌}
use better_commerce.Reconcile.Ready.{verify_ready}
use better_commerce.Reconcile.Plan.{ReconcilePlan, plan}

-- `args.join(" ")`.
unfoldable pub join_words : List Text → Text
join_words [] = []
join_words (w ∷ []) = w
join_words (w ∷ v ∷ ws) = w ++ (text " " ++ join_words (v ∷ ws))

abbrev pub show_status : Option ℤ → Text
show_status none = text "terminated by signal"
show_status (some code) = text "exit status " ++ decimal_int code

-- `output.status.success()`.
abbrev pub is_success : Option ℤ → Bool
is_success none = false
is_success (some code) = int_eq code (pos zero)

module _ {X : Crates} (M : Machine X) where
  abbrev pub compose_error : ComposeContext → Text → List Text → Output → ReconcileError
  compose_error context phase args output = record {
    phase = phase;
    message =
        text "docker compose "
        ++ (join_words args
            ++ (text " ("
                ++ (show_status output.code
                    ++ (text "): "
                        ++ redacted_diagnostics M.from_utf8_lossy output.stdout output.stderr
                            context.environment))));
  }

  abbrev pub compose_result :
      ComposeContext → Text → List Text → Option Output → Outcome ReconcileError (Unit {0})
  compose_result context phase args none =
      fails (record { phase = phase; message = text "docker compose could not be started" })
  compose_result context phase args (some output) =
      if is_success output.code then returns tt else fails (compose_error context phase args output)

  unfoldable pub run_compose : ComposeContext → Text → List Text → Traced (Unit {0})
  run_compose context phase args =
      (compose_result context phase args (M.docker_compose context args), ran context args ∷ [])

  abbrev pub postgres_arguments : List Text
  postgres_arguments = text "up" ∷ text "--detach" ∷ text "--build" ∷ text "postgres" ∷ []

  abbrev pub migrate_arguments : List Text
  migrate_arguments = text "run" ∷ text "--build" ∷ text "--rm" ∷ text "migrate" ∷ []

  abbrev pub api_arguments : List Text
  api_arguments =
      text "up" ∷ text "--detach" ∷ text "--build" ∷ text "--force-recreate" ∷ text "api" ∷ []

  abbrev pub ready_url : ReconcilePlan → Text
  ready_url p = text "http://127.0.0.1:" ++ (decimal p.http_port ++ text "/readyz")

  abbrev pub report : ReconcilePlan → ReconcileReport
  report p = record {
    installation_id = p.installation_id;
    database_name = p.database_name;
    compose_project = p.context.project;
    ready_url = ready_url p;
  }

  unfoldable pub apply : ReconcilePlan → Traced ReconcileReport
  apply p = do
    run_compose p.context (text "apply PostgreSQL") postgres_arguments
    run_compose p.context (text "run owned migrations") migrate_arguments
    run_compose p.context (text "start API") api_arguments
    verify_ready M (ready_url p)
    (returns (report p), [])

  -- `reconcile`, on the path of the manifest.
  unfoldable pub reconcile : Text → Traced ReconcileReport
  reconcile path = do p ← quietly (plan M path); apply p
