-- ===== src/Reconcile/Phases.antt =====
-- The order in which `reconcile` of core/src/reconcile.rs plans, applies and checks, and where it
-- stops.
use better_commerce.Prelude.{
  ◌≡◌, refl, ◌⊎◌, inl, inr, Option, none, some, Text, text, List, [], ◌∷◌, ◌++◌, Result, ok, err,
  Outcome, returns, fails, panics, out_of_fuel, Option-cases, Bool-cases, ap,
}
use better_commerce.Prelude.Outcomes.{of_result, or_fail, fails_with, or_else, ◌>>=◌}
use better_commerce.Manifest.Types.{Crates, LocalDeployment, ReleaseMetadata}
use better_commerce.Manifest.Validate.{parse_and_validate, supported_release_metadata}
use better_commerce.Manifest.Validate.Decides.{validate_manifest-total}
use better_commerce.Reconcile.Types.{
  Machine, ResolvedSecrets, ReconcileReport, ReconcileError, Output, ComposeContext,
}
use better_commerce.Reconcile.Deployment.{validate_local_deployment}
use better_commerce.Reconcile.Secrets.{resolve_secrets}
use better_commerce.Reconcile.Effects
use better_commerce.Reconcile.Effects.{Effect, ran, Traced}
use better_commerce.Reconcile.Ready.{
  HasClock, verify_ready, address_of, verify_ready-Ends, timeout_error, readiness_error,
}
use better_commerce.Reconcile.Plan.{ReconcilePlan, read_manifest, plan_local, plan}
use better_commerce.Reconcile.Apply.{
  compose_result, run_compose, postgres_arguments, migrate_arguments, api_arguments, ready_url,
  report, apply, reconcile, is_success, compose_error,
}

-- A result or an error: no panic, and fuel enough.
abbrev pub Answers : {E A : Type 0} → Outcome E A → Type 0
Answers {E} {A} o = ((a : A) × (o ≡ returns a)) ⊎ ((e : E) × (o ≡ fails e))

of_result-Answers : {E A : Type 0} (r : Result E A) → Answers (of_result r)
of_result-Answers (ok a) = inl (a, refl)
of_result-Answers (err e) = inr (e, refl)

or_fail-Answers : {E A : Type 0} (o : Option A) (e : E) → Answers (or_fail o e)
or_fail-Answers none e = inr (e, refl)
or_fail-Answers (some a) e = inl (a, refl)

fails_with-Answers :
    {E F A : Type 0} (f : E → F) (o : Outcome E A) → Answers o → Answers (fails_with f o)
fails_with-Answers f o (inl (a, e)) = rw e (inl (a, refl))
fails_with-Answers f o (inr (error, e)) = rw e (inr (f error, refl))

bind-Answers :
    {E A B : Type 0} (o : Outcome E A) (f : A → Outcome E B)
    → Answers o
    → ((a : A) → Answers (f a))
    → Answers (o >>= f)
bind-Answers o f (inl (a, e)) answers = rw e (answers a)
bind-Answers o f (inr (error, e)) answers = rw e (inr (error, refl))

append_nil : (effects : List Effect) → effects ++ [] ≡ effects
append_nil [] = refl
append_nil (e ∷ effects) = ap (λ rest. e ∷ rest) (append_nil effects)

module _ {B : Type 0} where
  bind-fails :
      (first : Traced (Unit {0})) (b : B) {e : ReconcileError}
      → first.0 ≡ fails e
      → Effects.◌>>=◌ first (λ _. (returns b, [])) ≡ (fails e, first.1)
  bind-fails (returns a, effects) b h = cc
  bind-fails (fails e, effects) b h = cc
  bind-fails (panics, effects) b h = cc
  bind-fails (out_of_fuel, effects) b h = cc

  bind-returns :
      (first : Traced (Unit {0})) (b : B)
      → first.0 ≡ returns tt
      → Effects.◌>>=◌ first (λ _. (returns b, [])) ≡ (returns b, first.1)
  bind-returns (returns a, effects) b h = rw (append_nil effects) refl
  bind-returns (fails e, effects) b h = cc
  bind-returns (panics, effects) b h = cc
  bind-returns (out_of_fuel, effects) b h = cc

module _ {X : Crates} (M : Machine X) where
  compose_result-Answers :
      (context : ComposeContext) (phase : Text) (args : List Text) (o : Option Output)
      → Answers (compose_result M context phase args o)
  compose_result-Answers context phase args none =
      inr (record { phase = phase; message = text "docker compose could not be started" }, refl)
  compose_result-Answers context phase args (some output) =
      elim (Bool-cases (is_success output.code)) [
        | inl e ↦ rw e (inl (tt, refl))
        | inr e ↦ rw e (inr (compose_error M context phase args output, refl))
      ]

  verify_ready-Answers : HasClock M → (url : Text) → Answers (verify_ready M url).0
  verify_ready-Answers c url = elim (Option-cases (address_of M url)) [
    | inl e ↦
        unfold verify_ready in
        rw e (inr (readiness_error (text "readiness address is invalid"), refl))
    | inr (a, e) ↦ elim (verify_ready-Ends M url a c e) [
      | inl r ↦ inl (tt, r.0)
      | inr r ↦ inr (timeout_error, r.0)
    ]
  ]

  module _ (requirement : X.VersionReq)
      (parses : X.parse_req (text "^1.0") ≡ some requirement) where
    supported-Answers : Answers (supported_release_metadata X)
    unfolding supported_release_metadata
    supported-Answers = rw parses (inl (_, refl))

    parse_and_validate-Answers :
        (source : Text) (metadata : ReleaseMetadata X)
        → Answers (parse_and_validate X M.from_str source metadata)
    unfolding parse_and_validate
    parse_and_validate-Answers source metadata =
        bind-Answers _ _ (of_result-Answers _)
          (λ manifest. validate_manifest-total X manifest metadata)

    read_manifest-Answers : (manifest_path : Text) → Answers (read_manifest M manifest_path)
    unfolding read_manifest
    read_manifest-Answers manifest_path = bind-Answers _ _ (or_fail-Answers _ _) (λ source.
        bind-Answers _ _ (fails_with-Answers _ _ supported-Answers) (λ metadata.
          bind-Answers _ _ (fails_with-Answers _ _ (parse_and_validate-Answers source metadata))
            (λ validated. bind-Answers _ _ (of_result-Answers _) (λ c. inl (validated, refl)))))

    plan_local-Answers :
        (manifest_path : Text) (local : LocalDeployment)
        → Answers (plan_local M manifest_path local)
    unfolding plan_local
    plan_local-Answers manifest_path local =
        bind-Answers {A = Unit {0}} _ _ (of_result-Answers (validate_local_deployment local)) (λ _.
          bind-Answers {A = ResolvedSecrets} _ _
            (of_result-Answers
              (resolve_secrets M local (or_else (M.parent manifest_path) (text "."))))
            (λ secrets.
              bind-Answers {A = Text} _ _
                (or_fail-Answers
                  (M.canonicalize (M.join M.cargo_manifest_dir (text "../deploy/compose.yaml"))) _)
                (λ compose_file. inl (_, refl))))

    plan-Answers : (path : Text) → Answers (plan M path)
    unfolding plan
    plan-Answers path = bind-Answers _ _ (or_fail-Answers _ _) (λ manifest_path.
        bind-Answers _ _ (read_manifest-Answers manifest_path) (λ validated.
          bind-Answers _ _ (or_fail-Answers _ _) (λ local. plan_local-Answers manifest_path local)))

  -- How a phase ends that runs a command.
  abbrev pub command : ReconcilePlan → Text → List Text → Outcome ReconcileError (Unit {0})
  command p phase args = compose_result M p.context phase args (M.docker_compose p.context args)

  abbrev pub postgres : ReconcilePlan → Outcome ReconcileError (Unit {0})
  postgres p = command p (text "apply PostgreSQL") (postgres_arguments M)

  abbrev pub migrations : ReconcilePlan → Outcome ReconcileError (Unit {0})
  migrations p = command p (text "run owned migrations") (migrate_arguments M)

  abbrev pub api : ReconcilePlan → Outcome ReconcileError (Unit {0})
  api p = command p (text "start API") (api_arguments M)

  abbrev pub readiness : ReconcilePlan → Traced (Unit {0})
  readiness p = verify_ready M (ready_url M p)

  abbrev pub one_run : ReconcilePlan → List Effect
  one_run p = ran p.context (postgres_arguments M) ∷ []

  abbrev pub two_runs : ReconcilePlan → List Effect
  two_runs p = ran p.context (postgres_arguments M) ∷ ran p.context (migrate_arguments M) ∷ []

  abbrev pub three_runs : ReconcilePlan → List Effect
  three_runs p =
      ran p.context (postgres_arguments M)
      ∷ ran p.context (migrate_arguments M)
      ∷ ran p.context (api_arguments M)
      ∷ []

  -- The courses that a reconciliation takes, each with its result and its effects.
  pub data Course (path : Text) (out : Traced ReconcileReport) : Type 0 where
    invalid : (e : ReconcileError) → plan M path ≡ fails e → out ≡ (fails e, []) → Course path out
    no_database :
        (p : ReconcilePlan) (e : ReconcileError)
        → plan M path ≡ returns p
        → postgres p ≡ fails e
        → out ≡ (fails e, one_run p)
        → Course path out
    not_migrated :
        (p : ReconcilePlan) (e : ReconcileError)
        → plan M path ≡ returns p
        → postgres p ≡ returns tt
        → migrations p ≡ fails e
        → out ≡ (fails e, two_runs p)
        → Course path out
    not_started :
        (p : ReconcilePlan) (e : ReconcileError)
        → plan M path ≡ returns p
        → postgres p ≡ returns tt
        → migrations p ≡ returns tt
        → api p ≡ fails e
        → out ≡ (fails e, three_runs p)
        → Course path out
    not_ready :
        (p : ReconcilePlan) (e : ReconcileError)
        → plan M path ≡ returns p
        → postgres p ≡ returns tt
        → migrations p ≡ returns tt
        → api p ≡ returns tt
        → (readiness p).0 ≡ fails e
        → out ≡ (fails e, three_runs p ++ (readiness p).1)
        → Course path out
    reconciled :
        (p : ReconcilePlan)
        → plan M path ≡ returns p
        → postgres p ≡ returns tt
        → migrations p ≡ returns tt
        → api p ≡ returns tt
        → (readiness p).0 ≡ returns tt
        → out ≡ (returns (report M p), three_runs p ++ (readiness p).1)
        → Course path out

  apply-Course :
      (path : Text) (p : ReconcilePlan)
      → HasClock M
      → plan M path ≡ returns p
      → Course path (apply M p)
  unfolding apply run_compose
  apply-Course path p c planned =
      elim (compose_result-Answers p.context (text "apply PostgreSQL") (postgres_arguments M)
        (M.docker_compose p.context (postgres_arguments M))) [
          | inr (e, a) ↦ no_database p e planned a (rw a refl)
          | inl (_, a) ↦
              elim (compose_result-Answers p.context (text "run owned migrations")
                (migrate_arguments M) (M.docker_compose p.context (migrate_arguments M))) [
                  | inr (e, b) ↦ not_migrated p e planned a b (rw (a, b) refl)
                  | inl (_, b) ↦
                      elim (compose_result-Answers p.context (text "start API") (api_arguments M)
                        (M.docker_compose p.context (api_arguments M))) [
                          | inr (e, d) ↦ not_started p e planned a b d (rw (a, b, d) refl)
                          | inl (_, d) ↦ elim (verify_ready-Answers c (ready_url M p)) [
                            | inr (e, r) ↦ not_ready p e planned a b d r (
                                rw
                                  (
                                    a,
                                    b,
                                    d,
                                    bind-fails (verify_ready M (ready_url M p)) (report M p) r,
                                  )
                                  refl)
                            | inl (_, r) ↦ reconciled p planned a b d r (
                                rw
                                  (
                                    a,
                                    b,
                                    d,
                                    bind-returns (verify_ready M (ready_url M p)) (report M p) r,
                                  )
                                  refl)
                          ]
                        ]
                ]
        ]

  -- Where the requirement of the release parses and a round of the readiness check takes a second,
  -- `reconcile` ends: it stops at the first phase that fails, with that error and the commands so
  -- far, none if planning fails; it reports only if all four phases succeeded.
  pub reconcile-Course :
      (requirement : X.VersionReq) (path : Text)
      → X.parse_req (text "^1.0") ≡ some requirement
      → HasClock M
      → Course path (reconcile M path)
  unfolding reconcile
  reconcile-Course requirement path parses c = elim (plan-Answers requirement parses path) [
    | inl (p, planned) ↦ rw planned (apply-Course path p c planned)
    | inr (e, planned) ↦ invalid e planned (rw planned refl)
  ]
