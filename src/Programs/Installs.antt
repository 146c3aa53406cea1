-- ===== src/Programs/Installs.antt =====
-- What core/src/bin/migrate.rs installs.
use better_commerce.Prelude.{
  ◌≡◌, refl, sym, ap, ◌∙◌, inl, inr, Bool, true, false, Option, some, is_some, Text, text, List, [],
  ◌∷◌, contains_key, ok, ℕ, Outcome, returns, fails, panics, out_of_fuel,
}
use better_commerce.Prelude.Results.{bind-ok, ensure-not-ok, ok_value, Result-cases, ok_or}
use better_commerce.Prelude.Chars.{trim_start_matches}
use better_commerce.Prelude.Outcomes.{fails_with, >>=-eq-returns}
use better_commerce.Manifest.Types.{Crates, ValidatedManifest}
use better_commerce.Composition.Compose.{example_id, module_of}
use better_commerce.Composition.Only.{compose_modules-IsOnlyExample}
use better_commerce.Database.Types.{refused, url_error, Urls, RuntimeIdentity, Identities}
use better_commerce.Database.Identity.{
  decode, enabled_identity, parse_identity, any_pair_shares, check_identities,
}
use better_commerce.Database.Session.{Log, Server}
use better_commerce.Database.Migrate.{migrate_installation}
use better_commerce.Database.Sent.{scripted, Sent-scripted}
use better_commerce.Database.Script.{script}
use better_commerce.Database.Scripted.{migrate_installation-Sent}
use better_commerce.Programs.Types.{ProgramError, database_failed, Host}
use better_commerce.Programs.Start.{var, start, load_manifest}
use better_commerce.Programs.Serves.{start-composes}
use better_commerce.Programs.Migrate.{
  MigrateArguments, enabled_var, installation_arguments, run_installation, with_arguments,
  migrate_main,
}

module _ (U : Urls) where
  enabled_identity-is_some :
      (enabled : Bool) (url : Option Text) (operations_url expected_role missing : Text)
      {o : Option RuntimeIdentity}
      → enabled_identity U enabled url operations_url expected_role missing ≡ ok o
      → is_some o ≡ enabled
  unfolding enabled_identity
  enabled_identity-is_some false url operations_url expected_role missing {o} h =
      rw (← ok_value h) refl
  enabled_identity-is_some true url operations_url expected_role missing {o} h =
      let (given, (a, h1)) = bind-ok (ok_or url (refused missing)) _ h in
      let (i, (b, is)) = bind-ok (parse_identity U given operations_url expected_role) _ h1 in
      rw (← ok_value is) refl

  -- The identities that are checked are those of the enabled modules.
  check_identities-enabled :
      (sha256 : List ℕ → List ℕ) (operations_url : Text) (enabled : Bool)
      (example_url dispatcher_url : Option Text) (readiness_url : Text) {ids : Identities}
      → check_identities U sha256 operations_url enabled example_url dispatcher_url readiness_url
        ≡ ok ids
      → (is_some ids.example ≡ enabled) × (is_some ids.dispatcher ≡ enabled)
  unfolding check_identities
  check_identities-enabled sha256 operations_url enabled example_url dispatcher_url readiness_url
        {ids} h =
      let (operations, (a, h1)) = bind-ok (ok_or (U.parse operations_url) url_error) _ h in
      let (name, (b, h2)) = bind-ok (decode U (trim_start_matches 0x2f (U.path operations))) _ h1 in
      let (example, (c, h3)) = bind-ok (enabled_identity U enabled example_url _ _ _) _ h2 in
      let (dispatcher, (d, h4)) = bind-ok (enabled_identity U enabled dispatcher_url _ _ _) _ h3 in
      let (ready, (e, h5)) = bind-ok (parse_identity U readiness_url _ _) _ h4 in
      let (f, is) =
        ensure-not-ok (any_pair_shares (example ∷ dispatcher ∷ some ready ∷ [])) _ _ h5 in
      rw (← ok_value is) (
        enabled_identity-is_some enabled example_url operations_url _ _ c,
        enabled_identity-is_some enabled dispatcher_url operations_url _ _ d,
      )

  -- A whole installation is that of identities that passed the checks.
  migrate_installation-checked :
      (S : Server) (sha256 : List ℕ → List ℕ) (operations_url : Text) (enabled : Bool)
      (example_url dispatcher_url : Option Text) (readiness_url : Text) (log : Log)
      → (migrate_installation S U sha256 operations_url enabled example_url dispatcher_url
          readiness_url log).0
        ≡ returns tt
      → (ids : Identities) × (check_identities U sha256 operations_url enabled example_url
            dispatcher_url readiness_url
          ≡ ok ids)
  unfolding migrate_installation
  migrate_installation-checked S sha256 operations_url enabled example_url dispatcher_url
        readiness_url log h =
      elim (Result-cases (
        check_identities U sha256 operations_url enabled example_url dispatcher_url
          readiness_url)) [ inl found ↦ found | inr (e, p) ↦ cc (rw p at h) ]

fails_with-returns :
    {E F A : Type 0} (f : E → F) (o : Outcome E A) {a : A}
    → fails_with f o ≡ returns a
    → o ≡ returns a
fails_with-returns f (returns a) h = cc
fails_with-returns f (fails e) h = cc
fails_with-returns f panics h = cc
fails_with-returns f out_of_fuel h = cc

module _ {X : Crates} (H : Host X) where
  -- The log of an installation: the manifest is valid, the identities are those that the checks
  -- give for the arguments of the program, and exactly if the manifest has the example module,
  -- there are identities for it and for its dispatcher.
  pub record IsInstalled (log : Log) : Type 0 where
    pub manifest : ValidatedManifest X
    pub loaded : load_manifest H ≡ returns manifest
    pub arguments : MigrateArguments
    pub given : installation_arguments H ≡ returns arguments
    pub identities : Identities
    pub checked :
        check_identities H.urls H.sha256 arguments.operations_url arguments.example_enabled
          arguments.example_url arguments.dispatcher_url arguments.readiness_url
        ≡ ok identities
    pub sent : scripted log ≡ script identities
    pub example_enabled : is_some identities.example ≡ contains_key example_id manifest.modules
    pub dispatcher_enabled :
        is_some identities.dispatcher ≡ contains_key example_id manifest.modules

  installation_arguments-enabled :
      {a : MigrateArguments}
      → installation_arguments H ≡ returns a
      → (v : ValidatedManifest X) × ((load_manifest H ≡ returns v)
          × (a.example_enabled ≡ contains_key example_id v.modules))
  unfolding installation_arguments
  installation_arguments-enabled h =
      let (c, started, h1) = >>=-eq-returns (start H) _ h in
      let enabled : Bool = is_some (module_of (text "example") c) in
      let (e, example, h2) =
        >>=-eq-returns (enabled_var H enabled (text "EXAMPLE_RUNTIME_DATABASE_URL")) _ h1 in
      let (d, dispatcher, h3) =
        >>=-eq-returns (enabled_var H enabled (text "DISPATCHER_DATABASE_URL")) _ h2 in
      let (o, operations, h4) = >>=-eq-returns (var H (text "OPERATIONS_DATABASE_URL")) _ h3 in
      let (r, readiness, h5) = >>=-eq-returns (var H (text "READINESS_DATABASE_URL")) _ h4 in
      let (v, (loaded, composed)) = start-composes H started in
      let only = compose_modules-IsOnlyExample X H.from_value v composed in
      (v, (loaded, ap enabled_of (sym h5) ∙ only.1))
    where
      enabled_of : Outcome ProgramError MigrateArguments → Bool
      enabled_of (returns a) = a.example_enabled
      enabled_of _ = false

  module _ (S : Server) where
    with_arguments-returns :
        (o : Outcome ProgramError MigrateArguments) (log : Log)
        → (with_arguments H S o log).0 ≡ returns tt
        → (a : MigrateArguments) × ((o ≡ returns a) × ((run_installation H S a log).0 ≡ returns tt))
    with_arguments-returns (returns a) log h = (a, (refl, h))
    with_arguments-returns (fails e) log h = cc
    with_arguments-returns panics log h = cc
    with_arguments-returns out_of_fuel log h = cc

    -- If the program `migrate` returns, its manifest is valid, the checks of its arguments gave
    -- identities, and what it sent is the whole script of these identities, the module's and the dispatcher's being among them
    -- exactly if the manifest has the example module.
    pub migrate_main-IsInstalled :
        (migrate_main H S []).0 ≡ returns tt → IsInstalled (migrate_main H S []).1
    unfolding migrate_main scripted
    migrate_main-IsInstalled h =
        let (a, (given, done)) = with_arguments-returns (installation_arguments H) [] h in
        let (v, (loaded, enabled)) = installation_arguments-enabled given in
        let returned =
          fails_with-returns database_failed
            (migrate_installation S H.urls H.sha256 a.operations_url a.example_enabled a.example_url
              a.dispatcher_url a.readiness_url []).0
            done in
        let (ids, checked) =
          migrate_installation-checked H.urls S H.sha256 a.operations_url a.example_enabled
            a.example_url a.dispatcher_url a.readiness_url [] returned in
        let (e, d) =
          check_identities-enabled H.urls H.sha256 a.operations_url a.example_enabled a.example_url
            a.dispatcher_url a.readiness_url checked in
        let sent =
          migrate_installation-Sent S H.urls H.sha256 a.operations_url a.example_enabled
            a.example_url a.dispatcher_url a.readiness_url ids checked in
        record {
          manifest = v;
          loaded = loaded;
          arguments = a;
          given = given;
          identities = ids;
          checked = checked;
          sent = rw given (Sent-scripted sent (rw returned refl));
          example_enabled = e ∙ enabled;
          dispatcher_enabled = d ∙ enabled;
        }
