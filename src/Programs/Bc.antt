-- ===== src/Programs/Bc.antt =====
-- `main` and `run` of core/src/bin/bc.rs.
use better_commerce.Prelude.{
  ℕ, Text, text, List, [], ◌∷◌, ◌++◌, Outcome, returns, fails, panics, out_of_fuel, ◌≡◌, refl, ap,
  ◌⊎◌, inl, inr, Bool-cases, true, false, text_eq, text_eq_refl, eq_of_text_eq, if◌then◌else◌,
}
use better_commerce.Prelude.Outcomes.{fails_with}
use better_commerce.Manifest.Types.{Crates}
use better_commerce.Reconcile.Types.{Machine, ReconcileReport, ReconcileError}
use better_commerce.Reconcile.Effects.{Effect}
use better_commerce.Reconcile.Apply.{reconcile}

pub data BcError : Type 0 where
  usage : BcError
  not_reconciled : ReconcileError → BcError

-- How the program ends: with a message on the standard output, or with a code and a message on the
-- standard error. A run of the model may end without fuel.
pub data Exit : Type 0 where
  printed : (message : Text) → Exit
  exited_with : (code : ℕ) (message : Text) → Exit
  panicked out_of_steps : Exit

abbrev pub show_error : BcError → Text
show_error usage = text "usage: bc reconcile --manifest <path>"
show_error (not_reconciled e) =
    text "reconciliation " ++ (e.phase ++ (text " failed: " ++ e.message))

abbrev pub ready_message : ReconcileReport → Text
ready_message r =
    text "Installation '"
    ++ (r.installation_id
        ++ (text "' is ready at "
            ++ (r.ready_url ++ (text " (database '" ++ (r.database_name ++ text "').")))))

abbrev pub exit_of : Outcome BcError ReconcileReport → Exit
exit_of (returns r) = printed (ready_message r)
exit_of (fails e) = exited_with 1 (show_error e)
exit_of panics = panicked
exit_of out_of_fuel = out_of_steps

module _ {X : Crates} (M : Machine X) where
  abbrev pub Run : Type 0
  Run = Outcome BcError ReconcileReport × List Effect

  abbrev pub refused_arguments : Run
  refused_arguments = (fails usage, [])

  -- `reconcile(..).await?`, if no argument is left.
  abbrev pub run_path : Text → List Text → Run
  run_path path [] =
      let (result, effects) = reconcile M path in (fails_with not_reconciled result, effects)
  run_path path (more ∷ rest) = refused_arguments

  -- The flag and the path.
  abbrev pub run_flag : List Text → Run
  run_flag (flag ∷ path ∷ rest) =
      if text_eq flag (text "--manifest") then run_path path rest else refused_arguments
  run_flag _ = refused_arguments

  -- `run`, on the arguments after the program's name.
  unfoldable pub run : List Text → Run
  run [] = refused_arguments
  run (command ∷ rest) =
      if text_eq command (text "reconcile") then run_flag rest else refused_arguments

  unfoldable pub bc_main : List Text → Exit × List Effect
  bc_main arguments = let (result, effects) = run arguments in (exit_of result, effects)

  -- The arguments of a reconciliation.
  abbrev pub Names : List Text → Text → Type 0
  Names arguments path = arguments ≡ text "reconcile" ∷ text "--manifest" ∷ path ∷ []

  abbrev pub reconciled : Text → Exit × List Effect
  reconciled path = (exit_of (fails_with not_reconciled (reconcile M path).0), (reconcile M path).1)

  abbrev pub refused : Exit × List Effect
  refused = (exited_with 1 (show_error usage), [])

  -- The arguments name a path and it is reconciled, or they name none and are refused.
  abbrev pub IsRun : List Text → Exit × List Effect → Type 0
  IsRun arguments out =
      ((path : Text) × (Names arguments path × (out ≡ reconciled path)))
      ⊎ (((path : Text) → ¬ Names arguments path) × (out ≡ refused))

  abbrev path_of : List Text → Text
  path_of (command ∷ flag ∷ rest) = flag
  path_of _ = []

  abbrev command_of : List Text → Text
  command_of (command ∷ rest) = command
  command_of [] = []

  wrong_flag :
      (command flag : Text) (rest : List Text)
      → text_eq flag (text "--manifest") ≡ false
      → (path : Text) → ¬ Names (command ∷ flag ∷ rest) path
  wrong_flag command flag rest h path e =
      let is : flag ≡ text "--manifest" = ap path_of e in
      cc (rw (is, text_eq_refl (text "--manifest")) at h)

  wrong_command :
      (command : Text) (rest : List Text)
      → text_eq command (text "reconcile") ≡ false
      → (path : Text) → ¬ Names (command ∷ rest) path
  wrong_command command rest h path e =
      let is : command ≡ text "reconcile" = ap command_of e in
      cc (rw (is, text_eq_refl (text "reconcile")) at h)

  exact :
      (command flag path : Text)
      → text_eq command (text "reconcile") ≡ true
      → text_eq flag (text "--manifest") ≡ true
      → Names (command ∷ flag ∷ path ∷ []) path
  exact command flag path h k =
      rw (eq_of_text_eq command (text "reconcile") h, eq_of_text_eq flag (text "--manifest") k) refl

  flag-IsRun :
      (command : Text) (rest : List Text)
      → text_eq command (text "reconcile") ≡ true
      → IsRun (command ∷ rest) (exit_of (run_flag rest).0, (run_flag rest).1)
  flag-IsRun command [] h = inr (λ path e. cc, refl)
  flag-IsRun command (flag ∷ []) h = inr (λ path e. cc, refl)
  flag-IsRun command (flag ∷ path ∷ []) h = elim (Bool-cases (text_eq flag (text "--manifest"))) [
    | inr k ↦ inr (wrong_flag command flag (path ∷ []) k, rw k refl)
    | inl k ↦ inl (path, (exact command flag path h k, rw k refl))
  ]
  flag-IsRun command (flag ∷ path ∷ more ∷ rest) h =
      elim (Bool-cases (text_eq flag (text "--manifest"))) [
        | inr k ↦ inr (wrong_flag command flag (path ∷ more ∷ rest) k, rw k refl)
        | inl k ↦ inr (λ _ e. cc, rw k refl)
      ]

  -- The program reconciles exactly if its arguments are `reconcile --manifest <path>`, and ends as
  -- `exit_of` maps the result.
  pub bc_main-IsRun : (arguments : List Text) → IsRun arguments (bc_main arguments)
  unfolding bc_main run
  bc_main-IsRun [] = inr (λ path e. cc, refl)
  bc_main-IsRun (command ∷ rest) = elim (Bool-cases (text_eq command (text "reconcile"))) [
    | inl h ↦ rw h (flag-IsRun command rest h)
    | inr h ↦ inr (wrong_command command rest h, rw h refl)
  ]
