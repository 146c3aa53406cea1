-- ===== src/Programs/Ends.antt =====
-- How the program of core/src/bin/bc.rs ends.
use better_commerce.Prelude.{
  ◌≡◌, refl, ◌⊎◌, inl, inr, some, Text, text, List, [], ◌∷◌, ◌++◌, returns, fails,
}
use better_commerce.Manifest.Types.{Crates}
use better_commerce.Reconcile.Types.{Machine, ReconcileReport, ReconcileError}
use better_commerce.Reconcile.Effects.{Effect, Traced}
use better_commerce.Reconcile.Ready.{HasClock}
use better_commerce.Reconcile.Apply.{report, reconcile}
use better_commerce.Reconcile.Phases.{
  Answers, Course, invalid, no_database, not_migrated, not_started, not_ready, reconciled,
  reconcile-Course,
}
use better_commerce.Programs.Bc.{
  Exit, printed, exited_with, ready_message, bc_main, bc_main-IsRun, IsRun,
}

module _ {X : Crates} (M : Machine X) where
  Course-Answers : (path : Text) (out : Traced ReconcileReport) → Course M path out → Answers out.0
  Course-Answers path out (invalid e _ is) = inr (e, rw is refl)
  Course-Answers path out (no_database p e _ _ is) = inr (e, rw is refl)
  Course-Answers path out (not_migrated p e _ _ _ is) = inr (e, rw is refl)
  Course-Answers path out (not_started p e _ _ _ _ is) = inr (e, rw is refl)
  Course-Answers path out (not_ready p e _ _ _ _ _ is) = inr (e, rw is refl)
  Course-Answers path out (reconciled p _ _ _ _ _ is) = inl (report M p, rw is refl)

  -- The installation of the manifest is reconciled, and its report is printed.
  abbrev pub IsReported : Text → Exit × List Effect → Type 0
  IsReported path out =
      (report : ReconcileReport) × ((reconcile M path).0 ≡ returns report)
      × (out ≡ (printed (ready_message report), (reconcile M path).1))

  -- The reconciliation fails, and the program exits with 1 and names the phase and the error.
  abbrev pub IsFailed : Text → Exit × List Effect → Type 0
  IsFailed path out =
      (e : ReconcileError) × ((reconcile M path).0 ≡ fails e)
      × (out ≡ (
        exited_with 1 (text "reconciliation " ++ (e.phase ++ (text " failed: " ++ e.message))),
        (reconcile M path).1,
      ))

  -- The arguments name a path that is reconciled, or they name none, and the program exits with 1
  -- and its usage, and runs nothing.
  abbrev pub IsEnd : List Text → Exit × List Effect → Type 0
  IsEnd arguments out =
      ((path : Text) × (arguments ≡ text "reconcile" ∷ text "--manifest" ∷ path ∷ [])
        × (IsReported path out ⊎ IsFailed path out))
      ⊎ (((path : Text) → ¬ (arguments ≡ text "reconcile" ∷ text "--manifest" ∷ path ∷ []))
          × (out ≡ (exited_with 1 (text "usage: bc reconcile --manifest <path>"), [])))

  IsRun-IsEnd :
      (arguments : List Text) (out : Exit × List Effect)
      → ((path : Text) → Answers (reconcile M path).0)
      → IsRun M arguments out
      → IsEnd arguments out
  IsRun-IsEnd arguments out answers (inl (path, (named, is))) = elim (answers path) [
    | inl (report, e) ↦ inl (path, named, inl (report, e, rw (is, e) refl))
    | inr (error, e) ↦ inl (path, named, inr (error, e, rw (is, e) refl))
  ]
  IsRun-IsEnd arguments out answers (inr (other, is)) = inr (other, is)

  -- Where the requirement of the release parses and a round of the readiness check takes a second:
  -- with the arguments `reconcile --manifest <path>`, the program reconciles and prints the report,
  -- or, if that fails, exits with 1 and the phase and the error; with any others it exits with 1
  -- and its usage, and runs nothing.
  pub bc_main-IsEnd :
      (requirement : X.VersionReq)
      → X.parse_req (text "^1.0") ≡ some requirement
      → HasClock M
      → (arguments : List Text) → IsEnd arguments (bc_main M arguments)
  bc_main-IsEnd requirement parses clock arguments =
      IsRun-IsEnd arguments (bc_main M arguments)
        (λ path.
          Course-Answers path (reconcile M path) (reconcile-Course M requirement path parses clock))
        (bc_main-IsRun M arguments)
