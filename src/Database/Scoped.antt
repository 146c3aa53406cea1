-- ===== src/Database/Scoped.antt =====
-- The checks of `migrate_installation` in core/src/database.rs after its grants.
use better_commerce.Prelude.{
  ℕ, ◌≡◌, refl, sym, ap, subst, ◌∙◌, Bool, true, Option, Text, List, [], ◌∷◌, ok, returns,
}
use mathlib.Core.List.{append_assoc}
use better_commerce.Database.Types.{Urls, Identities}
use better_commerce.Database.Identity.{check_identities}
use better_commerce.Database.Sql.{revoke_public_schema}
use better_commerce.Database.Session.{Log, Server, closed, resume, connect, close, ◌>>◌}
use better_commerce.Database.Migrate.{provision, migrate_installation, ensure_scoped}
use better_commerce.Database.Sent.{is_return, scripted, connect-Sends}
use better_commerce.Database.Checked.{AreChecked, check_identities-AreChecked}
use better_commerce.Database.Script.{
  script, for_some, AreQuotable, IsQuotable, shared_script, example_script, dispatcher_script,
}
use better_commerce.Database.Parts.{refuse_removal-Sends, when_some-Sends}
use better_commerce.Database.Scripted.{
  provision_roles-Sends, limit_connections-Sends, migrate_shared-Sends, migrate_example-Sends,
  limit_dispatcher-Sends,
}
use better_commerce.Database.Clean.{resume-returns}
use better_commerce.Database.Asked.{
  resume-eq, past, AreScoped, ensure_scoped-AreScoped, AreScoped-append,
}

module _ (S : Server) where
  ending-AreScoped :
      (ids : Identities) (log : Log)
      → scripted log ≡ script ids
      → is_return ((ensure_scoped S ids >> close S) log).0 ≡ true
      → AreScoped S ids ((ensure_scoped S ids >> close S) log).1
  unfolding close
  ending-AreScoped ids log e h =
      let (a, (last, _)) = resume-returns (ensure_scoped S ids log) _ h in
      let is : (ensure_scoped S ids >> close S) log ≡ close S (ensure_scoped S ids log).1 =
        resume-eq (ensure_scoped S ids log) (λ _. close S) last in
      subst (AreScoped S ids) (sym (ap (λ out. out.1) is)) (
        AreScoped-append S ids (ensure_scoped S ids log).1 (closed ∷ [])
          (ensure_scoped-AreScoped S ids log e (rw last refl)))

  module _ (enabled : Bool) (ids : Identities) (q : AreQuotable ids) where
    provision-AreScoped :
        (log : Log)
        → scripted log ≡ []
        → is_return (provision S enabled ids log).0 ≡ true
        → AreScoped S ids (provision S enabled ids log).1
    unfolding provision
    provision-AreScoped log e h =
        let (a, (l1, (e1, (h1, (g1, _))))) = past S _ _ [] (refuse_removal-Sends S enabled) log h in
        let (b, (l2, (e2, (h2, (g2, _))))) = past S _ _ [] (provision_roles-Sends S ids q) l1 h1 in
        let (c, (l3, (e3, (h3, (g3, _))))) = past S _ _ _ (limit_connections-Sends S ids q) l2 h2 in
        let (d, (l4, (e4, (h4, (g4, _))))) =
          past S _ _ _ (migrate_shared-Sends S ids.ready q.ready) l3 h3 in
        let (f, (l5, (e5, (h5, (g5, _))))) =
          past S _ _ _
            (when_some-Sends S ids.example _ example_script IsQuotable q.example
              (migrate_example-Sends S))
            l4 h4 in
        let (g, (l6, (e6, (h6, (g6, _))))) =
          past S _ _ _
            (when_some-Sends S ids.dispatcher _ dispatcher_script IsQuotable q.dispatcher
              (limit_dispatcher-Sends S))
            l5 h5 in
        let is = ap (λ out. out.1) (g1 ∙ (g2 ∙ (g3 ∙ (g4 ∙ (g5 ∙ g6))))) in
        subst (AreScoped S ids) (sym is) (
          ending-AreScoped ids l6
            (rw
              (
                e6,
                e5,
                e4,
                e3,
                e2,
                e1,
                e,
                append_assoc (revoke_public_schema ∷ shared_script ids.ready)
                    (for_some ids.example example_script)
                    (for_some ids.dispatcher dispatcher_script),
              )
              refl)
            h6)

-- If an installation returns, then after all of its scripted statements, its session asked the four
-- queries about each role, and the answers at that point were that the role has no attribute,
-- membership, foreign schema or right to create that it should not have.
pub migrate_installation-AreScoped :
    (S : Server) (U : Urls) (sha256 : List ℕ → List ℕ) (operations_url : Text) (enabled : Bool)
    (example_url dispatcher_url : Option Text) (readiness_url : Text) (ids : Identities)
    → check_identities U sha256 operations_url enabled example_url dispatcher_url readiness_url
      ≡ ok ids
    → (migrate_installation S U sha256 operations_url enabled example_url dispatcher_url
        readiness_url []).0
      ≡ returns tt
    → AreScoped S ids
        (migrate_installation S U sha256 operations_url enabled example_url dispatcher_url
          readiness_url []).1
unfolding migrate_installation scripted
migrate_installation-AreScoped S U sha256 operations_url enabled example_url dispatcher_url
      readiness_url ids h done =
    let c : AreChecked ids =
      check_identities-AreChecked U sha256 operations_url enabled example_url dispatcher_url
        readiness_url h in
    let returned : is_return (resume (connect S operations_url []) (λ _. provision S enabled ids)).0
        ≡ true =
      rw (rw h at done) refl in
    let (a, (l, (e, (later, (is, _))))) =
      past S (connect S operations_url) (λ _. provision S enabled ids) []
        (connect-Sends S operations_url) [] returned in
    let scoped = provision-AreScoped S enabled ids c.quotable l e later in
    rw h (subst (AreScoped S ids) (sym (ap (λ out. out.1) is)) scoped)
