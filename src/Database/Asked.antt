-- ===== src/Database/Asked.antt =====
-- The checks of `ensure_scoped` in core/src/database.rs, and the log that they leave.
use better_commerce.Prelude.{
  ◌≡◌, refl, sym, ap, subst, ◌∙◌, true, Option, none, some, Text, List, [], ◌++◌, Outcome, returns,
  fails, panics, out_of_fuel,
}
use mathlib.Core.List.{append_assoc, append-nil}
use better_commerce.Database.Types.{DatabaseError, Identities, RuntimeIdentity}
use better_commerce.Database.Sql.{Statement}
use better_commerce.Database.Session.{Log, Session, Server, resume, when_some, ◌>>=◌, ◌>>◌}
use better_commerce.Database.Provision.{ensure_role_is_scoped}
use better_commerce.Database.Migrate.{example_schema, shared_schema, ensure_scoped}
use better_commerce.Database.Sent.{is_return, Sends, quiet-Sends, scripted, Sent-scripted}
use better_commerce.Database.Script.{script, ForSome}
use better_commerce.Database.Parts.{when_any-Sends, ensure_role_is_scoped-Sends}
use better_commerce.Database.Clean.{
  resume-returns, IsScopedAt, queried, ensure_role_is_scoped-queried,
  ensure_role_is_scoped-IsScopedAt,
}

-- What was sent first in a session.
abbrev pub IsBegun : Log → Log → Type 0
IsBegun first final = (later : Log) × (final ≡ first ++ later)

IsBegun-append : (first final later : Log) → IsBegun first final → IsBegun first (final ++ later)
IsBegun-append first final later (more, e) =
    (more ++ later, ap (λ l. l ++ later) e ∙ append_assoc first more later)

returns-injective : {E A : Type 0} {a b : A} → ◌≡◌ {A = Outcome E A} (returns b) (returns a) → b ≡ a
returns-injective h = cc

pub resume-eq :
    {A B : Type 0} (out : Outcome DatabaseError A × Log) (rest : A → Session B) {a : A}
    → out.0 ≡ returns a
    → resume out rest ≡ rest a out.1
resume-eq (returns b, log) rest {a} h = ap (λ x. rest x log) (returns-injective h)
resume-eq (fails e, log) rest h = cc
resume-eq (panics, log) rest h = cc
resume-eq (out_of_fuel, log) rest h = cc

module _ (S : Server) where
  -- The first part of a session that returns: what it sent, and the rest.
  pub past :
      {A B : Type 0} (m : Session A) (rest : A → Session B) (s : List Statement)
      → Sends m s
      → (log : Log) → is_return ((m >>= rest) log).0 ≡ true
      → (a : A) × ((l : Log) × ((scripted l ≡ scripted log ++ s)
            × ((is_return (rest a l).0 ≡ true)
                × (((m >>= rest) log ≡ rest a l) × (l ≡ (m log).1)))))
  past m rest s sends log h =
      let (a, (e, later)) = resume-returns (m log) rest h in
      (
        a,
        (
          (m log).1,
          (Sent-scripted (sends log) (rw e refl), (later, (resume-eq (m log) rest e, refl))),
        ),
      )

  -- After the whole script, the session asked the four queries about the role, and it passed them.
  abbrev pub IsScopedAfter : Identities → Log → Text → Text → Type 0
  IsScopedAfter ids final role schema =
      (l : Log) × ((scripted l ≡ script ids)
        × (IsScopedAt S role schema l × IsBegun (queried S role schema l) final))

  pub record AreScoped (ids : Identities) (final : Log) : Type 0 where
    pub ready : IsScopedAfter ids final ids.ready.role shared_schema
    pub example : ForSome ids.example (λ i. IsScopedAfter ids final i.role example_schema)
    pub dispatcher : ForSome ids.dispatcher (λ i. IsScopedAfter ids final i.role example_schema)

  role_scoped :
      (ids : Identities) (role schema : Text) (log final : Log)
      → scripted log ≡ script ids
      → is_return (ensure_role_is_scoped S role schema log).0 ≡ true
      → IsBegun (ensure_role_is_scoped S role schema log).1 final
      → IsScopedAfter ids final role schema
  role_scoped ids role schema log final e h b = (
    log,
    (
      e,
      (
        ensure_role_is_scoped-IsScopedAt S role schema log h,
        subst (λ l. IsBegun l final) (ensure_role_is_scoped-queried S role schema log h) b,
      ),
    ),
  )

  abbrev ensure_some : Option RuntimeIdentity → Session (Unit {0})
  ensure_some o = when_some o (λ i. ensure_role_is_scoped S i.role example_schema)

  ensure_some-Sends : (o : Option RuntimeIdentity) → Sends (ensure_some o) []
  ensure_some-Sends o =
      when_any-Sends S o _ (λ i. ensure_role_is_scoped-Sends S i.role example_schema)

  option_scoped :
      (ids : Identities) (o : Option RuntimeIdentity) (log final : Log)
      → scripted log ≡ script ids
      → is_return (ensure_some o log).0 ≡ true
      → IsBegun (ensure_some o log).1 final
      → ForSome o (λ i. IsScopedAfter ids final i.role example_schema)
  option_scoped ids none log final e h b = tt
  option_scoped ids (some i) log final e h b = role_scoped ids i.role example_schema log final e h b

  -- The last two roles, from the log of the first on.
  others_scoped :
      (ids : Identities) (log : Log)
      → scripted log ≡ script ids
      → is_return ((ensure_some ids.example >> ensure_some ids.dispatcher) log).0 ≡ true
      → let final = ((ensure_some ids.example >> ensure_some ids.dispatcher) log).1 in
        ForSome ids.example (λ i. IsScopedAfter ids final i.role example_schema)
        × ForSome ids.dispatcher (λ i. IsScopedAfter ids final i.role example_schema)
  others_scoped ids log e h =
      let final = ((ensure_some ids.example >> ensure_some ids.dispatcher) log).1 in
      let (a, (first, _)) = resume-returns (ensure_some ids.example log) _ h in
      let (b, (k, (g, (h1, (is, k_is))))) =
        past (ensure_some ids.example) (λ _. ensure_some ids.dispatcher) []
          (ensure_some-Sends ids.example) log h in
      let begun : IsBegun k final =
        subst (IsBegun k) (sym (ap (λ out. out.1) is)) (ensure_some-Sends ids.dispatcher k).grown in
      let last : IsBegun (ensure_some ids.dispatcher k).1 final =
        ([], ap (λ out. out.1) is ∙ sym (append-nil _)) in
      (
        option_scoped ids ids.example log final e (rw first refl)
            (subst (λ l. IsBegun l final) k_is begun),
        option_scoped ids ids.dispatcher k final (g ∙ (append-nil (scripted log) ∙ e)) h1 last,
      )

  others-Sends :
      (ids : Identities) → Sends (ensure_some ids.example >> ensure_some ids.dispatcher) []
  others-Sends ids =
      quiet-Sends _ _ _ (ensure_some-Sends ids.example) (λ _. ensure_some-Sends ids.dispatcher)

  pub ensure_scoped-AreScoped :
      (ids : Identities) (log : Log)
      → scripted log ≡ script ids
      → is_return (ensure_scoped S ids log).0 ≡ true
      → AreScoped ids (ensure_scoped S ids log).1
  unfolding ensure_scoped
  ensure_scoped-AreScoped ids log e h =
      let final = (ensure_scoped S ids log).1 in
      let (a, (first, _)) =
        resume-returns (ensure_role_is_scoped S ids.ready.role shared_schema log) _ h in
      let (b, (l, (f, (h1, (is, l_is))))) =
        past (ensure_role_is_scoped S ids.ready.role shared_schema)
          (λ _. ensure_some ids.example >> ensure_some ids.dispatcher) []
          (ensure_role_is_scoped-Sends S ids.ready.role shared_schema) log h in
      let same = sym (ap (λ out. out.1) is) in
      let begun : IsBegun l final = subst (IsBegun l) same (others-Sends ids l).grown in
      let others = others_scoped ids l (f ∙ (append-nil (scripted log) ∙ e)) h1 in
      record {
        ready =
            role_scoped ids ids.ready.role shared_schema log final e (rw first refl)
              (subst (λ l. IsBegun l final) l_is begun);
        example =
            subst
              (λ final. ForSome ids.example (λ i. IsScopedAfter ids final i.role example_schema))
              same others.0;
        dispatcher =
            subst
              (λ final. ForSome ids.dispatcher (λ i. IsScopedAfter ids final i.role example_schema))
              same others.1;
      }

  after-append :
      (ids : Identities) (role schema : Text) (final later : Log)
      → IsScopedAfter ids final role schema
      → IsScopedAfter ids (final ++ later) role schema
  after-append ids role schema final later (l, (e, (at, b))) =
      (l, (e, (at, IsBegun-append (queried S role schema l) final later b)))

  option-append :
      (ids : Identities) (o : Option RuntimeIdentity) (final later : Log)
      → ForSome o (λ i. IsScopedAfter ids final i.role example_schema)
      → ForSome o (λ i. IsScopedAfter ids (final ++ later) i.role example_schema)
  option-append ids none final later h = tt
  option-append ids (some i) final later h = after-append ids i.role example_schema final later h

  pub AreScoped-append :
      (ids : Identities) (final later : Log) → AreScoped ids final → AreScoped ids (final ++ later)
  AreScoped-append ids final later h = record {
    ready = after-append ids ids.ready.role shared_schema final later h.ready;
    example = option-append ids ids.example final later h.example;
    dispatcher = option-append ids ids.dispatcher final later h.dispatcher;
  }
