-- ===== src/Database/Sent.antt =====
-- Which statements a session of core/src/database.rs sends: the rules for its parts.
use better_commerce.Prelude.{
  ◌≡◌, refl, sym, ap, ◌∙◌, Bool, true, false, Text, List, [], ◌∷◌, ◌++◌, Result, ok, err, Outcome,
  returns, fails, panics, out_of_fuel,
}
use mathlib.Core.List.{append_assoc, append-nil}
use better_commerce.Dispatcher.Types.{SqlError}
use better_commerce.Database.Types.{DatabaseError}
use better_commerce.Database.Sql.{
  sql_text, Statement, alter_role, create_role, revoke_public_connect, grant_connect,
}
use better_commerce.Database.Session.{
  Request, executed, Log, Session, Server, resume, finish, stop, answered_by, connect, ask_bool,
  ask_count, ask_text, execute, migrate, close, opened, asked, migrated, closed, ◌>>=◌, ◌>>◌,
}

-- The statement is written in the code in full: the others contain an answer of the server.
abbrev pub is_scripted : Statement → Bool
is_scripted (alter_role role password) = false
is_scripted (create_role role password) = false
is_scripted (revoke_public_connect database) = false
is_scripted (grant_connect database role) = false
is_scripted _ = true

abbrev kept : Bool → Statement → List Statement → List Statement
kept true statement rest = statement ∷ rest
kept false statement rest = rest

-- The statements of a log that are scripted, in order.
unfoldable pub scripted : Log → List Statement
scripted [] = []
scripted (executed statement ∷ log) = kept (is_scripted statement) statement (scripted log)
scripted (opened url ∷ log) = scripted log
scripted (asked query binds ∷ log) = scripted log
scripted (migrated schema ∷ log) = scripted log
scripted (closed ∷ log) = scripted log

kept-append :
    (b : Bool) (s : Statement) (xs ys : List Statement) → kept b s (xs ++ ys) ≡ kept b s xs ++ ys
kept-append true s xs ys = refl
kept-append false s xs ys = refl

scripted-append : (l k : Log) → scripted (l ++ k) ≡ scripted l ++ scripted k
unfolding scripted
scripted-append [] k = refl
scripted-append (executed s ∷ l) k =
    rw (scripted-append l k) (kept-append (is_scripted s) s (scripted l) (scripted k))
scripted-append (opened url ∷ l) k = scripted-append l k
scripted-append (asked query binds ∷ l) k = scripted-append l k
scripted-append (migrated schema ∷ l) k = scripted-append l k
scripted-append (closed ∷ l) k = scripted-append l k

abbrev pub is_return : {A : Type 0} → Outcome DatabaseError A → Bool
is_return (returns a) = true
is_return _ = false

-- Neither a panic nor the end of fuel.
abbrev pub is_answer : {A : Type 0} → Outcome DatabaseError A → Bool
is_answer (returns a) = true
is_answer (fails e) = true
is_answer _ = false

-- What was sent since `log` is a beginning of the script, and the whole of it if the session
-- returns; the session ends with a result or an error, and only adds to its log.
pub record Sent {A : Type 0} (log : Log) (script : List Statement)
    (out : Outcome DatabaseError A × Log) : Type 0 where
  pub done : List Statement
  pub rest : List Statement
  pub split : script ≡ done ++ rest
  pub sent : scripted out.1 ≡ scripted log ++ done
  pub all_sent : is_return out.0 ≡ true → rest ≡ []
  pub grown : (later : Log) × (out.1 ≡ log ++ later)
  pub answers : is_answer out.0 ≡ true

-- What a session that returns has sent of the script.
pub Sent-scripted :
    {A : Type 0} {log : Log} {s : List Statement} {out : Outcome DatabaseError A × Log}
    → Sent log s out
    → is_return out.0 ≡ true
    → scripted out.1 ≡ scripted log ++ s
Sent-scripted {s} sent h =
    let all : s ≡ sent.done = sent.split ∙ rw (sent.all_sent h) (append-nil sent.done) in
    rw all sent.sent

abbrev pub Sends : {A : Type 0} → Session A → List Statement → Type 0
Sends m script = (log : Log) → Sent log script (m log)

module _ {A B : Type 0} where
  pub resume-Sent :
      (log : Log) (s t : List Statement) (out : Outcome DatabaseError A × Log)
      (rest : A → Session B)
      → Sent log s out
      → ((a : A) → out.0 ≡ returns a → Sends (rest a) t)
      → Sent log (s ++ t) (resume out rest)
  resume-Sent log s t (returns a, log') rest first later =
      let second : Sent log' t (rest a log') = later a refl log' in
      let whole : s ≡ first.done =
        first.split ∙ (rw (first.all_sent refl) (append-nil first.done)) in
      record {
        done = first.done ++ second.done;
        rest = second.rest;
        split = rw (whole, second.split) (sym (append_assoc first.done second.done second.rest));
        sent = second.sent ∙ (rw first.sent (append_assoc (scripted log) first.done second.done));
        all_sent = second.all_sent;
        grown = (
          first.grown.0 ++ second.grown.0,
          second.grown.1
              ∙ (ap (λ l. l ++ second.grown.0) first.grown.1
                  ∙ append_assoc log first.grown.0 second.grown.0),
        );
        answers = second.answers;
      }
  resume-Sent log s t (fails e, log') rest first later = record {
    done = first.done;
    rest = first.rest ++ t;
    split = rw first.split (append_assoc first.done first.rest t);
    sent = first.sent;
    all_sent = λ h. cc;
    grown = first.grown;
    answers = refl;
  }
  resume-Sent log s t (panics, log') rest first later = absurd (cc first.answers)
  resume-Sent log s t (out_of_fuel, log') rest first later = absurd (cc first.answers)

  pub bind-Sends :
      (m : Session A) (rest : A → Session B) (s t : List Statement)
      → Sends m s
      → ((a : A) → Sends (rest a) t)
      → Sends (m >>= rest) (s ++ t)
  bind-Sends m rest s t first later log =
      resume-Sent log s t (m log) rest (first log) (λ a _. later a)

  -- A part that sends nothing of the script, before the rest.
  pub quiet-Sends :
      (m : Session A) (rest : A → Session B) (t : List Statement)
      → Sends m []
      → ((a : A) → Sends (rest a) t)
      → Sends (m >>= rest) t
  quiet-Sends m rest t first later = bind-Sends m rest [] t first later

module _ {A : Type 0} where
  pub finish-Sends : (a : A) → Sends (finish a) []
  finish-Sends a log = record {
    done = [];
    rest = [];
    split = refl;
    sent = sym (append-nil (scripted log));
    all_sent = λ _. refl;
    grown = ([], sym (append-nil log));
    answers = refl;
  }

  pub stop-Sends : (e : DatabaseError) (s : List Statement) → Sends {A = A} (stop e) s
  stop-Sends e s log = record {
    done = [];
    rest = s;
    split = refl;
    sent = sym (append-nil (scripted log));
    all_sent = λ h. cc;
    grown = ([], sym (append-nil log));
    answers = refl;
  }

  -- A request whose answer may be an error.
  request-Sent :
      (r : Result SqlError A) (log : Log) (request : Request) (s : List Statement)
      → scripted (request ∷ []) ≡ s
      → Sent log s (answered_by r, log ++ request ∷ [])
  request-Sent (ok a) log request s e = record {
    done = s;
    rest = [];
    split = sym (append-nil s);
    sent = rw (scripted-append log (request ∷ []), e) refl;
    all_sent = λ _. refl;
    grown = (request ∷ [], refl);
    answers = refl;
  }
  request-Sent (err x) log request s e = record {
    done = s;
    rest = [];
    split = sym (append-nil s);
    sent = rw (scripted-append log (request ∷ []), e) refl;
    all_sent = λ h. refl;
    grown = (request ∷ [], refl);
    answers = refl;
  }

module _ (S : Server) where
  pub connect-Sends : (url : Text) → Sends (connect S url) []
  unfolding connect scripted
  connect-Sends url log = request-Sent (S.open_session log url) log (opened url) [] refl

  pub ask_bool-Sends : (query : Text) (binds : List Text) → Sends (ask_bool S query binds) []
  unfolding ask_bool scripted
  ask_bool-Sends query binds log =
      request-Sent (S.fetch_bool log query binds) log (asked query binds) [] refl

  pub ask_count-Sends : (query : Text) (binds : List Text) → Sends (ask_count S query binds) []
  unfolding ask_count scripted
  ask_count-Sends query binds log =
      request-Sent (S.fetch_count log query binds) log (asked query binds) [] refl

  pub ask_text-Sends : (query : Text) (binds : List Text) → Sends (ask_text S query binds) []
  unfolding ask_text scripted
  ask_text-Sends query binds log =
      request-Sent (S.fetch_text log query binds) log (asked query binds) [] refl

  pub execute-Sends :
      (statement : Statement)
      → Sends (execute S statement) (kept (is_scripted statement) statement [])
  unfolding execute scripted
  execute-Sends statement log =
      request-Sent (S.execute_sql log (sql_text statement)) log (executed statement) _ refl

  pub migrate-Sends : (schema : Text) → Sends (migrate S schema) []
  unfolding migrate scripted
  migrate-Sends schema log = request-Sent (S.run_migrator log schema) log (migrated schema) [] refl

  pub close-Sends : Sends (close S) []
  unfolding close scripted
  close-Sends log = request-Sent (S.close_session log) log closed [] refl

  -- A scripted statement before the rest of the session.
  pub script-Sends :
      {B : Type 0} (statement : Statement) (rest : Session B) (t : List Statement)
      → is_scripted statement ≡ true
      → Sends rest t
      → Sends (execute S statement >> rest) (statement ∷ t)
  script-Sends statement rest t e later =
      let first : Sends (execute S statement) (statement ∷ []) =
        rw e at (execute-Sends statement) in
      bind-Sends (execute S statement) (λ _. rest) (statement ∷ []) t first (λ _. later)
