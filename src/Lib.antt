-- ===== src/Lib.antt =====
-- A model of better-commerce, a commerce core in Rust, with proofs about it.
--
-- Prelude      shared names; texts as lists of Unicode scalar values; Rust's Result, panics and
--              maps; predicates on lists.
-- Manifest     core/src/manifest.rs: Types has its records, Acyclic the search for cycles of
--              dependencies, Validate the checks in the order of the code.
-- Dispatcher   core/src/dispatcher.rs: Table has the conditions and assignments of its SQL
--              statements over the rows of modules/example/migrations, Operations and Dispatch the
--              methods of PostgresOutboxDispatcher, Delivery the in-process port. Steps is the
--              relation of all interleavings of the statements of any workers, Holders and Grants
--              are about the single statements.
-- Example      modules/example/src: Database has the transaction that writes a record and its event,
--              Configuration the parser, Migrations and Module the rest. Runs is the relation of
--              all interleavings of `create_record` and the workers of the dispatcher, which reads
--              the outbox that `create_record` writes.
-- Composition  core/src/composition.rs, which turns a validated manifest into modules, and
--              modules/example-consumer/src/lib.rs, whose ports it adapts, as does
--              modules/example-transport/src/lib.rs.
-- Http         core/src/http/routes.rs, core/src/context.rs and `ReadinessDatabase` of
--              core/src/database.rs.
-- Database     `migrate_installation` of core/src/database.rs and what it calls: Identity is what it
--              checks before it connects, Sql its statements, Session the monad of what is sent to
--              the server, Provision and Migrate the code. Script lists the statements that are
--              written in the code in full, Reading reads the others back.
-- Programs     core/src/main.rs up to what it serves, core/src/bin/migrate.rs, which runs Database,
--              and core/src/bin/bc.rs, which runs Reconcile.
-- Reconcile    core/src/reconcile.rs: Plan is what it does before its first command, Apply the
--              commands and the readiness check, with the trace of them. Deployment takes the
--              names of the roles from Database, and Handover is about the environment that it
--              gives to the program `migrate`, with Urls for what it relies on of the crates url and
--              percent-encoding.
--
-- The recursion of `visit` takes fuel, one more than the number of enabled modules: each nested
-- call enters a module that is not on the current path. The loop of `verify_ready` takes fuel 91:
-- a round lasts a second or more, and the deadline is 90 seconds away. The code has no other
-- unbounded recursion.
-- A SQL statement of the dispatcher is one atomic step, as is the transaction of `create_record`;
-- `clock_timestamp()` is read once by a statement's conditions and once by its assignments. A
-- statement may be answered, fail before it has an effect, or lose its answer.
-- The server of `migrate_installation` is any function of what it was sent so far; the run of a
-- migrator is one request.
-- The crates semver, serde_yaml, serde_json, sha2, url and percent_encoding, the embedded
-- migrations, and the file system, Docker and the network of `reconcile` are parameters.
-- Not modelled: what a connection pool does between its making and its closing; axum's
-- routing and serving; the generated messages of modules/example-transport; the tests.
pub mod Prelude
pub mod Manifest
pub mod Dispatcher
pub mod Example
pub mod Composition
pub mod Http
pub mod Database
pub mod Programs
pub mod Reconcile
