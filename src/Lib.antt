-- ===== src/Lib.antt =====
-- Casegraph: the domain model and the application services of an evidence graph, in which every
-- claim about a case rests on provenance, is reviewed by people, and feeds versioned rules.
--
-- Parts of the program, and the modules that model them.
--   Domain (crates/casegraph-domain/src). Error, Id, Temporal, Value and Model model the files of
--     these names; Confidence models the type of that name in model.rs. Model has the records in
--     Evidence and Workflow, and the `validate` methods in Validate. Constructors that Rust calls
--     `T::new` have the name of the type (timestamp, decimal, money, confidence), but `Date::new` is
--     `new`, and `RecordId::parse` is `parse`.
--   Application (crates/casegraph-application/src). Error and Ports model error.rs and ports.rs.
--     Service, Claims and Corrections model the methods of `CasegraphService` in service.rs; Rules,
--     Evaluation, Codec and Query those of `RuleWorkflowService` in rules.rs; Reasoning models the
--     gateway of reasoning.rs, Pipeline the extraction pipeline of pipeline.rs.
--   Infrastructure/Extractors models crates/casegraph-infrastructure/src/extractors.rs: the text,
--     JSON and CSV extractors there, Csv the parser, Normalize the values of fields.
--   Infrastructure/Sqlite models crates/casegraph-infrastructure/src/sqlite_repository.rs on the
--     schema of crates/casegraph-infrastructure/migrations: Rows, Tables, Schema and References the
--     tables and constraints, Codes and Serde the columns, Tx transactions, Statement and Insert the
--     insertions, Load and Reads the queries, Artifacts, Claims, Reviews and Evaluations the
--     operations that write, and Repository the adapter as a whole.
--   Text models the part of Rust's strings that the program uses: a text is the list of its scalar
--     values, and lengths, slices and positions are those of its UTF-8 bytes.
--   Prelude has the shared helpers: native numbers, integers over them, lists and results.
--   Tests has concrete runs, on adapters that keep a log of what they are sent.
--
-- How the parts interact. The services call ports: a clock, a generator of identifiers, an artifact
-- store and a repository. `Ports` is a record of these operations on a world `W` that they share, and
-- a service method is a function `App W A` from a world to a result and a world. What was written
-- before a failure stays written, so the world comes back with an error too. Bundles states what the
-- services owe the repository: the form of each bundle that they hand over. An adapter is described
-- by what it keeps true on such bundles (`Preserves` and the like) and by answering (`Ready`,
-- `Answers`).
--
--   The database of the SQLite repository is the list of its rows in the order of their insertion:
-- the program inserts only, and on the tables of evidence triggers refuse updates and deletions. A
-- table is the rows of one kind, ORDER BY is a sort, and INSERT tests the constraints of the migrations. A transaction `Tx A`
-- gives a result with the grown database, or an error, after which the database is the one of before.
-- `sqlite_ports` puts the repository beside the other adapters, as the ports that the services call.
--
-- The pipeline reads the bytes of an artifact version, hands them to the first of its extractors that
-- supports the format, and records each field as an external claim, one service call after the other.
-- An extractor is a record of its operations, and `core_extractor` is the one of the program.
--
-- Bounds and fuel. `u64`, `u32` and `u8` values are natural numbers and `i64`, `i32` values
-- integers; what can leave its type is tested where the source tests it (`i32::try_from`, parsing,
-- the years of a date, `checked_add` on a `usize` of 64 bits), and the calendar arithmetic on `i64`
-- cannot overflow, since its years have at most 32 bits. Decimal output has fuel for 20 digits,
-- which a 64-bit number never exceeds. All other loops are structural.
--
-- Parameters. serde_json and sha2 are the fields of `Codec`, and for the repository, with
-- `json_valid` of SQLite, those of `Serde`; the strict deserializer of the reasoning output is an
-- argument of `interpret`, and the parser of JSON artifacts one of `core_extractor`. Paths are those
-- of Unix.
--
-- Not modelled. Of crates/casegraph-infrastructure the artifact store, configuration, and the
-- migration runner; failures of the disk and a poisoned lock, for which SQLite calls fail too; which
-- of several violated constraints SQLite names. The HTTP API, the command line and the assurance
-- tool. Of model.rs, the records that no operation uses (Entity, Relationship, Event, Action,
-- Outcome).
pub mod Prelude
pub mod Text
pub mod Domain
pub mod Application
pub mod Infrastructure
pub mod Tests
