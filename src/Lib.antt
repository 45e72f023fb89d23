-- ===== src/Lib.antt =====
-- A model of career-coordination-mcp: a service that coordinates outreach, matches experience atoms
-- against opportunities, validates what it produces against a constitution of rules, and keeps an
-- audit trail that shows tampering.
--
-- The parts and their files:
--
-- Core (include/ccmcp/core, src/core). Core/Normalization has `normalize_ascii_lower`,
-- `tokenize_ascii`, `normalize_tags` and `trim`; Core/Hashing has FNV-1a; Core/Sha256 has SHA-256 on
-- 32-bit words, with the wrap-around written out; Core/Words the operations on words; Core/Result the
-- result type; Core/Double what the code uses of `double`.
--
-- Domain (include/ccmcp/domain, src/domain). Domain/Interaction is the outreach state machine
-- (`can_transition`, `apply`); Domain/Atom and Domain/Opportunity are the records with their
-- `validate` and `normalize` functions; Domain/MatchReport and Domain/TokenIr are data only.
--
-- Matching (src/matching/matcher.cpp). Matching/Tokens has the helpers, Matching/Candidates the choice
-- of candidates under both strategies, Matching/Evaluate the report; a report is validated by
-- Constitution. The embedding provider and the vector index are records of their operations, about
-- which nothing is assumed.
--
-- Interaction (src/interaction/inmemory_interaction_coordinator.cpp). Interaction/Coordinator keeps
-- the two maps of the class, interactions and idempotency receipts, and passes them explicitly through
-- `apply_transition`, `get_state` and `create_interaction`. Every method holds the mutex throughout, so
-- any calls of any threads are one sequence, the list of `Call`s that `run` takes.
--
-- Interaction/Redis (src/interaction/redis_interaction_coordinator.cpp) is the same interface on Redis. A
-- call is several commands; Redis is a record of the commands with their laws, and `between n`, any
-- function on the store, is what other clients do after command number n of a call. The Lua script is
-- one command. Interaction/Redis/Mirror compares it with Interaction/Coordinator,
-- Interaction/Redis/Races and Interaction/Redis/Receipts are about several clients.
--
-- Storage (src/storage/audit_log.cpp, src/storage/audit_chain.cpp). Storage/Audit is the audit log with
-- its chain of hashes per trace, which uses Core/Sha256. Storage/Decisions is the decision store of
-- src/storage/decision_store.cpp, Storage/Repositories the in-memory repositories of atoms and
-- opportunities.
--
-- Constitution (src/constitution). Constitution/Artifact has the data, Constitution/Engine the
-- validation engine with any rules, Constitution/Rules the three rules on match reports and the
-- default constitution, Constitution/TokenRules the five rules on token IR. The engine uses both
-- hashes of Core for overrides.
--
-- Tokenization (src/tokenization). Tokenization/Lexical is the deterministic tokenizer and
-- Tokenization/Inference the stub of the inference tokenizer, with its known words in
-- Tokenization/Known; they make the token IR that Constitution/TokenRules checks.
--
-- Ingest (include/ccmcp/ingest, src/ingest). Ingest/Hygiene is the normalization of text, line by line;
-- Ingest/Pdf the text of PDF files; Ingest/Ingestor the ingestor with its format adapters, over a file
-- system that is a parameter; Ingest/ResumeStore the store of
-- src/storage/sqlite/sqlite_resume_store.cpp; Ingest/Resume has the records.
--
-- Indexing (include/ccmcp/indexing, src/indexing). Indexing/Run has the records; Indexing/RunStore is the
-- store of src/storage/sqlite/sqlite_index_run_store.cpp; Indexing/Build is `run_index_build`, whose three
-- loops are one function on what they read of the records. The vector index and the embedding provider
-- are parameters.
--
-- App (include/ccmcp/app/app_service.h, src/app/app_service.cpp). App/Match is `run_match_pipeline`,
-- which resolves its inputs from the repositories, runs the matcher and then App/Validation,
-- `run_validation_pipeline` on the default constitution; App/Transition is
-- `run_interaction_transition` over the in-memory coordinator; App/Services has the audit log and the
-- two generators of identifiers and times, which may be any functions on a state of their own. An
-- exception is an `err` with the services as they were when it was thrown. App/Decisions makes, records
-- and finds decision records, App/Ingest is `run_ingest_resume_pipeline` and App/IndexBuild
-- `run_index_build_pipeline`. The decimal form of a `double` and the default score weights are
-- parameters.
--
-- Prelude has what the parts share: texts as lists of bytes with the order of `std::string`,
-- `std::map` as an association list in the order of its keys, `std::set` as a strictly ascending
-- list, `std::sort` as a sort that is proved to give a sorted permutation. Examples has the
-- definitions and theorems at concrete values.
--
-- Conventions. A text is the list of its bytes, and a position in a text is what is left of it. Loops are
-- structural recursion on the list that the code walks, or on a number for the rounds of SHA-256. Only
-- the two loops over a PDF file use fuel, one more than the bytes that they walk, which
-- Ingest/Pdf/Loops shows to be enough. `transition_index` is an `int64_t` in the code and a natural
-- number here, as are the other counts; Interaction/Coordinator/Reachable bounds it. Scores
-- are `double` in the code; their arithmetic is a parameter with the few laws that the theorems
-- need. `std::sort` leaves the order of equivalent elements open; the model takes a stable order.
-- Lengths are not wrapped, but for the one difference of positions in Ingest/Pdf that can be negative:
-- a hashed text has fewer than 2 ^ 61 bytes.
--
-- A SQL statement is a function on its tables, which are lists of rows. Of the errors of SQLite only
-- broken constraints are modelled; texts have no zero byte, at which the code would cut what it binds;
-- where SQLite may return any of several rows, the model takes the first.
--
-- The JSON library is not part of the repository: `dump`, its serialization of the hashed fields, is a
-- parameter of Storage/Audit about which nothing is assumed but that it returns: the library throws on a
-- text that is not valid UTF-8, and no such text is modelled. The JSON texts of Indexing/Build are
-- parameters too, as are the bytes of a vector in memory.
--
-- Not modelled: the other stores on SQLite, the schema and the database handle, failing connections to
-- Redis, the reading of DOCX files, which the zip and XML libraries do, standard input and output, the
-- JSON forms of records, the command line and the MCP server, which are input and output; the vector
-- indexes, the interaction repository and the URI of Redis.
pub mod Prelude
pub mod Core
pub mod Domain
pub mod Matching
pub mod Tokenization
pub mod Interaction
pub mod Storage
pub mod Constitution
pub mod Ingest
pub mod Indexing
pub mod App
pub mod Examples
