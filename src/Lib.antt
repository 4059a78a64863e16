-- ===== src/Lib.antt =====
-- A verification library for the compliance service, on what of it decides by itself: the
-- rule-based scorer of model outputs, the proofs of the zero-knowledge endpoints, the life of a
-- case, the routing and the overflow of departments, the consumers of messages, the scan of
-- payloads, the scan for Sybil agents, the root of the ledger, the worker on batch jobs, the
-- review of cases, the disputes, the monitored processes, and the enforcement actions.
--
-- The scorer. internal/compliance/domain/compliance/ent_local_scorer.go answers where the
-- hallucination service cannot be reached. Scorer/Patterns and Scorer/Corpus hold its lists,
-- Scorer/Encodings its decoders (rot13Decode, hexDecodePayload, hexVal, extractBase64Tokens),
-- Scorer/Regex the expressions of injectionRegexPatterns and their matching, Scorer/Similarity
-- semanticSimilarityScore and the vectors, and Scorer/Score the stages of
-- localHallucinationScore in their order. A score is counted in hundredths, and a cosine is
-- compared by its square, so that the rounding of float64 is not modelled. `none` is a panic.
-- The other files of Scorer hold proofs.
--
-- The challenge verifier. internal/compliance/handlers/zkp/verifier.go issues a challenge
-- (GenerateChallenge) and checks a proof for it once (VerifyProof). Zkp/Checks has what a proof
-- is checked for, and Zkp/Verifier the two methods as functions from a state to a state: the map
-- in memory and a Redis that may fail. The mutex makes each call one step. The clock and the
-- random bytes are arguments. Redis, Ed25519, SHA-256, JSON and float64 are parameters of the
-- model. NewZKPVerifier and the write of persistVerification are left out.
--
-- The Schnorr proofs. internal/compliance/handlers/zkp/generate.go makes and checks a Schnorr
-- proof over P-256. Zkp/Schnorr has GenerateSchnorrProof and VerifySchnorrProof over a curve
-- that is a parameter; that it is a cyclic group of the order that the code reduces by is a
-- named hypothesis, Zkp/Schnorr/Laws.IsCyclic, which Zkp/Schnorr/Tests shows of a small group.
-- The HTTP handler is left out.
--
-- Cases. internal/compliance/handlers/compliance/case_lifecycle.go opens a case for review
-- (CreateCase), moves it from status to status (TransitionCase) and leaves two events for each
-- move (writeLifecycleEvent). Cases/Ids has generatePlatformID, Cases/Store the rows and the two
-- services that keep them, the database and the core service, as one interface whose laws are
-- the record Observed; Cases/Rows computes what is written, and Cases/Lifecycle has the
-- operations. A write that fails is a value. The time formats, the hours by priority, JSON,
-- SHA-256 and float64 are parameters.
--
-- Departments. internal/compliance/handlers/compliance/department_overflow.go moves the cases of
-- a department that is over its capacity to another one (HandleRouteDeptOverflow) and empties a
-- department before it is deleted (HandleGuardDeptDeletion). Departments/Store has the database
-- and the core service, Departments/Settings what is read off requests and settings,
-- Departments/Overflow and Departments/Deletion the handlers, a function for each stage between
-- two early returns. The record Departments/Store.Located has the laws of a service through
-- which nobody else writes. A goroutine is recorded as the row that it posts. The int of a
-- Duration wraps at 64 bits. Departments/Routing has HandleRouteDepartment of
-- department_routing.go, which chooses among the departments that a classifier, a parameter,
-- names.
--
-- Ring consumers. internal/compliance/propagation/ring_consumers.go handles the messages of
-- other services: a tenant is provisioned or deleted, or an agent is registered.
-- Propagation/Consumers has the three handlers, the log that stops a message that was handled
-- before (isProcessed, markProcessed) and the callback that acknowledges a message;
-- Propagation/Refinement has sequences of deliveries. The clock is an argument, and the broker
-- is left out.
--
-- Data protection. internal/compliance/handlers/security/data_protection.go scans a payload for
-- personal data, code and secrets (scanPayload) with the expressions of dlp_types.go.
-- Dlp/Patterns has the expressions, as texts; Dlp/Scan the loops over their matches,
-- classifyDetections, calculateRisk and redactContext. A payload is its bytes. Where an
-- expression matches is a parameter, as is SHA-256; a risk is counted in parts of 10000, so that
-- the rounding of float64 is not modelled.
--
-- The Sybil scan. internal/compliance/handlers/security/sybil_resistance_worker.go looks once a
-- day for agents that share an address (runSybilScan); Sybil/Scan has it as the list of the
-- agents that it flags. Go walks a map in any order, the model in the order of the first rows. A
-- risk is in hundredths.
--
-- The ledger root. internal/compliance/handlers/compliance/zkp_batch.go folds the hashes of the
-- evidence records into one (HandleGetLedgerRoot); Ledger/Root has the fold, with SHA-256 as a
-- parameter, of which Ledger/Binding.IsDigest says only that its values are bytes and of one
-- length. Batches/Worker has the worker on batch jobs of the same file
-- (processPendingBatchJobs), with the state machine of the shared library, JSON, the clock and
-- the cancellation of the context as parameters; Batches/Ticks runs it again and again, the
-- number of the ticks being the fuel.
--
-- Reviews. Three files of internal/compliance/handlers/compliance change a case that somebody
-- reviews: case_reassignment.go (HandleReassignCase), escalation.go (HandleEscalateCase,
-- HandleRejectJuror, HandleGetRecusalLog) and hitl_bulk_resolve.go (HandleResolveBulkHITL).
-- Reviews/Store has the columns that they read and write and the database as a parameter, whose
-- laws are the record Observed: a transaction commits or changes nothing. Reviews/Reassign,
-- Reviews/Escalate, Reviews/Recusal and Reviews/Bulk have the handlers; the first takes what
-- other requests write between its check and its update as an argument. Reviews/Steps has the
-- requests as the steps of a relation.
--
-- Disputes. disputes.go of the same folder opens, lists, resolves and withdraws the disputes of
-- a tenant; Disputes has its five handlers, and Disputes/Steps its requests as the steps of a
-- relation.
--
-- The outbox. internal/compliance/propagation/ring0_compliance_consumer.go hands the events of
-- an outbox to the handlers of the ring consumers (dispatch), with fields of the event put into
-- its payload (mergeEventFields): Propagation/Ring0.
--
-- Streams. Two consumers of internal/compliance/domain/compliance take messages off the broker:
-- ledger_consumer.go writes evidence records, and Streams/Evidence has its handleMessage and the
-- statement of insertEvidence on the rows of the table; pubsub_consumer.go forwards escalations
-- to the jury through a circuit breaker, a parameter, and Streams/Jury has its handleMessage.
--
-- Monitored processes. The DLP store of internal/compliance/handlers/security keeps the
-- processes that are monitored in a map (HandleDLPMonitorPID, HandleDLPStatus of dlp.go) and
-- loads it when the service starts (LoadFromDB of data_protection.go). Monitors has these and
-- HandleDLPWebhook, with the map as an association list.
--
-- Enforcement actions. score.go of internal/compliance/handlers/compliance has a helper for each
-- operation on the actions of a type; Actions has those that list, read and create, and
-- Actions/Updates those that change an action, with the database, whose laws are the record
-- Actions/Laws.Observed, as a parameter.
--
-- Evidence records. evidence.go of internal/compliance/handlers/evidence creates, reads, lists
-- and marks records of evidence; Vaults has the four handlers, with the database, SHA-256 and
-- the JSON of a record as parameters, and Vaults/Laws what comes of a record that is created and
-- then read. The attestations, the chain and the statistics of that file are not modelled.
--
-- Everywhere else a call reads and writes as one step: a second writer between the read and the
-- update of a case is not modelled.
--
-- Common has the shared types, tests and lemmas. Text holds what these parts use of Go's library
-- where the source fixes its behaviour: a text is the list of its runes, bytes are numbers below
-- 256; Text/Utf8, Text/Hex and Text/BigInt are unicode/utf8, encoding/hex and math/big. NFKC and
-- the case tables beyond ASCII are parameters. The recursion is structural throughout; beside
-- the ticks of the worker, the only fuel is that of Text/BigInt.big_bytes, which takes off a
-- byte a round, so that as many rounds as the number are enough.
--
-- Not modelled: the other HTTP handlers, the gRPC server and the repository, which read and
-- write tables, and the calls of services outside the repository.
mod Common
pub mod Text
pub mod Scorer
pub mod Zkp
pub mod Cases
pub mod Departments
pub mod Propagation
pub mod Dlp
pub mod Sybil
pub mod Ledger
pub mod Batches
pub mod Reviews
pub mod Streams
pub mod Disputes
pub mod Monitors
pub mod Actions
pub mod Vaults
