-- ===== src/Streams.antt =====
-- The consumers of messages of internal/compliance/domain/compliance: ledger_consumer.go and
-- pubsub_consumer.go.
mod Evidence
mod Jury
mod Tests
