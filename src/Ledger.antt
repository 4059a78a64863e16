-- ===== src/Ledger.antt =====
-- The root of the ledger: HandleGetLedgerRoot of
-- internal/compliance/handlers/compliance/zkp_batch.go.
mod Root
mod Binding
mod Tests
