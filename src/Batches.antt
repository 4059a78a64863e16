-- ===== src/Batches.antt =====
-- The worker on ZKP batch jobs: internal/compliance/handlers/compliance/zkp_batch.go.
mod Worker
mod Ticks
mod Tests
