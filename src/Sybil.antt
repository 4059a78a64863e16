-- ===== src/Sybil.antt =====
-- The scan for agents that share an address:
-- internal/compliance/handlers/security/sybil_resistance_worker.go.
mod Scan
mod Threshold
mod Tests
