-- ===== src/Propagation.antt =====
-- The consumers of the events of other rings: internal/compliance/propagation/ring_consumers.go
-- and ring0_compliance_consumer.go.
mod Store
pub mod Consumers
mod Handlers
mod Once
mod Refinement
mod Failures
mod Ring0
mod Tests
