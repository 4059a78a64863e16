-- ===== src/Reviews.antt =====
-- The handlers of internal/compliance/handlers/compliance that change a case of core_hitl which
-- somebody reviews: case_reassignment.go, escalation.go and hitl_bulk_resolve.go.
pub mod Store
pub mod Reassign
pub mod Escalate
pub mod Bulk
pub mod Recusal
pub mod Steps
mod Toy
mod Tests
