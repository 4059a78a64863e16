-- ===== src/Cases.antt =====
-- internal/compliance/handlers/compliance/case_lifecycle.go: cases for human review.
pub mod Ids
pub mod Store
pub mod Rows
pub mod Lifecycle
mod Toy
mod Tests
