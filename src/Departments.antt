-- ===== src/Departments.antt =====
-- Routing the cases of departments: department_overflow.go and department_routing.go of
-- internal/compliance/handlers/compliance.
mod Store
pub mod Settings
mod Overflow
mod Deletion
mod Routing
mod Choice
mod Located
mod Migration
mod Guard
pub mod Toy
mod Tests
