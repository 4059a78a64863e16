-- ===== src/Zkp.antt =====
-- internal/compliance/handlers/zkp: challenges and proofs.
pub mod Checks
pub mod Verifier
pub mod Schnorr
