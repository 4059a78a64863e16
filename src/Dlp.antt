-- ===== src/Dlp.antt =====
-- The data protection of internal/compliance/handlers/security: data_protection.go, dlp_types.go and
-- dlp.go.
mod Patterns
mod Scan
mod Redaction
mod Classes
mod Risk
mod Hashes
mod Coverage
mod Tests
