-- ===== src/Scorer.antt =====
pub mod Patterns
pub mod Corpus
pub mod Encodings
pub mod Regex
pub mod Similarity
pub mod Score
pub mod Returns
pub mod Bounds
pub mod Detects
pub mod Paraphrases
mod Tests
mod Witnesses
