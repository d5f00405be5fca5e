-- ===== src/Parser.antt =====
-- adapters/inbound/edifact/parser.go: from the token stream to an interchange.
pub mod State
pub mod Segments
pub mod Headers
pub mod Messages
pub mod Interchange
pub mod Termination
pub mod Divergence
pub mod Acceptance
