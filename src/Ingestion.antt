-- ===== src/Ingestion.antt =====
-- The ingestion service: svc-ingestion/internal/adapters/services and the ports it uses.
pub mod Action
pub mod Ports
pub mod Results
pub mod Service
pub mod Reads
pub mod Yields
pub mod Persist
pub mod Chain
pub mod Publishing
pub mod Kept
pub mod Partial
pub mod Outcomes
pub mod Sizes
pub mod Accepted
pub mod Again
pub mod Halfway
pub mod Covered
