-- ===== src/Usecases.antt =====
-- The handlers of svc-ingestion/internal/usecases.
pub mod Health
pub mod Handlers
pub mod Application
