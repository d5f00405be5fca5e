-- ===== src/Domain.antt =====
-- The domain model of svc-ingestion/internal/domain/model: errors, identities, and one child
-- module per entity.
use edifact_parser.Base.{ℕ}
pub mod Interchange
pub mod Entities
pub mod Event
pub mod Filters
pub mod Valid

-- The sentinel errors of errors.go that the constructors return.
pub data DomainError : Type 0 where
  empty_content_hash empty_identifier empty_message_reference empty_message_type : DomainError
  empty_parser_version empty_raw_content empty_reason empty_receiver : DomainError
  empty_reference empty_sender event_type_empty invalid_version_number : DomainError

-- A uuid.UUID, read as the number its sixteen bytes spell; 0 is uuid.Nil.
abbrev pub Uuid : Type 0
Uuid = ℕ

-- What one call of a constructor draws from outside: uuid.NewV7() and time.Now().UTC().
pub record Stamp : Type 0 where
  pub id : Uuid
  pub now : ℕ

-- A Go pair (value, error) of which exactly one is set.
pub data Result {ℓ κ} (E : Type ℓ) (A : Type κ) : Type (ℓ ⊔ κ) where
  ok : A → Result E A
  err : E → Result E A
