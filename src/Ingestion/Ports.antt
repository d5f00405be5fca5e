-- ===== src/Ingestion/Ports.antt =====
-- The interfaces of svc-ingestion/internal/ports as one record over the state S behind them.
use edifact_parser.Base.{ℕ, Option, List, Bytes}
use edifact_parser.Parser.State.{ℤ, ParseResult}
use edifact_parser.Domain.{DomainError, Uuid, Stamp, Result}
use edifact_parser.Domain.Interchange.{Interchange, InterchangeStatus}
use edifact_parser.Domain.Entities.{Message, ProcessingVersion, Subscription}
use edifact_parser.Domain.Event.{DomainEvent}
use edifact_parser.Domain.Filters.{MessageFilter}
use edifact_parser.Ingestion.Action.{Action}

-- The errors of the repositories, the transaction manager and the publisher.
pub data RepoError : Type 0 where
  duplicate_interchange interchange_not_found : RepoError
  processing_version_not_found version_conflict : RepoError
  subscription_not_found : RepoError
  parsing_cursor marshalling_segments unmarshalling_segments : RepoError
  invalid_filter invalid_subscription : DomainError → RepoError
  other : Bytes → RepoError

pub record Ports (S : Type 0) : Type 0 where
  -- `ports.FileParser`; none is a call that does not return.
  pub parse : Bytes → Option (Result Bytes ParseResult)
  -- `ports.InterchangeRepository`; none is a nil pointer.
  pub create_interchange : Interchange → Action S RepoError Unit
  pub find_by_content_hash : Bytes → Action S RepoError (Option Interchange)
  pub find_by_id : Uuid → Action S RepoError Interchange
  -- `ports.ProcessingVersionRepository`
  pub create_version : ProcessingVersion → Action S RepoError Unit
  pub find_active : Uuid → Action S RepoError ProcessingVersion
  -- `ports.MessageRepository`
  pub bulk_create : List Message → Action S RepoError Unit
  pub list_by_filter : MessageFilter → Action S RepoError (List Message × Option Bytes)
  pub count : Uuid → Action S RepoError ℤ
  -- `ports.SubscriptionRepository`
  pub upsert_by_identifier : Bytes → Action S RepoError Subscription
  -- `ports.TransactionManager` and `ports.Transaction`
  pub begin : Action S RepoError Unit
  pub commit : Action S RepoError Unit
  pub rollback : Action S RepoError Unit
  -- `ports.EventPublisher`
  pub publish : List (Option DomainEvent) → Action S RepoError Unit
  -- uuid.NewV7() and time.Now(), SHA-256 in hex digits.
  pub new_stamp : S → Stamp × S
  pub sha256_hex : Bytes → Bytes

-- `ports.IngestResult`
-- Events are pointers, none is a nil one.
pub record IngestResult : Type 0 where
  pub interchange_id : Uuid
  pub status : InterchangeStatus
  pub message_count : ℕ
  pub subscription_count : ℕ
  pub events : List (Option DomainEvent)

-- `ports.ProcessingVersionSummary`
pub record ProcessingVersionSummary : Type 0 where
  pub id : Uuid
  pub version_number : ℤ
  pub parser_version : Bytes
  pub format_version : Bytes
  pub created_at : ℕ

-- `ports.InterchangeDetail`
pub record InterchangeDetail : Type 0 where
  pub id : Uuid
  pub sender_id : Bytes
  pub receiver_id : Bytes
  pub reference : Bytes
  pub prepared_at : ℕ
  pub status : InterchangeStatus
  pub content_hash : Bytes
  pub active_version : Option ProcessingVersionSummary
  pub message_count : ℤ

-- `ports.RawFile`
pub record RawFile : Type 0 where
  pub content : Bytes
  pub content_hash : Bytes

-- `ports.MessageList`
pub record MessageList : Type 0 where
  pub messages : List Message
  pub next_cursor : Option Bytes

-- The errors that the service returns, each a wrapping of what caused it.
pub data ServiceError : Type 0 where
  file_empty file_too_large : ServiceError
  starting_transaction committing_transaction : RepoError → ServiceError
  creating_interchange creating_processing_version : DomainError → ServiceError
  storing_interchange storing_processing_version : RepoError → ServiceError
  recovering_duplicate creating_messages : RepoError → ServiceError
  upserting_subscription : Bytes → RepoError → ServiceError
  building_message : Bytes → DomainError → ServiceError
  duplicate : ServiceError
  fetching_interchange fetching_raw_file listing_messages : RepoError → ServiceError
  empty_raw_file : ServiceError
  validating_filter : DomainError → ServiceError
  -- A nil pointer that is followed: Go panics, and nothing is returned.
  nil_pointer : ServiceError
