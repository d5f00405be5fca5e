-- ===== src/Usecases/Handlers.antt =====
-- usecases/commands/ingest_file.go and the query handlers get_interchange.go, get_raw_file.go and
-- list_messages.go.
use edifact_parser.Base.{ℕ, Bool, true, false, Option, none, some, List, [], ◌==◌, if◌then◌else◌}
use edifact_parser.Domain.{Uuid, Result, ok, err}
use edifact_parser.Domain.Interchange.{InterchangeStatus}
use edifact_parser.Domain.Event.{DomainEvent}
use edifact_parser.Ingestion.Ports
use edifact_parser.Ingestion.Service.{Reply, is_duplicate}

pub data QueryError : Type 0 where
  nil_interchange_id : QueryError

pub record GetInterchangeQuery : Type 0 where
  pub interchange_id : Uuid

unfoldable pub new_get_interchange_query : Uuid → Result QueryError GetInterchangeQuery
new_get_interchange_query interchange_id =
    if interchange_id == 0
    then err nil_interchange_id
    else ok (record { interchange_id = interchange_id })

pub record GetRawFileQuery : Type 0 where
  pub interchange_id : Uuid

unfoldable pub new_get_raw_file_query : Uuid → Result QueryError GetRawFileQuery
new_get_raw_file_query interchange_id =
    if interchange_id == 0
    then err nil_interchange_id
    else ok (record { interchange_id = interchange_id })

-- A Go pair of a struct and an error; the struct has its zero value beside an error.
unfoldable pub handle_get_interchange :
    Result Ports.ServiceError Ports.InterchangeDetail
    → Result Ports.ServiceError Ports.InterchangeDetail
handle_get_interchange (err e) = err e
handle_get_interchange (ok detail) = ok (record {
  id = detail.id;
  sender_id = detail.sender_id;
  receiver_id = detail.receiver_id;
  reference = detail.reference;
  prepared_at = detail.prepared_at;
  status = detail.status;
  content_hash = detail.content_hash;
  active_version = detail.active_version;
  message_count = detail.message_count;
})

-- `GetRawFileHandler.Handle` and `ListMessagesHandler.Handle`, whose results have the fields of the
-- service's.
unfoldable pub handle_get_raw_file :
    Result Ports.ServiceError Ports.RawFile → Result Ports.ServiceError Ports.RawFile
handle_get_raw_file (err e) = err e
handle_get_raw_file (ok raw_file) =
    ok (record { content = raw_file.content; content_hash = raw_file.content_hash })

unfoldable pub handle_list_messages :
    Result Ports.ServiceError Ports.MessageList → Result Ports.ServiceError Ports.MessageList
handle_list_messages (err e) = err e
handle_list_messages (ok list) =
    ok (record { messages = list.messages; next_cursor = list.next_cursor })

-- `IngestFileResult` has the fields of `IngestResult`.
pub record IngestFileResult : Type 0 where
  pub interchange_id : Uuid
  pub status : InterchangeStatus
  pub message_count : ℕ
  pub subscription_count : ℕ
  pub events : List (Option DomainEvent)

-- `errors.Is(err, model.ErrDuplicateInterchange)` through the wrappings of the service.
abbrev pub is_duplicate_error : Ports.ServiceError → Bool
is_duplicate_error Ports.duplicate = true
is_duplicate_error (Ports.starting_transaction e) = is_duplicate e
is_duplicate_error (Ports.committing_transaction e) = is_duplicate e
is_duplicate_error (Ports.storing_interchange e) = is_duplicate e
is_duplicate_error (Ports.storing_processing_version e) = is_duplicate e
is_duplicate_error (Ports.recovering_duplicate e) = is_duplicate e
is_duplicate_error (Ports.creating_messages e) = is_duplicate e
is_duplicate_error (Ports.upserting_subscription _ e) = is_duplicate e
is_duplicate_error (Ports.fetching_interchange e) = is_duplicate e
is_duplicate_error (Ports.fetching_raw_file e) = is_duplicate e
is_duplicate_error (Ports.listing_messages e) = is_duplicate e
is_duplicate_error _ = false

abbrev pub file_result : Ports.IngestResult → IngestFileResult
file_result r = record {
  interchange_id = r.interchange_id;
  status = r.status;
  message_count = r.message_count;
  subscription_count = r.subscription_count;
  events = r.events;
}

abbrev pub bare_result : Ports.IngestResult → IngestFileResult
bare_result r = record {
  interchange_id = r.interchange_id;
  status = r.status;
  message_count = 0;
  subscription_count = 0;
  events = [];
}

-- What the handler returns: Go's result, none for nil, and its error, none for nil. The service
-- never returns nil twice; the handler would then stop on the nil pointer.
pub record FileReply : Type 0 where
  pub result : Option IngestFileResult
  pub error : Option Ports.ServiceError

abbrev pub with_error : Ports.ServiceError → Option Ports.IngestResult → FileReply
with_error e none = record { result = none; error = some e }
with_error e (some r) =
    if is_duplicate_error e
    then record { result = some (bare_result r); error = some e }
    else record { result = none; error = some e }

abbrev pub without_error : Option Ports.IngestResult → Option FileReply
without_error none = none
without_error (some r) = some (record { result = some (file_result r); error = none })

-- `IngestFileHandler.Handle` on what the service answered; none is a panic.
unfoldable pub handle_ingest_file : Reply → Option FileReply
handle_ingest_file reply = elim reply.error [
  | some e ↦ some (with_error e reply.result)
  | none ↦ without_error reply.result
]
