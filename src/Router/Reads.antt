-- ===== src/Router/Reads.antt =====
-- adapters/inbound/http/router.go: the reads of interchanges, raw files and messages, and the two
-- operations that are not there yet.
use edifact_parser.Base.{
  ℕ, Option, none, some, List, [], map, Bytes, codes, length, if◌then◌else◌, ◌++◌,
}
use edifact_parser.Parser.State.{ℤ, pos}
use edifact_parser.Domain.{Uuid, Result, ok, err}
use edifact_parser.Domain.Interchange.{InterchangeStatus, completed, failed}
use edifact_parser.Domain.Entities.{Message, below_one}
use edifact_parser.Domain.Filters.{MessageFilter, default_page_limit}
use edifact_parser.Ingestion.Ports
use edifact_parser.Ingestion.Reads.{get_interchange, get_raw_file, list_messages}
use edifact_parser.Usecases.Handlers.{
  handle_get_interchange, handle_get_raw_file, handle_list_messages,
}
use edifact_parser.Repos.Database.{Codec, Segments}
use edifact_parser.Router.Text.{contains}

-- `public.Error`
pub data ErrorCode : Type 0 where
  not_found internal_error bad_request : ErrorCode

pub record Error : Type 0 where
  pub code : ErrorCode
  pub message : Bytes

-- `mapInterchangeDetailStatus`
abbrev pub map_detail_status : InterchangeStatus → InterchangeStatus
map_detail_status completed = completed
map_detail_status failed = failed

-- `public.InterchangeDetail`; its version is a struct, and its summary a pointer.
pub record DetailBody : Type 0 where
  pub id : Uuid
  pub sender_id : Bytes
  pub receiver_id : Bytes
  pub reference : Bytes
  pub prepared_at : ℕ
  pub created_at : ℕ
  pub status : InterchangeStatus
  pub active_version : Ports.ProcessingVersionSummary
  pub message_total : Option ℤ

pub data GetInterchangeResponse : Type 0 where
  interchange200 : DetailBody → GetInterchangeResponse
  interchange404 interchange500 : Error → GetInterchangeResponse

pub data GetRawFileResponse : Type 0 where
  raw_file200 : Bytes → ℕ → GetRawFileResponse
  raw_file404 raw_file500 : Error → GetRawFileResponse

-- `public.Message`; a map of segments that is nil counts as empty.
pub record MessageBody : Type 0 where
  pub id : Uuid
  pub interchange_id : Uuid
  pub processing_version_id : Uuid
  pub message_type : Bytes
  pub message_reference : Bytes
  pub created_at : ℕ
  pub subscription_id : Option Uuid
  pub segments : Segments

-- `public.MessageList`
pub record ListBody : Type 0 where
  pub items : List MessageBody
  pub total : ℕ
  pub next_cursor : Option Bytes

pub data ListMessagesResponse : Type 0 where
  messages200 : ListBody → ListMessagesResponse
  messages500 : Error → ListMessagesResponse

-- `public.ListMessagesParams`
pub record ListMessagesParams : Type 0 where
  pub subscription_id : Option Uuid
  pub message_type : Option Bytes
  pub interchange_id : Option Uuid
  pub processing_version_id : Option Uuid
  pub limit : Option ℤ
  pub cursor : Option Bytes

-- The zero value of the version in the body.
abbrev pub version_or_zero : Option Ports.ProcessingVersionSummary → Ports.ProcessingVersionSummary
version_or_zero (some v) = v
version_or_zero none = record {
  id = 0;
  version_number = pos 0;
  parser_version = [];
  format_version = [];
  created_at = 0;
}

-- `result.MessageCount > 0`
abbrev pub positive_total : ℤ → Option ℤ
positive_total n = if below_one n then none else some n

abbrev pub detail_body : Ports.InterchangeDetail → DetailBody
detail_body d = record {
  id = d.id;
  sender_id = d.sender_id;
  receiver_id = d.receiver_id;
  reference = d.reference;
  prepared_at = d.prepared_at;
  created_at = d.prepared_at;
  status = map_detail_status d.status;
  active_version = version_or_zero d.active_version;
  message_total = positive_total d.message_count;
}

abbrev pub message_body : Message → MessageBody
message_body m = record {
  id = m.id;
  interchange_id = m.interchange_id;
  processing_version_id = m.processing_version_id;
  message_type = m.message_type;
  message_reference = m.message_reference;
  created_at = m.created_at;
  subscription_id = m.subscription_id;
  segments = m.segments;
}

abbrev pub list_body : Ports.MessageList → ListBody
list_body l = record {
  items = map message_body l.messages;
  total = length (map message_body l.messages);
  next_cursor = l.next_cursor;
}

-- The limit of the request where it is positive, the default one otherwise.
abbrev pub limit_of : Option ℤ → ℤ
limit_of none = default_page_limit
limit_of (some n) = if below_one n then default_page_limit else n

abbrev pub filter_of : ListMessagesParams → MessageFilter
filter_of p = record {
  subscription_id = p.subscription_id;
  message_type = p.message_type;
  interchange_id = p.interchange_id;
  processing_version_id = p.processing_version_id;
  limit = limit_of p.limit;
  cursor = p.cursor;
}

abbrev pub invalid_id : Error
invalid_id = record { code = not_found; message = codes "Invalid interchange ID format" }

-- `message` is what an error's `Error` method prints.
module _ {S : Type 0} (ports : Ports.Ports S) (codec : Codec)
    (message : Ports.ServiceError → Bytes) where
  abbrev pub no_interchange : Uuid → Error
  no_interchange id = record {
    code = not_found;
    message = codes "Interchange not found: " ++ codec.uuid_string id;
  }

  abbrev pub internal : Ports.ServiceError → Error
  internal e = record { code = internal_error; message = message e }

  unfoldable pub interchange_answer :
      Uuid → Result Ports.ServiceError Ports.InterchangeDetail → GetInterchangeResponse
  unfolding contains
  interchange_answer id (ok detail) = interchange200 (detail_body detail)
  interchange_answer id (err e) =
      if contains (message e) (codes "not found")
      then interchange404 (no_interchange id)
      else interchange500 (internal e)

  -- `GetInterchange`
  unfoldable pub get_interchange_response : Uuid → S → GetInterchangeResponse × S
  unfolding interchange_answer get_interchange handle_get_interchange
  get_interchange_response request_id s = elim (codec.uuid_parse (codec.uuid_string request_id)) [
    | none ↦ (interchange404 invalid_id, s)
    | some id ↦
        let (r, t) = get_interchange ports id s in
        (interchange_answer id (handle_get_interchange r), t)
  ]

  unfoldable pub raw_file_answer :
      Uuid → Result Ports.ServiceError Ports.RawFile → GetRawFileResponse
  unfolding contains
  raw_file_answer id (ok file) = raw_file200 file.content (length file.content)
  raw_file_answer id (err e) =
      if contains (message e) (codes "not found")
      then raw_file404 (no_interchange id)
      else raw_file500 (internal e)

  -- `GetRawFile`
  unfoldable pub get_raw_file_response : Uuid → S → GetRawFileResponse × S
  unfolding raw_file_answer get_raw_file handle_get_raw_file
  get_raw_file_response request_id s = elim (codec.uuid_parse (codec.uuid_string request_id)) [
    | none ↦ (raw_file404 invalid_id, s)
    | some id ↦
        let (r, t) = get_raw_file ports id s in (raw_file_answer id (handle_get_raw_file r), t)
  ]

  unfoldable pub messages_answer :
      Result Ports.ServiceError Ports.MessageList → ListMessagesResponse
  messages_answer (ok l) = messages200 (list_body l)
  messages_answer (err e) = messages500 (internal e)

  -- `ListMessages`
  unfoldable pub list_messages_response : ListMessagesParams → S → ListMessagesResponse × S
  unfolding messages_answer list_messages handle_list_messages
  list_messages_response params s =
      let (r, t) = list_messages ports (some (filter_of params)) s in
      (messages_answer (handle_list_messages r), t)

-- `ReprocessInterchanges` and `RollbackVersion`, whatever the request.
unfoldable pub reprocess_interchanges : Error
reprocess_interchanges = record { code = bad_request; message = codes "Not implemented - Phase 4" }

unfoldable pub rollback_version : Error
rollback_version = record { code = internal_error; message = codes "Not implemented - Phase 4" }
