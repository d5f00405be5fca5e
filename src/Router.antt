-- ===== src/Router.antt =====
-- adapters/inbound/http/router.go: the answer to an upload.
pub mod Upload
pub mod Text
pub mod Reads
pub mod Health
pub mod Middleware
pub mod Served
pub mod Race
pub mod Downloads
pub mod Probes
pub mod Listing
use edifact_parser.Base.{
  ℕ, Bool, true, false, ◌||◌, Option, none, some, List, [], ◌∷◌, Bytes, codes, length, ltb, take,
  bytes_eq, if◌then◌else◌,
}
use edifact_parser.Router.Text.{contains}
use edifact_parser.Domain.{Uuid, Result, ok, err}
use edifact_parser.Domain.Interchange.{InterchangeStatus, completed, failed}
use edifact_parser.Ingestion.Ports
use edifact_parser.Ingestion.Service.{Reply, max_file_size}
use edifact_parser.Usecases.Handlers.{
  FileReply, IngestFileResult, is_duplicate_error, handle_ingest_file,
}

-- The body of the answers 200 and 201; `ByType` is always empty.
pub record Ingest : Type 0 where
  pub interchange_id : Uuid
  pub status : InterchangeStatus
  pub total : ℕ

pub data IngestFileResponse : Type 0 where
  response200 response201 : Ingest → IngestFileResponse
  response413 response422 response500 : IngestFileResponse

-- `mapStatus`
abbrev pub map_status : InterchangeStatus → InterchangeStatus
map_status completed = completed
map_status failed = failed

abbrev pub ingest_body : IngestFileResult → Ingest
ingest_body r = record {
  interchange_id = r.interchange_id;
  status = map_status r.status;
  total = r.message_count;
}

-- `message` is what an error's `Error` method prints.
module _ (message : Ports.ServiceError → Bytes) where
  unfoldable pub error_response : Ports.ServiceError → Option IngestFileResult → IngestFileResponse
  unfolding contains
  error_response e result =
      let plain =
        if contains (message e) (codes "file exceeds") then response413 else response500 in
      if is_duplicate_error e
      then elim result [ some r ↦ response200 (ingest_body r) | none ↦ plain ]
      else plain

  unfoldable pub result_response : IngestFileResult → IngestFileResponse
  result_response r = elim r.status [
    | completed ↦ response201 (ingest_body r)
    | failed ↦ response422
  ]

  -- Go's nil pointer, which the handler never returns without an error, is a panic: none.
  abbrev pub reply_response : FileReply → Option IngestFileResponse
  reply_response reply = elim reply.error [
    | some e ↦ some (error_response e reply.result)
    | none ↦ elim reply.result [ some r ↦ some (result_response r) | none ↦ none ]
  ]

  abbrev pub handled : Option FileReply → Option IngestFileResponse
  handled none = none
  handled (some reply) = reply_response reply

  -- `IngestFile`, from the file that `extractFile` read and what the command answers; none is a panic.
  unfoldable pub ingest_file_response : Option Bytes → Reply → Option IngestFileResponse
  unfolding error_response result_response handle_ingest_file
  ingest_file_response none reply = some response500
  ingest_file_response (some file_data) reply =
      if ltb max_file_size (length file_data)
      then some response413
      else handled (handle_ingest_file reply)
