-- ===== src/Tests/Stored.antt =====
-- The properties of the repositories, and of the answers that read them, at concrete inputs.
use edifact_parser.Base.{
  true, false, Option, none, some, [], Bytes, codes, bytes_eq, ◌≡◌, refl, ==_refl,
}
use edifact_parser.Domain.{ok, err}
use edifact_parser.Domain.Interchange.{
  Interchange, completed, new_interchange, validate_content_hash,
}
use edifact_parser.Ingestion.Ports
use edifact_parser.Ingestion.Again.{known}
use edifact_parser.Ingestion.Service.{Reply, replied, ingest_file, found, validate_file}
use edifact_parser.Repos.Database.{no_rows, pg_error}
use edifact_parser.Repos.Messages.{bulk_create}
use edifact_parser.Repos.Versions.{create_version}
use edifact_parser.Repos.Service.{Outside, repository_ports}
use edifact_parser.Repos.Again.{repositories-Durable, repositories-again}
use edifact_parser.Router.{ingest_file_response, response200}
use edifact_parser.Router.Reads.{
  raw_file200, interchange200, DetailBody, get_raw_file_response, get_interchange_response,
}
use edifact_parser.Router.Downloads.{Readable, IsAbout, ingest_file-downloads}
use edifact_parser.Router.Race.{ingest_file-race}
use edifact_parser.Tests.Memory.{small_result}
use edifact_parser.Tests.Tables.{
  start, text, Tables, small_db, small_codec, small_outside, small_db-KeepsRows,
}
use edifact_parser.Repos.Interchanges.{
  unique_violation, find_by_id, find_by_content_hash, create_interchange,
}
use edifact_parser.Repos.Subscriptions.{upsert_by_identifier}
use edifact_parser.Domain.Entities.{new_message, new_processing_version, new_subscription}
use edifact_parser.Domain.Event.{
  new_ingested_event, new_version_created_event, new_domain_event, set_key,
}

abbrev pub version : Bytes
version = codes "1.0.0"

abbrev ports : Ports.Ports Tables
ports = repository_ports small_db small_codec small_outside

abbrev no_answer : Ports.IngestResult
no_answer = record {
  interchange_id = 0;
  status = completed;
  message_count = 0;
  subscription_count = 0;
  events = [];
}

abbrev result_or : Option Ports.IngestResult → Ports.IngestResult
result_or none = no_answer
result_or (some r) = r

unfoldable pub answer_of : Option (Reply × Tables) → Ports.IngestResult
answer_of (some (r, t)) = result_or r.result
answer_of none = no_answer

unfoldable pub state_of : Option (Reply × Tables) → Tables
state_of (some (r, t)) = t
state_of none = start

upload : Option (Reply × Tables)
upload = ingest_file ports version (codes "x") start

upload-replied :
    ingest_file ports version (codes "x") start ≡ some (replied (answer_of upload), state_of upload)
unfolding upload answer_of state_of ingest_file validate_file new_interchange validate_content_hash
    new_processing_version new_message new_ingested_event new_version_created_event new_domain_event
    set_key bytes_eq create_interchange find_by_content_hash create_version bulk_create
    upsert_by_identifier new_subscription
upload-replied = refl

upload-completed : (answer_of upload).status ≡ completed
unfolding upload answer_of state_of ingest_file validate_file new_interchange validate_content_hash
    new_processing_version new_message new_ingested_event new_version_created_event new_domain_event
    set_key bytes_eq create_interchange find_by_content_hash create_version bulk_create
    upsert_by_identifier new_subscription
upload-completed = refl

repositories-again_example :
    ingest_file ports version (codes "x") (state_of upload)
    ≡ some (
      replied (known (answer_of upload)),
      (small_db.select_interchange_by_hash
          (small_outside.sha256_hex (codes "x"))
          (state_of upload)).1,
    )
repositories-again_example =
    repositories-again small_db small_codec small_outside version small_db-KeepsRows (codes "x")
      start (answer_of upload) (state_of upload) upload-replied upload-completed

found_by_id : (i : Interchange) (s : Tables) → s.row ≡ some i → (ports.find_by_id i.id s).0 ≡ ok i
unfolding find_by_id
found_by_id i s k = rw (k, ==_refl i.id) refl

readable :
    Readable ports version
      (repositories-Durable small_db small_codec small_outside version small_db-KeepsRows)
      small_codec
unfolding repositories-Durable
readable = record { by_id = found_by_id; parses = λ id. refl }

first_upload : found (ports.find_by_content_hash (ports.sha256_hex (codes "x")) start).0 ≡ none
unfolding find_by_content_hash
first_upload = refl

ingest_file-downloads_example :
    ((get_raw_file_response ports small_codec text
        (answer_of upload).interchange_id
        (state_of upload)).0
      ≡ raw_file200 (codes "x") 1)
    × ((body : DetailBody) × ((get_interchange_response ports small_codec text
            (answer_of upload).interchange_id
            (state_of upload)).0
          ≡ interchange200 body)
        × IsAbout small_result (answer_of upload).interchange_id body)
ingest_file-downloads_example =
    ingest_file-downloads ports version
      (repositories-Durable small_db small_codec small_outside version small_db-KeepsRows)
      small_codec readable text (codes "x") small_result start (state_of upload) (answer_of upload)
      first_upload refl upload-replied

-- Another request stores its interchange while this one begins its transaction.
abbrev other_row : Interchange
other_row = record {
  id = 77;
  sender_id = codes "S";
  sender_qualifier = codes "14";
  receiver_id = codes "R";
  receiver_qualifier = codes "14";
  prepared_at = 7;
  reference = codes "REF1";
  raw_content = codes "x";
  content_hash = small_outside.sha256_hex (codes "x");
  status = completed;
  error_detail = none;
  created_at = 0;
  updated_at = 0;
}

abbrev racing : Outside Tables
racing = record small_outside { begin = λ s. (ok tt, record s { row = some other_row }) }

abbrev own_row : Interchange
own_row = record other_row { id = 1 }

own_row-made :
    new_interchange
      (racing.new_stamp (record start { row = some other_row })).0
      (codes "S")
      (codes "14")
      (codes "R")
      (codes "14")
      7
      (codes "REF1")
      (codes "x")
      (racing.sha256_hex (codes "x"))
    ≡ ok own_row
unfolding new_interchange validate_content_hash
own_row-made = refl

x_validated : validate_file (codes "x") ≡ none
unfolding validate_file
x_validated = refl

conflict :
    (small_db.insert_interchange own_row (record {
      row = some other_row;
      stamps = 1;
      first = true;
      second = false;
      subscriber = none;
      batches = [];
    })).0
    ≡ err (pg_error unique_violation)
unfolding bytes_eq
conflict = refl

other_found :
    (small_db.select_interchange_by_hash (racing.sha256_hex (codes "x")) (record {
      row = some other_row;
      stamps = 1;
      first = true;
      second = false;
      subscriber = none;
      batches = [];
    })).0
    ≡ ok other_row
unfolding bytes_eq
other_found = refl

ingest_file-race_example :
    (reply : Reply) × (t : Tables) × (ingest_file
        (repository_ports small_db small_codec racing)
        version
        (codes "x")
        start
      ≡ some (reply, t))
    × (ingest_file_response text (some (codes "x")) reply
        ≡ some (response200 (record { interchange_id = 77; status = completed; total = 0 })))
ingest_file-race_example =
    ingest_file-race small_db small_codec racing version text (codes "x") small_result no_rows
      own_row other_row start x_validated refl refl refl own_row-made conflict other_found
