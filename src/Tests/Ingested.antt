-- ===== src/Tests/Ingested.antt =====
-- The properties of ingestion_service.go, and of the answers to uploads, at concrete inputs.
use edifact_parser.Base.{
  List, [], ◌∷◌, Option, none, some, Bytes, codes, ◌≡◌, refl, bytes_eq, ℕ, ◌+◌, All,
}
use edifact_parser.Parser.Acceptance.Messages.{IsNamed}
use edifact_parser.Domain.{Stamp, Uuid, ok, err}
use edifact_parser.Domain.Interchange.{
  Interchange, completed, new_interchange, validate_content_hash,
}
use edifact_parser.Domain.Entities.{Message, new_message, new_processing_version}
use edifact_parser.Domain.Event.{
  new_ingested_event, new_version_created_event, new_domain_event, set_key,
}
use edifact_parser.Domain.Valid.{IsHexDigest}
use edifact_parser.Ingestion.Ports
use edifact_parser.Ingestion.Service.{
  ingest_file, build_messages, validate_file, Reply, replied, found, upsert_subscriptions,
}
use edifact_parser.Ingestion.Again.{known, ingest_file-again}
use edifact_parser.Ingestion.Accepted.{AreMessagesOf, parse_file-IsStorable}
use edifact_parser.Ingestion.Outcomes.{IsFailure, ingest_file-IsFailure, ingest_file-IsReport}
use edifact_parser.Ingestion.Sizes.{BySize, ingest_file-BySize}
use edifact_parser.Ingestion.Persist.{IsReport}
use edifact_parser.Ingestion.Covered.{IsCovered, upsert_subscriptions-IsCovered}
use edifact_parser.Router.{ingest_file_response, response201}
use edifact_parser.Router.Upload.{created, ingest_file_response-again}
use edifact_parser.Tests.Memory.{
  Store, memory, memory-Durable, small_result, small_message, find_row,
}
use edifact_parser.Tests.Parsing.{std, sample}
use edifact_parser.Tests.Parsed.{sample_result, sample_parsed}

abbrev empty : Store
empty = record { rows = []; stamps = 0 }

abbrev version : Bytes
version = codes "1.0.0"

ingest_file-BySize_example :
    BySize memory version (codes "x") empty (ingest_file memory version (codes "x") empty)
ingest_file-BySize_example = ingest_file-BySize memory version (codes "x") empty

abbrev no_answer : Ports.IngestResult
no_answer = record {
  interchange_id = 0;
  status = completed;
  message_count = 0;
  subscription_count = 0;
  events = [];
}

abbrev result_or : Option Ports.IngestResult → Ports.IngestResult
result_or none = no_answer
result_or (some r) = r

-- The answer of a call that is known to be a result, and the state behind it.
answer_of : Option (Reply × Store) → Ports.IngestResult
answer_of (some (r, t)) = result_or r.result
answer_of none = no_answer

state_of : Option (Reply × Store) → Store
state_of (some (r, t)) = t
state_of none = empty

first : Option (Reply × Store)
first = ingest_file memory version (codes "x") empty

first-replied :
    ingest_file memory version (codes "x") empty ≡ some (replied (answer_of first), state_of first)
unfolding first answer_of state_of ingest_file validate_file find_row new_interchange
    validate_content_hash new_processing_version new_message new_ingested_event
    new_version_created_event new_domain_event set_key bytes_eq
first-replied = refl

first-completed : (answer_of first).status ≡ completed
unfolding first answer_of state_of ingest_file validate_file find_row new_interchange
    validate_content_hash new_processing_version new_message new_ingested_event
    new_version_created_event new_domain_event set_key bytes_eq
first-completed = refl

ingest_file-again_example :
    ingest_file memory version (codes "x") (state_of first)
    ≡ some (
      replied (known (answer_of first)),
      (memory.find_by_content_hash (memory.sha256_hex (codes "x")) (state_of first)).1,
    )
ingest_file-again_example =
    ingest_file-again memory version memory-Durable (codes "x") empty (answer_of first)
      (state_of first) first-replied first-completed

not_stored : found (memory.find_by_content_hash (memory.sha256_hex (codes "x")) empty).0 ≡ none
unfolding find_row
not_stored = refl

ingest_file-IsReport_example : IsReport small_result (answer_of first)
ingest_file-IsReport_example =
    ingest_file-IsReport memory version (codes "x") small_result empty (state_of first)
      (answer_of first) not_stored refl first-replied

-- The same table behind a parser that refuses every file.
abbrev strict : Ports.Ports Store
strict = record memory { parse = λ _. some (err (codes "unexpected token")) }

x-valid : validate_file (codes "x") ≡ none
unfolding validate_file
x-valid = refl

not_stored_strict :
    found (strict.find_by_content_hash (strict.sha256_hex (codes "x")) empty).0 ≡ none
unfolding find_row
not_stored_strict = refl

ingest_file-IsFailure_example :
    (reply : Reply) × (t : Store) × (ingest_file strict version (codes "x") empty ≡ some (reply, t))
    × IsFailure (codes "unexpected token") reply
ingest_file-IsFailure_example =
    ingest_file-IsFailure strict version (codes "x") (codes "unexpected token") empty x-valid
      not_stored_strict refl

small_message-IsNamed : IsNamed small_message
small_message-IsNamed = record { has_type = λ h. cc; has_reference = λ h. cc }

abbrev ids : List (Bytes × Uuid)
ids = (codes "DE1", 9) ∷ []

sample-IsHexDigest : IsHexDigest (std.sha256_hex sample)
sample-IsHexDigest = record { digits = refl; hex = refl }

abbrev stamp : Stamp
stamp = record { id = 4; now = 8 }

parse_file-IsStorable_example :
    ((interchange : Interchange) × (new_interchange stamp sample_result.sender_id
          sample_result.sender_qualifier sample_result.receiver_id sample_result.receiver_qualifier
          sample_result.prepared_at sample_result.reference sample
          (std.sha256_hex sample)
        ≡ ok interchange))
    × ((ms : List Message) × ((build_messages memory version 1 2 sample_result.messages ids empty).0
          ≡ ok ms)
        × AreMessagesOf 1 2 ids sample_result.messages ms)
parse_file-IsStorable_example =
    parse_file-IsStorable memory version std 200 sample sample_result stamp 1 2 ids empty
      sample_parsed sample-IsHexDigest

memory_upserts :
    (subs : List Bytes) (ids : List (Bytes × Uuid)) (n : ℕ) (s : Store)
    → (x : List (Bytes × Uuid)) × (k : ℕ) × ((upsert_subscriptions memory version subs ids n s).0
        ≡ ok (x, k))
unfolding upsert_subscriptions
memory_upserts [] ids n s = (ids, n, refl)
memory_upserts (b ∷ subs) ids n s = memory_upserts subs ((b, 9) ∷ ids) (n + 1) s

upsert_subscriptions-IsCovered_example :
    All (IsCovered (memory_upserts sample_result.subscriptions [] 0 empty).0) sample_result.messages
upsert_subscriptions-IsCovered_example =
    upsert_subscriptions-IsCovered memory version std 200 sample sample_result empty
      (memory_upserts sample_result.subscriptions [] 0 empty).0
      (memory_upserts sample_result.subscriptions [] 0 empty).1 sample_parsed
      (memory_upserts sample_result.subscriptions [] 0 empty).2

abbrev error_text : Ports.ServiceError → Bytes
error_text Ports.file_too_large = codes "validating file: file exceeds maximum allowed size"
error_text _ = codes "error"

ingest_file_response-again_example :
    (ingest_file_response error_text (some (codes "x")) (replied (answer_of first))
      ≡ some (response201 (created (answer_of first) (answer_of first).message_count)))
    × ((u : Store) × (reply : Reply) × (ingest_file memory version (codes "x") (state_of first)
          ≡ some (reply, u))
        × (ingest_file_response error_text (some (codes "x")) reply
            ≡ some (response201 (created (answer_of first) 0))))
ingest_file_response-again_example =
    ingest_file_response-again memory version memory-Durable error_text (codes "x") empty
      (answer_of first) (state_of first) first-replied first-completed
