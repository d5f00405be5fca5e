-- ===== src/Tests/Halfway.antt =====
-- An ingestion that fails halfway, at a concrete input.
use edifact_parser.Base.{some, [], Option, none, codes, ◌≡◌, refl, bytes_eq}
use edifact_parser.Domain.{err}
use edifact_parser.Domain.Interchange.{completed, new_interchange, validate_content_hash}
use edifact_parser.Domain.Entities.{new_message, new_processing_version}
use edifact_parser.Ingestion.Ports
use edifact_parser.Ingestion.Service.{Reply, ingest_file, validate_file, replied, refused, found}
use edifact_parser.Ingestion.Halfway.{ingest_file-halfway}
use edifact_parser.Tests.Memory.{Store, memory_with, memory_with-Durable, small_result, find_row}

abbrev empty : Store
empty = record { rows = []; stamps = 0 }

-- The insert of the messages is refused.
abbrev broken : Ports.Ports Store
broken = memory_with (err (Ports.other (codes "disk full")))

state_of : Option (Reply × Store) → Store
state_of none = empty
state_of (some (r, t)) = t

stopped : Option (Reply × Store)
stopped = ingest_file broken (codes "1.0.0") (codes "x") empty

stopped-refused :
    ingest_file broken (codes "1.0.0") (codes "x") empty
    ≡ some (refused (Ports.creating_messages (Ports.other (codes "disk full"))), state_of stopped)
unfolding stopped state_of ingest_file validate_file find_row new_interchange validate_content_hash
    new_processing_version new_message bytes_eq
stopped-refused = refl

not_stored : found (broken.find_by_content_hash (broken.sha256_hex (codes "x")) empty).0 ≡ none
unfolding find_row
not_stored = refl

ingest_file-halfway_example :
    (r : Ports.IngestResult) × (ingest_file broken (codes "1.0.0") (codes "x") (state_of stopped)
      ≡ some (
        replied r,
        (broken.find_by_content_hash (broken.sha256_hex (codes "x")) (state_of stopped)).1,
      ))
    × (r.status ≡ completed)
    × (r.message_count ≡ 0)
ingest_file-halfway_example =
    ingest_file-halfway broken (codes "1.0.0")
      (memory_with-Durable (err (Ports.other (codes "disk full")))) (codes "x") small_result empty
      (state_of stopped) (Ports.creating_messages (Ports.other (codes "disk full"))) not_stored refl
      stopped-refused refl
