-- ===== src/Tests/Publishing.antt =====
-- An upload whose events are published to a topic that keeps its batches.
use edifact_parser.Base.{Option, none, some, Bytes, codes, bytes_eq, ◌≡◌, refl, List, ◌∷◌, []}
use edifact_parser.Domain.{ok, Uuid, Result}
use edifact_parser.Domain.Interchange.{new_interchange, validate_content_hash}
use edifact_parser.Domain.Entities.{new_message, new_processing_version, new_subscription}
use edifact_parser.Domain.Event.{
  new_ingested_event, new_version_created_event, new_domain_event, set_key, Payload, DomainEvent,
  interchange_ingested, version_created,
}
use edifact_parser.Ingestion.Ports
use edifact_parser.Ingestion.Service.{Reply, replied, ingest_file, found, validate_file}
use edifact_parser.Repos.Messages.{bulk_create}
use edifact_parser.Repos.Versions.{create_version}
use edifact_parser.Repos.Service.{Outside, repository_ports}
use edifact_parser.Repos.Interchanges.{find_by_content_hash, create_interchange}
use edifact_parser.Repos.Subscriptions.{upsert_by_identifier}
use edifact_parser.Kafka.{KafkaMessage, PublishError, kafka_messages, publish}
use edifact_parser.Kafka.Batch.{Published, ingest_file-Published}
use edifact_parser.Tests.Memory.{small_result}
use edifact_parser.Tests.Tables.{start, Tables, small_db, small_codec, small_outside}
use edifact_parser.Tests.Stored.{version, answer_of, state_of}

abbrev topic : List KafkaMessage → Tables → Result {0, 0} Bytes Unit × Tables
topic batch s = (ok tt, record s { batches = batch ∷ s.batches })

abbrev json : Payload → Option Bytes
json _ = some (codes "{}")

abbrev id_text : Uuid → Bytes
id_text id = id ∷ []

-- The service drops the publisher's error.
abbrev published :
    Option (Result {0, 0} PublishError Unit × Tables)
    → Tables
    → Result {0, 0} Ports.RepoError Unit × Tables
published none s = (ok tt, s)
published (some (x, v)) s = (ok tt, v)

abbrev outside : Outside Tables
outside = record small_outside { publish = λ es s. published (publish json id_text topic es s) s }

abbrev ports : Ports.Ports Tables
ports = repository_ports small_db small_codec outside

outside-IsPublisher :
    (es : List (Option DomainEvent)) (s v : Tables) (x : Result {0, 0} PublishError Unit)
    → publish json id_text topic es s ≡ some (x, v)
    → (ports.publish es s).1 ≡ v
outside-IsPublisher es s v x e = rw e refl

upload : Option (Reply × Tables)
upload = ingest_file ports version (codes "x") start

upload-replied :
    ingest_file ports version (codes "x") start ≡ some (replied (answer_of upload), state_of upload)
unfolding upload answer_of state_of ingest_file validate_file new_interchange validate_content_hash
    new_processing_version new_message new_ingested_event new_version_created_event new_domain_event
    set_key bytes_eq create_interchange find_by_content_hash create_version bulk_create
    upsert_by_identifier new_subscription publish kafka_messages
upload-replied = refl

-- One batch of two messages with the interchange as their key.
upload_batches :
    (state_of upload).batches
    ≡ (record { key = (answer_of upload).interchange_id ∷ []; value = codes "{}" }
        ∷ record { key = (answer_of upload).interchange_id ∷ []; value = codes "{}" }
        ∷ [])
      ∷ []
unfolding upload answer_of state_of ingest_file validate_file new_interchange validate_content_hash
    new_processing_version new_message new_ingested_event new_version_created_event new_domain_event
    set_key bytes_eq create_interchange find_by_content_hash create_version bulk_create
    upsert_by_identifier new_subscription publish kafka_messages
upload_batches = refl

first_upload : found (ports.find_by_content_hash (ports.sha256_hex (codes "x")) start).0 ≡ none
unfolding find_by_content_hash
first_upload = refl

ingest_file-Published_example :
    (w u v : Tables) × (first : DomainEvent) × (second : DomainEvent) × (x : Result {0, 0}
      PublishError Unit)
    × (ports.commit w ≡ (ok tt, u))
    × (first.event_type ≡ interchange_ingested)
    × (second.event_type ≡ version_created)
    × Published json id_text topic (answer_of upload).interchange_id first second u (some (x, v))
    × (state_of upload ≡ (ports.rollback v).1)
ingest_file-Published_example =
    ingest_file-Published json id_text topic ports outside-IsPublisher version (codes "x")
      small_result start (state_of upload) (answer_of upload) first_upload refl upload-replied
