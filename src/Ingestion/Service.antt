-- ===== src/Ingestion/Service.antt =====
-- ingestion_service.go: `IngestFile` and what it calls.
use edifact_parser.Base.{ℕ, ◌+◌, Option, none, some, List, [], ◌∷◌, Bytes, length, if◌then◌else◌}
use edifact_parser.Parser.State.{pos, ParsedMessage, ParseResult}
use edifact_parser.Domain.{Uuid, Stamp, Result, ok, err}
use edifact_parser.Domain.Interchange.{Interchange, completed, failed, new_interchange}
use edifact_parser.Domain.Entities.{Message, new_message, ProcessingVersion, new_processing_version}
use edifact_parser.Domain.Event.{
  DomainEvent, new_ingested_event, new_failed_event, new_version_created_event,
}
use edifact_parser.Ingestion.Action.{Action, ◌>>=◌, pure, wrapped, after}
use edifact_parser.Ingestion.Ports
pub use edifact_parser.Ingestion.Results.{
  max_file_size, pointer, lookup_id, subscription_of, numbered, is_duplicate, Reply, replied,
  refused, existing_result, Stop, stop, stop_duplicate, reply_of, failed_interchange, found,
}
unfoldable pub use edifact_parser.Ingestion.Results.{validate_file}

module _ {S : Type 0} (ports : Ports.Ports S) (parser_version : Bytes) where
  -- A constructor of the domain, called with a fresh identity and the current time.
  abbrev pub stamped : {E A : Type 0} → (Stamp → Result E A) → Action S E A
  stamped make s = let (stamp, t) = ports.new_stamp s in (make stamp, t)

  unfoldable pub upsert_subscriptions :
      List Bytes → List (Bytes × Uuid) → ℕ → Action S Stop (List (Bytes × Uuid) × ℕ)
  upsert_subscriptions [] ids n = pure (ok (ids, n))
  upsert_subscriptions (sub_id ∷ rest) ids n = do
    sub ←
        wrapped (λ e. stop (Ports.upserting_subscription sub_id e))
          (ports.upsert_by_identifier sub_id)
    upsert_subscriptions rest ((sub_id, sub.id) ∷ ids) (n + 1)

  unfoldable pub build_messages :
      Uuid
      → Uuid
      → List ParsedMessage
      → List (Bytes × Uuid)
      → Action S Ports.ServiceError (List Message)
  build_messages interchange_id version_id [] ids = pure (ok [])
  build_messages interchange_id version_id (pm ∷ rest) ids = do
    msg ← wrapped (Ports.building_message pm.message_reference) (
        stamped λ stamp.
          new_message stamp interchange_id version_id (subscription_of ids pm.subscription_id)
            pm.message_type pm.message_reference (numbered 0 pm.segments))
    msgs ← build_messages interchange_id version_id rest ids
    pure (ok (msg ∷ msgs))

  -- `if len(messages) > 0 { … BulkCreate … }`
  unfoldable pub store_messages : List Message → Action S Stop Unit
  store_messages [] = pure (ok tt)
  store_messages (m ∷ ms) =
      wrapped (λ e. stop (Ports.creating_messages e)) (ports.bulk_create (m ∷ ms))

  -- A duplicate that another request stored after this one looked.
  unfoldable pub recover_duplicate : Bytes → Action S Stop Unit
  recover_duplicate content_hash = do
    existing ←
        wrapped (λ e. stop (Ports.recovering_duplicate e)) (ports.find_by_content_hash content_hash)
    pure (elim existing [
      | none ↦ err (stop Ports.nil_pointer)
      | some i ↦ err (stop_duplicate (existing_result i))
    ])

  unfoldable pub store_interchange : Interchange → Action S Stop Unit
  unfolding recover_duplicate
  store_interchange interchange s =
      let (r, t) = ports.create_interchange interchange s in
      elim r [
        | ok u ↦ (ok u, t)
        | err e ↦
            if is_duplicate e
            then recover_duplicate interchange.content_hash t
            else (err (stop (Ports.storing_interchange e)), t)
      ]

  -- From the events to the result.
  unfoldable pub commit_and_publish :
      Interchange → ProcessingVersion → ℕ → List Message → Action S Stop Ports.IngestResult
  commit_and_publish interchange version subscription_count messages = do
    ingested ← stamped λ stamp. ok (
        pointer (
          new_ingested_event stamp interchange.id (pos (length messages)) interchange.sender_id
            interchange.receiver_id))
    created ← stamped λ stamp. ok (
        pointer (
          new_version_created_event stamp interchange.id version.id version.version_number
            version.parser_version))
    _ ← wrapped (λ e. stop (Ports.committing_transaction e)) ports.commit
    _ ← (λ s. (ok tt, after (ports.publish (ingested ∷ created ∷ [])) s))
    pure (
        ok (record {
          interchange_id = interchange.id;
          status = completed;
          message_count = length messages;
          subscription_count = subscription_count;
          events = ingested ∷ created ∷ [];
        }))

  -- From the subscriptions to the result.
  unfoldable pub persist_messages :
      Interchange → ProcessingVersion → ParseResult → Action S Stop Ports.IngestResult
  unfolding upsert_subscriptions build_messages store_messages commit_and_publish
  persist_messages interchange version parsed = do
    (ids, subscription_count) ← upsert_subscriptions parsed.subscriptions [] 0
    messages ← wrapped stop (build_messages interchange.id version.id parsed.messages ids)
    _ ← store_messages messages
    commit_and_publish interchange version subscription_count messages

  -- From the processing version to the result.
  unfoldable pub persist_version : Interchange → ParseResult → Action S Stop Ports.IngestResult
  unfolding persist_messages
  persist_version interchange parsed = do
    version ←
        wrapped (λ e. stop (Ports.creating_processing_version e))
          (stamped λ stamp. new_processing_version stamp interchange.id (pos 1) parser_version [])
    _ ← wrapped (λ e. stop (Ports.storing_processing_version e)) (ports.create_version version)
    persist_messages interchange version parsed

  -- From `NewInterchange` to the result.
  unfoldable pub persist : Bytes → Bytes → ParseResult → Action S Stop Ports.IngestResult
  unfolding store_interchange persist_version
  persist raw_content content_hash parsed = do
    interchange ←
        wrapped (λ e. stop (Ports.creating_interchange e))
          (stamped λ stamp.
            new_interchange stamp parsed.sender_id parsed.sender_qualifier parsed.receiver_id
              parsed.receiver_qualifier parsed.prepared_at parsed.reference raw_content
              content_hash)
    _ ← store_interchange interchange
    persist_version interchange parsed

  -- The transaction around it; the deferred rollback runs on every return once it has begun.
  unfoldable pub persist_and_publish : Bytes → Bytes → ParseResult → S → Reply × S
  unfolding persist
  persist_and_publish raw_content content_hash parsed s =
      let (r, t) = ports.begin s in
      elim r [
        | err e ↦ (refused (Ports.starting_transaction e), t)
        | ok _ ↦
            let (result, u) = persist raw_content content_hash parsed t in
            (reply_of result, after ports.rollback u)
      ]

  -- `if failedEvent != nil { events = append(…); _ = s.publisher.Publish(…) }`
  abbrev pub publish_failure : Option DomainEvent → S → List (Option DomainEvent) × S
  publish_failure none s = ([], s)
  publish_failure (some event) s = (some event ∷ [], after (ports.publish (some event ∷ [])) s)

  unfoldable pub handle_parse_failure : Bytes → Bytes → Bytes → S → Reply × S
  handle_parse_failure raw_content content_hash parse_err s =
      let (stamp, s1) = ports.new_stamp s in
      let interchange = failed_interchange stamp.id raw_content content_hash parse_err in
      let s2 = after (ports.create_interchange interchange) s1 in
      let (event_stamp, s3) = ports.new_stamp s2 in
      let event = pointer (new_failed_event event_stamp interchange.id parse_err) in
      let (events, s4) = publish_failure event s3 in
      (
        replied (record {
          interchange_id = interchange.id;
          status = failed;
          message_count = 0;
          subscription_count = 0;
          events = events;
        }),
        s4,
      )

  abbrev pub ingest_parsed : Bytes → Bytes → Result Bytes ParseResult → S → Reply × S
  ingest_parsed file_data content_hash (ok parsed) s =
      persist_and_publish file_data content_hash parsed s
  ingest_parsed file_data content_hash (err e) s = handle_parse_failure file_data content_hash e s

  -- `IngestFile`; none when the parser does not return.
  unfoldable pub ingest_file : Bytes → S → Option (Reply × S)
  unfolding persist_and_publish handle_parse_failure
  ingest_file file_data s = elim (validate_file file_data) [
    | some e ↦ some (refused e, s)
    | none ↦
        let content_hash = ports.sha256_hex file_data in
        let (answer, t) = ports.find_by_content_hash content_hash s in
        elim (found answer) [
          | some existing ↦ some (replied (existing_result existing), t)
          | none ↦ elim (ports.parse file_data) [
            | none ↦ none
            | some outcome ↦ some (ingest_parsed file_data content_hash outcome t)
          ]
        ]
  ]
