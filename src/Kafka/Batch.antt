-- ===== src/Kafka/Batch.antt =====
-- The batch that the publisher writes for the events of an ingested file.
use edifact_parser.Base.{
  Option, none, some, List, [], ◌∷◌, Bytes, ◌≡◌, refl, ap, ◌∙◌, Option-cases, inl, inr,
}
use mathlib.Core.Path.{subst}
use edifact_parser.Parser.State.{ParseResult}
use edifact_parser.Domain.{Uuid, Result, ok, err}
use edifact_parser.Domain.Event.{DomainEvent, Payload, interchange_ingested, version_created}
use edifact_parser.Ingestion.Action.{Action, wrapped}
use edifact_parser.Ingestion.Ports
use edifact_parser.Ingestion.Service.{replied, found, ingest_file}
use edifact_parser.Ingestion.Outcomes.{ingest_file-IsReport}
use edifact_parser.Ingestion.Publishing.{ingest_file-Ends}
use edifact_parser.Kafka.{
  KafkaMessage, PublishError, marshalling_event, writing_events, kafka_messages, publish,
}

module _ (marshal : Payload → Option Bytes) (id_string : Uuid → Bytes) {S : Type 0}
    (write_messages : List KafkaMessage → Action S Bytes Unit) where
  -- What becomes of two events about one interchange.
  pub data Published (id : Uuid) (first second : DomainEvent) (s : S)
      (r : Option (Result {0, 0} PublishError Unit × S)) : Type 0 where
    written :
        (a b : Bytes)
        → marshal first.payload ≡ some a
        → marshal second.payload ≡ some b
        → r
          ≡ some (
              wrapped writing_events
                (write_messages (
                  record { key = id_string id; value = a }
                  ∷ record { key = id_string id; value = b }
                  ∷ []))
                s)
        → Published id first second s r
    first_failed :
        marshal first.payload ≡ none
        → r ≡ some (err (marshalling_event first.id), s)
        → Published id first second s r
    second_failed :
        (a : Bytes)
        → marshal first.payload ≡ some a
        → marshal second.payload ≡ none
        → r ≡ some (err (marshalling_event second.id), s)
        → Published id first second s r

  publish-two :
      (id : Uuid) (first second : DomainEvent) (s : S)
      → first.interchange_id ≡ some id
      → second.interchange_id ≡ some id
      → Published id first second s
          (publish marshal id_string write_messages (some first ∷ some second ∷ []) s)
  unfolding publish kafka_messages
  publish-two id first second s f g = elim (Option-cases (marshal first.payload)) [
    | inl x ↦ first_failed x (rw (x, publish) refl)
    | inr (a, x) ↦ elim (Option-cases (marshal second.payload)) [
      | inl y ↦ second_failed a x y (rw (x, y, publish) refl)
      | inr (b, y) ↦ written a b x y (rw (x, y, f, g, publish) refl)
    ]
  ]

  Published-some :
      (id : Uuid) (first second : DomainEvent) (s : S) (r : Option (Result PublishError Unit × S))
      → Published id first second s r
      → (x : Result {0, 0} PublishError Unit) × (v : S) × (r ≡ some (x, v))
  Published-some id first second s r (written a b _ _ e) =
      let batch =
        record { key = id_string id; value = a } ∷ record { key = id_string id; value = b } ∷ [] in
      (
        (wrapped writing_events (write_messages batch) s).0,
        (wrapped writing_events (write_messages batch) s).1,
        e,
      )
  Published-some id first second s r (first_failed _ e) = (err (marshalling_event first.id), s, e)
  Published-some id first second s r (second_failed _ _ _ e) =
      (err (marshalling_event second.id), s, e)

  -- Where the publisher of the service is this one, the events of a file that is new, parses and is
  -- answered without an error are published: behind a commit that succeeds, in the state u that it
  -- leaves, as one batch of two messages, first that the file was ingested and then that its version
  -- was created, each with the interchange of the answer as its key and its payload as its value;
  -- or, where one of the payloads cannot be printed as JSON, nothing is written and the error names
  -- the event. No nil pointer is followed, and after publishing only the deferred rollback is called.
  pub ingest_file-Published :
      (ports : Ports.Ports S)
      (is_publisher : (es : List (Option DomainEvent)) (s v : S)
          (x : Result {0, 0} PublishError Unit)
        → publish marshal id_string write_messages es s ≡ some (x, v)
        → (ports.publish es s).1 ≡ v)
      (parser_version file : Bytes) (parsed : ParseResult) (s t : S) (r : Ports.IngestResult)
      → found (ports.find_by_content_hash (ports.sha256_hex file) s).0 ≡ none
      → ports.parse file ≡ some (ok parsed)
      → ingest_file ports parser_version file s ≡ some (replied r, t)
      → (w u v : S) × (first : DomainEvent) × (second : DomainEvent) × (x : Result {0, 0}
          PublishError Unit)
        × (ports.commit w ≡ (ok tt, u))
        × (first.event_type ≡ interchange_ingested)
        × (second.event_type ≡ version_created)
        × Published r.interchange_id first second u (some (x, v))
        × (t ≡ (ports.rollback v).1)
  ingest_file-Published ports is_publisher parser_version file parsed s t r f p e =
      let report = ingest_file-IsReport ports parser_version file parsed s t r f p e in
      let (w, committed, end) = ingest_file-Ends ports parser_version file parsed s t r f p e in
      let u = (ports.commit w).1 in
      let events = some report.ingested ∷ some report.created ∷ [] in
      let two =
        publish-two r.interchange_id report.ingested report.created u report.ingested_is.interchange
          report.created_is.interchange in
      let (x, v, made) =
        Published-some r.interchange_id report.ingested report.created u
          (publish marshal id_string write_messages events u) two in
      (
        w,
        u,
        v,
        report.ingested,
        report.created,
        x,
        λ i. (committed i, u),
        report.ingested_is.kind,
        report.created_is.kind,
        subst (Published r.interchange_id report.ingested report.created u) made two,
        end
            ∙ ap (λ es. (ports.rollback (ports.publish es u).1).1) report.events
            ∙ ap (λ v. (ports.rollback v).1) (is_publisher events u v x made),
      )
