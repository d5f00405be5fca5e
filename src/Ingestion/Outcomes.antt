-- ===== src/Ingestion/Outcomes.antt =====
-- What `IngestFile` answers on each of its paths.
use edifact_parser.Base.{none, some, [], ◌∷◌, Bytes, codes, ◌≡◌, refl, ap, inl, inr, eq_of-some}
use edifact_parser.Parser.State.{ParseResult}
use edifact_parser.Domain.{Uuid, Stamp, ok, err}
use edifact_parser.Domain.Interchange.{failed}
use edifact_parser.Domain.Event.{DomainEvent, get_key, string}
use edifact_parser.Domain.Valid.{IsStamped, new_failed_event-IsStamped}
use edifact_parser.Ingestion.Ports
use edifact_parser.Ingestion.Service.{
  validate_file, Reply, replied, found, ingest_file, handle_parse_failure, failed_interchange,
  persist_and_publish, persist, stop, stop_duplicate,
}
use mathlib.Core.Path.{subst}
use edifact_parser.Ingestion.Yields.{Result-cases}
use edifact_parser.Ingestion.Persist.{IsReport, Lasts}
use edifact_parser.Ingestion.Chain.{persist-Yields}
use edifact_parser.Ingestion.Again.{validated}
use edifact_parser.Ingestion.Kept.{replied-injective}

-- What a failed ingestion reports.
pub record IsFailure (message : Bytes) (reply : Reply) : Type 0 where
  pub id : Uuid
  pub stamp : Stamp
  pub event : DomainEvent
  pub replied_is :
      reply
      ≡ replied (record {
        interchange_id = id;
        status = failed;
        message_count = 0;
        subscription_count = 0;
        events = some event ∷ [];
      })
  pub event_is : IsStamped stamp id (codes "interchange.failed") event
  pub error_is : get_key (codes "error") event.payload ≡ some (string message)

handle_parse_failure-IsFailure :
    {S : Type 0} (ports : Ports.Ports S) (parser_version raw hash message : Bytes) (s : S)
    → IsFailure message (handle_parse_failure ports parser_version raw hash message s).0
unfolding handle_parse_failure
handle_parse_failure-IsFailure ports parser_version raw hash message s =
    let (stamp, s1) = ports.new_stamp s in
    let i = failed_interchange stamp.id raw hash message in
    let (event_stamp, _) = ports.new_stamp (ports.create_interchange i s1).1 in
    let (event, made, event_is, error_is) = new_failed_event-IsStamped event_stamp i.id message in
    record {
      id = i.id;
      stamp = event_stamp;
      event = event;
      replied_is = rw made refl;
      event_is = event_is;
      error_is = error_is;
    }

-- A file of an admissible size that is not stored yet and does not parse is answered without an
-- error, with status failed and the one event interchange.failed that carries the parser's message,
-- whatever the repository and the publisher answer.
pub ingest_file-IsFailure :
    {S : Type 0} (ports : Ports.Ports S) (parser_version : Bytes) (file message : Bytes) (s : S)
    → validate_file file ≡ none
    → found (ports.find_by_content_hash (ports.sha256_hex file) s).0 ≡ none
    → ports.parse file ≡ some (err message)
    → (reply : Reply) × (t : S) × (ingest_file ports parser_version file s ≡ some (reply, t))
      × IsFailure message reply
unfolding ingest_file handle_parse_failure
ingest_file-IsFailure ports parser_version file message s v f p =
    let hash = ports.sha256_hex file in
    let t = (ports.find_by_content_hash hash s).1 in
    let x = handle_parse_failure ports parser_version file hash message t in
    (
      x.0,
      x.1,
      rw (v, f, p, ingest_file) refl,
      handle_parse_failure-IsFailure ports parser_version file hash message t,
    )

-- Nothing is asked of the state.
nothing-Lasts :
    {S : Type 0} (ports : Ports.Ports S) (parser_version : Bytes)
    → Lasts ports parser_version (λ _. Unit)
nothing-Lasts ports parser_version = record {
  stamp = λ _ _. tt;
  create_version = λ _ _ _. tt;
  upsert = λ _ _ _. tt;
  bulk_create = λ _ _ _. tt;
  commit = λ _ _. tt;
  rollback = λ _ _. tt;
  publish = λ _ _ _. tt;
}

persist_and_publish-IsReport :
    {S : Type 0} (ports : Ports.Ports S) (parser_version raw hash : Bytes) (parsed : ParseResult)
    (s : S) (r : Ports.IngestResult)
    → (persist_and_publish ports parser_version raw hash parsed s).0 ≡ replied r
    → IsReport parsed r
unfolding persist_and_publish
persist_and_publish-IsReport ports parser_version raw hash parsed s r e =
    elim (Result-cases (ports.begin s).0) [
      | inr (x, o) ↦ cc (rw (o, persist_and_publish) at e)
      | inl (u, o) ↦
          elim (Result-cases (persist ports parser_version raw hash parsed (ports.begin s).1).0) [
            | inr (stop x, q) ↦ cc (rw (o, q, persist_and_publish) at e)
            | inr (stop_duplicate x, q) ↦ cc (rw (o, q, persist_and_publish) at e)
            | inl (a, q) ↦
                let result : a ≡ r = replied-injective (rw (o, q, persist_and_publish) at e) in
                subst (IsReport parsed) result
                  (persist-Yields ports parser_version (λ _ _. Unit)
                    (λ _. nothing-Lasts ports parser_version) (λ _ _ _ _. tt) raw hash parsed
                    (ports.begin s).1 a q).0
          ]
    ]

-- A file that is not stored yet and parses, if it is answered without an error, is answered as
-- completed, with the numbers of the messages and subscriptions parsed, and with the events
-- interchange.ingested, which carries the number of messages, and version.created, both about the
-- interchange of the answer.
pub ingest_file-IsReport :
    {S : Type 0} (ports : Ports.Ports S) (parser_version file : Bytes) (parsed : ParseResult)
    (s t : S) (r : Ports.IngestResult)
    → found (ports.find_by_content_hash (ports.sha256_hex file) s).0 ≡ none
    → ports.parse file ≡ some (ok parsed)
    → ingest_file ports parser_version file s ≡ some (replied r, t)
    → IsReport parsed r
unfolding ingest_file
ingest_file-IsReport ports parser_version file parsed s t r f p e =
    let v = validated ports parser_version file s r t e in
    persist_and_publish-IsReport ports parser_version file (ports.sha256_hex file) parsed
      (ports.find_by_content_hash (ports.sha256_hex file) s).1 r
      (ap (λ x. x.0) (eq_of-some (rw (v, f, p, ingest_file) at e)))
