-- ===== src/Ingestion/Publishing.antt =====
-- ingestion_service.go: that the events of an ingested file are published, and when.
use edifact_parser.Base.{ℕ, List, none, some, [], Bytes, ◌≡◌, ap, sym, ◌∙◌, inl, inr, eq_of-some}
use edifact_parser.Parser.State.{ParseResult, pos}
use edifact_parser.Domain.{ok}
use edifact_parser.Domain.Interchange.{Interchange, new_interchange}
use edifact_parser.Domain.Entities.{Message, new_processing_version, ProcessingVersion}
use edifact_parser.Ingestion.Action.{◌>>=◌, wrapped}
use edifact_parser.Ingestion.Ports
use edifact_parser.Ingestion.Yields.{Yields, Yields-bind, ok-injective, Result-cases}
use edifact_parser.Ingestion.Service.{
  stop, stop_duplicate, replied, found, persist, persist_and_publish, ingest_file,
  store_interchange, upsert_subscriptions, build_messages, store_messages, commit_and_publish,
  persist_messages, persist_version, stamped,
}
use edifact_parser.Ingestion.Again.{validated}
use edifact_parser.Ingestion.Kept.{replied-injective}

module _ {S : Type 0} (ports : Ports.Ports S) (parser_version : Bytes) where
  -- A commit that succeeds from the state w, and then the call of the publisher with all events of
  -- the result.
  abbrev pub Publishes : Ports.IngestResult → S → Type 0
  Publishes r t =
      (w : S) × ((ports.commit w).0 ≡ ok tt) × (t ≡ (ports.publish r.events (ports.commit w).1).1)

  commit_and_publish-Publishes :
      (i : Interchange) (v : ProcessingVersion) (n : ℕ) (ms : List Message) (s : S)
      → Yields s (commit_and_publish ports parser_version i v n ms) Publishes
  unfolding commit_and_publish
  commit_and_publish-Publishes i v n ms s r e =
      let w = (ports.new_stamp (ports.new_stamp s).1).1 in
      elim (Result-cases (ports.commit w).0) [
        | inr (x, o) ↦ cc (rw (o, wrapped) at e)
        | inl (u, o) ↦
            rw (o, wrapped)
              (
                w,
                o,
                ap (λ a. (ports.publish a.events (ports.commit w).1).1)
                    (ok-injective (rw (o, wrapped) at e)),
              )
      ]

  persist_messages-Publishes :
      (i : Interchange) (v : ProcessingVersion) (parsed : ParseResult) (s : S)
      → Yields s (persist_messages ports parser_version i v parsed) Publishes
  unfolding persist_messages
  persist_messages-Publishes i v parsed s =
      Yields-bind _ (λ _ _. Unit) Publishes s
        (upsert_subscriptions ports parser_version parsed.subscriptions [] 0) (λ _ _. tt)
        λ (ids, n) t _.
          Yields-bind
            (λ messages. store_messages ports parser_version messages >>= λ _.
              commit_and_publish ports parser_version i v n messages)
            (λ _ _. Unit) Publishes t
            (wrapped stop (build_messages ports parser_version i.id v.id parsed.messages ids))
            (λ _ _. tt)
            λ ms u _.
              Yields-bind (λ _. commit_and_publish ports parser_version i v n ms) (λ _ _. Unit)
                Publishes u (store_messages ports parser_version ms) (λ _ _. tt)
                λ _ w _. commit_and_publish-Publishes i v n ms w

  persist_version-Publishes :
      (i : Interchange) (parsed : ParseResult) (s : S)
      → Yields s (persist_version ports parser_version i parsed) Publishes
  unfolding persist_version
  persist_version-Publishes i parsed s =
      Yields-bind
        (λ version.
          wrapped (λ e. stop (Ports.storing_processing_version e)) (ports.create_version version)
          >>= λ _. persist_messages ports parser_version i version parsed)
        (λ _ _. Unit) Publishes s
        (wrapped (λ e. stop (Ports.creating_processing_version e))
          (stamped ports parser_version
            λ stamp. new_processing_version stamp i.id (pos 1) parser_version []))
        (λ _ _. tt)
        λ v t _.
          Yields-bind (λ _. persist_messages ports parser_version i v parsed) (λ _ _. Unit)
            Publishes t
            (wrapped (λ e. stop (Ports.storing_processing_version e)) (ports.create_version v))
            (λ _ _. tt) λ _ u _. persist_messages-Publishes i v parsed u

  persist-Publishes :
      (raw hash : Bytes) (parsed : ParseResult) (s : S)
      → Yields s (persist ports parser_version raw hash parsed) Publishes
  unfolding persist
  persist-Publishes raw hash parsed s =
      Yields-bind
        (λ i. store_interchange ports parser_version i >>= λ _.
          persist_version ports parser_version i parsed)
        (λ _ _. Unit) Publishes s
        (wrapped (λ e. stop (Ports.creating_interchange e))
          (stamped ports parser_version λ stamp.
            new_interchange stamp parsed.sender_id parsed.sender_qualifier parsed.receiver_id
              parsed.receiver_qualifier parsed.prepared_at parsed.reference raw hash))
        (λ _ _. tt)
        λ i t _.
          Yields-bind (λ _. persist_version ports parser_version i parsed) (λ _ _. Unit) Publishes t
            (store_interchange ports parser_version i) (λ _ _. tt)
            λ _ u _. persist_version-Publishes i parsed u

  -- The state behind an ingestion that succeeds: the deferred rollback comes last.
  abbrev pub Ends : Ports.IngestResult → S → Type 0
  Ends r t =
      (w : S) × ((ports.commit w).0 ≡ ok tt)
      × (t ≡ (ports.rollback (ports.publish r.events (ports.commit w).1).1).1)

  persist_and_publish-Ends :
      (raw hash : Bytes) (parsed : ParseResult) (s : S) (r : Ports.IngestResult)
      → (persist_and_publish ports parser_version raw hash parsed s).0 ≡ replied r
      → Ends r (persist_and_publish ports parser_version raw hash parsed s).1
  unfolding persist_and_publish
  persist_and_publish-Ends raw hash parsed s r e = elim (Result-cases (ports.begin s).0) [
    | inr (x, o) ↦ cc (rw (o, persist_and_publish) at e)
    | inl (u, o) ↦
        elim (Result-cases (persist ports parser_version raw hash parsed (ports.begin s).1).0) [
          | inr (stop x, q) ↦ cc (rw (o, q, persist_and_publish) at e)
          | inr (stop_duplicate x, q) ↦ cc (rw (o, q, persist_and_publish) at e)
          | inl (a, q) ↦
              let (w, committed, published) =
                persist-Publishes raw hash parsed (ports.begin s).1 a q in
              let result : a ≡ r = replied-injective (rw (o, q, persist_and_publish) at e) in
              (
                w,
                committed,
                rw (o, persist_and_publish)
                    (ap (λ v. (ports.rollback v).1) published
                      ∙ ap (λ x. (ports.rollback (ports.publish x.events (ports.commit w).1).1).1)
                          result),
              )
        ]
  ]

  pub ingest_file-Ends :
      (file : Bytes) (parsed : ParseResult) (s t : S) (r : Ports.IngestResult)
      → found (ports.find_by_content_hash (ports.sha256_hex file) s).0 ≡ none
      → ports.parse file ≡ some (ok parsed)
      → ingest_file ports parser_version file s ≡ some (replied r, t)
      → Ends r t
  unfolding ingest_file
  ingest_file-Ends file parsed s t r f p e =
      let v = validated ports parser_version file s r t e in
      let u = (ports.find_by_content_hash (ports.sha256_hex file) s).1 in
      let both = eq_of-some (rw (v, f, p, ingest_file) at e) in
      let (w, committed, end) =
        persist_and_publish-Ends file (ports.sha256_hex file) parsed u r (ap (λ x. x.0) both) in
      (w, committed, sym (ap (λ x. x.1) both) ∙ end)
