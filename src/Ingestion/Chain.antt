-- ===== src/Ingestion/Chain.antt =====
-- `persistAndPublish` from the insert of the interchange to its result.
use edifact_parser.Base.{◌+◌, none, some, [], Bytes, length, ◌≡◌, arith}
use edifact_parser.Parser.State.{ParseResult, pos}
use edifact_parser.Domain.{ok}
use edifact_parser.Domain.Interchange.{Interchange, completed, new_interchange}
use edifact_parser.Domain.Entities.{new_processing_version, ProcessingVersion}
use edifact_parser.Domain.Valid.{new_interchange-ok, new_interchange-parties}
use edifact_parser.Ingestion.Action.{◌>>=◌, wrapped}
use edifact_parser.Ingestion.Ports
use edifact_parser.Ingestion.Yields.{Yields, Yields-bind, Yields-wrapped}
use edifact_parser.Ingestion.Service.{
  stop, persist, store_interchange, recover_duplicate, upsert_subscriptions, build_messages,
  store_messages, commit_and_publish, persist_messages, persist_version, stamped, is_duplicate,
}
use edifact_parser.Ingestion.Persist.{
  IsReport, Lasts, upsert_subscriptions-Yields, build_messages-Yields, store_messages-Yields,
  commit_and_publish-Yields,
}
use edifact_parser.Base.{Bool-cases, inl, inr}
use edifact_parser.Ingestion.Yields.{Result-cases, wrap-ok}

-- The parties and the reference of an interchange are those of the file.
abbrev pub AreParties : ParseResult → Interchange → Type 0
AreParties parsed i =
    (i.sender_id ≡ parsed.sender_id)
    × (i.receiver_id ≡ parsed.receiver_id)
    × (i.reference ≡ parsed.reference)
    × (i.prepared_at ≡ parsed.prepared_at)

module _ {S : Type 0} (ports : Ports.Ports S) (parser_version : Bytes) where
  module _ (K : S → Type 0) (lasts : Lasts ports parser_version K) (parsed : ParseResult)
      (i : Interchange) where
    abbrev Q : Ports.IngestResult → S → Type 0
    Q r t = IsReport parsed r × (r.interchange_id ≡ i.id) × K t

    persist_messages-Yields :
        (v : ProcessingVersion) (s : S)
        → K s
        → Yields s (persist_messages ports parser_version i v parsed) Q
    unfolding persist_messages
    persist_messages-Yields v s k =
        Yields-bind _ (λ x t. (x.1 ≡ 0 + length parsed.subscriptions) × K t) Q s
          (upsert_subscriptions ports parser_version parsed.subscriptions [] 0)
          (upsert_subscriptions-Yields ports parser_version K lasts parsed.subscriptions [] 0 s k)
          λ (ids, n) t (count, kt).
            Yields-bind
              (λ messages. store_messages ports parser_version messages >>= λ _.
                commit_and_publish ports parser_version i v n messages)
              (λ x t. (length x ≡ length parsed.messages) × K t) Q t
              (wrapped stop (build_messages ports parser_version i.id v.id parsed.messages ids))
              (Yields-wrapped stop t
                (build_messages ports parser_version i.id v.id parsed.messages ids)
                (λ x t. (length x ≡ length parsed.messages) × K t)
                (build_messages-Yields ports parser_version K lasts i.id v.id parsed.messages ids t
                  kt))
              λ ms u (len, ku).
                Yields-bind (λ _. commit_and_publish ports parser_version i v n ms) (λ _ t. K t) Q u
                  (store_messages ports parser_version ms)
                  (store_messages-Yields ports parser_version K lasts ms u ku)
                  λ _ w kw.
                    commit_and_publish-Yields ports parser_version K lasts parsed i v n ms w
                      (omega (arith, count)) len kw

    persist_version-Yields :
        (s : S) → K s → Yields s (persist_version ports parser_version i parsed) Q
    unfolding persist_version
    persist_version-Yields s k =
        Yields-bind
          (λ version.
            wrapped (λ e. stop (Ports.storing_processing_version e)) (ports.create_version version)
            >>= λ _. persist_messages ports parser_version i version parsed)
          (λ _ t. K t) Q s
          (wrapped (λ e. stop (Ports.creating_processing_version e))
            (stamped ports parser_version
              λ stamp. new_processing_version stamp i.id (pos 1) parser_version []))
          (λ _ _. lasts.stamp s k)
          λ v t kt.
            Yields-bind (λ _. persist_messages ports parser_version i v parsed) (λ _ t. K t) Q t
              (wrapped (λ e. stop (Ports.storing_processing_version e)) (ports.create_version v))
              (λ _ _. lasts.create_version v t kt) λ _ u ku. persist_messages-Yields v u ku

  recover_duplicate-err :
      (h : Bytes) (s : S) (u : Unit) → (recover_duplicate ports parser_version h s).0 ≡ ok u → ⊥
  unfolding recover_duplicate
  recover_duplicate-err h s u e = elim (Result-cases (ports.find_by_content_hash h s).0) [
    | inr (x, o) ↦ cc (rw (o, wrapped) at e)
    | inl (none, o) ↦ cc (rw (o, wrapped) at e)
    | inl (some j, o) ↦ cc (rw (o, wrapped) at e)
  ]

  module _ (K : Interchange → S → Type 0)
      (lasts : (i : Interchange) → Lasts ports parser_version (K i))
      (made : (i : Interchange) (s : S) (u : Unit)
        → (ports.create_interchange i s).0 ≡ ok u
        → K i (ports.create_interchange i s).1) where
    pub store_interchange-Yields :
        (i : Interchange) (s : S)
        → Yields s (store_interchange ports parser_version i) (λ _ t. K i t)
    unfolding store_interchange
    store_interchange-Yields i s u e = elim (Result-cases (ports.create_interchange i s).0) [
      | inl (x, o) ↦ rw (o, store_interchange) (made i s x o)
      | inr (x, o) ↦ absurd (elim (Bool-cases (is_duplicate x)) [
        | inl d ↦
            recover_duplicate-err i.content_hash (ports.create_interchange i s).1 u
              (rw (o, d, store_interchange) at e)
        | inr d ↦ cc (rw (o, d, store_interchange) at e)
      ])
    ]

    -- The interchange that a result is about.
    abbrev pub IsOf : ParseResult → Bytes → Bytes → Ports.IngestResult → S → Type 0
    IsOf parsed raw hash r t =
        (i : Interchange) × (r.interchange_id ≡ i.id)
        × ((i.content_hash ≡ hash) × (i.status ≡ completed) × (i.raw_content ≡ raw))
        × AreParties parsed i
        × K i t

    pub persist-Yields :
        (raw hash : Bytes) (parsed : ParseResult) (s : S)
        → Yields s
            (persist ports parser_version raw hash parsed)
            (λ r t. IsReport parsed r × IsOf parsed raw hash r t)
    unfolding persist
    persist-Yields raw hash parsed s =
        Yields-bind
          (λ i. store_interchange ports parser_version i >>= λ _.
            persist_version ports parser_version i parsed)
          (λ i _.
            ((i.content_hash ≡ hash) × (i.status ≡ completed) × (i.raw_content ≡ raw))
            × AreParties parsed i)
          (λ r t. IsReport parsed r × IsOf parsed raw hash r t) s
          (wrapped (λ e. stop (Ports.creating_interchange e))
            (stamped ports parser_version λ stamp.
              new_interchange stamp parsed.sender_id parsed.sender_qualifier parsed.receiver_id
                parsed.receiver_qualifier parsed.prepared_at parsed.reference raw hash))
          (λ i e. (
            new_interchange-ok (ports.new_stamp s).0 parsed.sender_id parsed.sender_qualifier
                parsed.receiver_id parsed.receiver_qualifier parsed.prepared_at parsed.reference raw
                hash i (wrap-ok _ _ i e),
            new_interchange-parties (ports.new_stamp s).0 parsed.sender_id parsed.sender_qualifier
                parsed.receiver_id parsed.receiver_qualifier parsed.prepared_at parsed.reference raw
                hash i (wrap-ok _ _ i e),
          ))
          λ i t (made_of, parties).
            Yields-bind (λ _. persist_version ports parser_version i parsed) (λ _ t. K i t)
              (λ r t. IsReport parsed r × IsOf parsed raw hash r t) t
              (store_interchange ports parser_version i) (store_interchange-Yields i t)
              λ _ u ku r e.
                let (report, id, kw) = persist_version-Yields (K i) (lasts i) parsed i u ku r e in
                (report, (i, id, made_of, parties, kw))
