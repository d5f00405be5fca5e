-- ===== src/Ingestion/Partial.antt =====
-- What an ingestion that fails halfway leaves behind.
use edifact_parser.Base.{ℕ, ◌+◌, List, [], ◌∷◌, Bytes}
use edifact_parser.Parser.State.{ParseResult, ParsedMessage, pos}
use edifact_parser.Domain.{Uuid, ok}
use edifact_parser.Domain.Interchange.{Interchange}
use edifact_parser.Domain.Entities.{Message, ProcessingVersion, new_message, new_processing_version}
use edifact_parser.Ingestion.Action.{◌>>=◌, pure, wrapped}
use edifact_parser.Ingestion.Ports
use edifact_parser.Ingestion.Yields.{keeps-bind}
use edifact_parser.Ingestion.Persist.{Lasts}
use edifact_parser.Ingestion.Service.{
  stop, subscription_of, numbered, stamped, upsert_subscriptions, build_messages, store_messages,
  commit_and_publish, persist_messages, persist_version,
}

module _ {S : Type 0} (ports : Ports.Ports S) (parser_version : Bytes) (K : S → Type 0)
    (lasts : Lasts ports parser_version K) where
  upsert_subscriptions-keeps :
      (subs : List Bytes) (ids : List (Bytes × Uuid)) (n : ℕ) (s : S)
      → K s
      → K (upsert_subscriptions ports parser_version subs ids n s).1
  unfolding upsert_subscriptions
  upsert_subscriptions-keeps [] ids n s k = k
  upsert_subscriptions-keeps (b ∷ subs) ids n s k =
      keeps-bind K
        (wrapped (λ e. stop (Ports.upserting_subscription b e)) (ports.upsert_by_identifier b))
        (λ sub. upsert_subscriptions ports parser_version subs ((b, sub.id) ∷ ids) (n + 1)) s
        (lasts.upsert b s k)
        λ sub t kt. upsert_subscriptions-keeps subs ((b, sub.id) ∷ ids) (n + 1) t kt

  build_messages-keeps :
      (i v : Uuid) (pms : List ParsedMessage) (ids : List (Bytes × Uuid)) (s : S)
      → K s
      → K (build_messages ports parser_version i v pms ids s).1
  unfolding build_messages
  build_messages-keeps i v [] ids s k = k
  build_messages-keeps i v (pm ∷ pms) ids s k =
      keeps-bind K
        (wrapped (Ports.building_message pm.message_reference) (
          stamped ports parser_version λ stamp.
            new_message stamp i v (subscription_of ids pm.subscription_id) pm.message_type
              pm.message_reference (numbered 0 pm.segments)))
        (λ msg. build_messages ports parser_version i v pms ids >>= λ msgs. pure (ok (msg ∷ msgs)))
        s (lasts.stamp s k)
        λ msg t kt.
          keeps-bind K (build_messages ports parser_version i v pms ids)
            (λ msgs. pure (ok (msg ∷ msgs))) t (build_messages-keeps i v pms ids t kt)
            λ msgs u ku. ku

  store_messages-keeps :
      (ms : List Message) (s : S) → K s → K (store_messages ports parser_version ms s).1
  unfolding store_messages
  store_messages-keeps [] s k = k
  store_messages-keeps (m ∷ ms) s k = lasts.bulk_create (m ∷ ms) s k

  commit_and_publish-keeps :
      (i : Interchange) (v : ProcessingVersion) (n : ℕ) (ms : List Message) (s : S)
      → K s
      → K (commit_and_publish ports parser_version i v n ms s).1
  unfolding commit_and_publish
  commit_and_publish-keeps i v n ms s k =
      let t = (ports.new_stamp s).1 in
      let u = (ports.new_stamp t).1 in
      keeps-bind K (wrapped (λ e. stop (Ports.committing_transaction e)) ports.commit) _ u
        (lasts.commit u (lasts.stamp t (lasts.stamp s k))) λ _ w kw. lasts.publish _ w kw

  persist_messages-keeps :
      (i : Interchange) (v : ProcessingVersion) (parsed : ParseResult) (s : S)
      → K s
      → K (persist_messages ports parser_version i v parsed s).1
  unfolding persist_messages
  persist_messages-keeps i v parsed s k =
      keeps-bind K (upsert_subscriptions ports parser_version parsed.subscriptions [] 0) _ s
        (upsert_subscriptions-keeps parsed.subscriptions [] 0 s k)
        λ (ids, n) t kt.
          keeps-bind K
            (wrapped stop (build_messages ports parser_version i.id v.id parsed.messages ids)) _ t
            (build_messages-keeps i.id v.id parsed.messages ids t kt)
            λ ms u ku.
              keeps-bind K (store_messages ports parser_version ms) _ u
                (store_messages-keeps ms u ku) λ _ w kw. commit_and_publish-keeps i v n ms w kw

  pub persist_version-keeps :
      (i : Interchange) (parsed : ParseResult) (s : S)
      → K s
      → K (persist_version ports parser_version i parsed s).1
  unfolding persist_version
  persist_version-keeps i parsed s k =
      keeps-bind K
        (wrapped (λ e. stop (Ports.creating_processing_version e))
          (stamped ports parser_version
            λ stamp. new_processing_version stamp i.id (pos 1) parser_version []))
        _ s (lasts.stamp s k)
        λ v t kt.
          keeps-bind K
            (wrapped (λ e. stop (Ports.storing_processing_version e)) (ports.create_version v)) _ t
            (lasts.create_version v t kt) λ _ u ku. persist_messages-keeps i v parsed u ku
