-- ===== src/Ingestion/Persist.antt =====
-- The chain of calls of `persistAndPublish`: what its success says, and what of the state lasts.
use edifact_parser.Base.{
  ℕ, ◌+◌, Option, some, List, [], ◌∷◌, Bytes, codes, length, ◌≡◌, refl, arith,
}
use edifact_parser.Parser.State.{ParseResult, ParsedMessage, pos}
use edifact_parser.Domain.{Uuid, Stamp, ok}
use edifact_parser.Domain.Interchange.{Interchange, completed}
use edifact_parser.Domain.Entities.{Message, new_message, ProcessingVersion}
use edifact_parser.Domain.Event.{
  DomainEvent, get_key, new_ingested_event, new_version_created_event,
}
use edifact_parser.Domain.Event
use edifact_parser.Domain.Valid.{
  IsStamped, new_ingested_event-IsStamped, new_version_created_event-IsStamped,
}
use edifact_parser.Ingestion.Action.{pure, wrapped, after}
use edifact_parser.Ingestion.Ports
use edifact_parser.Ingestion.Yields.{Yields, Yields-bind, ok-injective}
use edifact_parser.Ingestion.Service.{
  stop, upsert_subscriptions, build_messages, store_messages, commit_and_publish, pointer, stamped,
  subscription_of, numbered,
}

-- What a completed ingestion reports of the file's parse result.
pub record IsReport (parsed : ParseResult) (r : Ports.IngestResult) : Type 0 where
  pub status : r.status ≡ completed
  pub messages : r.message_count ≡ length parsed.messages
  pub subscriptions : r.subscription_count ≡ length parsed.subscriptions
  pub ingested : DomainEvent
  pub created : DomainEvent
  pub events : r.events ≡ some ingested ∷ some created ∷ []
  pub first_stamp : Stamp
  pub second_stamp : Stamp
  pub ingested_is : IsStamped first_stamp r.interchange_id (codes "interchange.ingested") ingested
  pub created_is : IsStamped second_stamp r.interchange_id (codes "version.created") created
  pub counted :
      get_key (codes "message_count") ingested.payload
      ≡ some (Event.int (pos (length parsed.messages)))

module _ {S : Type 0} (ports : Ports.Ports S) (parser_version : Bytes) where
  -- A property of the state that every call of the pipeline behind the interchange's insert keeps.
  pub record Lasts (K : S → Type 0) : Type 0 where
    pub stamp : (s : S) → K s → K (ports.new_stamp s).1
    pub create_version : (v : ProcessingVersion) (s : S) → K s → K (ports.create_version v s).1
    pub upsert : (b : Bytes) (s : S) → K s → K (ports.upsert_by_identifier b s).1
    pub bulk_create : (ms : List Message) (s : S) → K s → K (ports.bulk_create ms s).1
    pub commit : (s : S) → K s → K (ports.commit s).1
    pub rollback : (s : S) → K s → K (ports.rollback s).1
    pub publish : (es : List (Option DomainEvent)) (s : S) → K s → K (ports.publish es s).1

  module _ (K : S → Type 0) (lasts : Lasts K) where
    pub upsert_subscriptions-Yields :
        (subs : List Bytes) (ids : List (Bytes × Uuid)) (n : ℕ) (s : S)
        → K s
        → Yields s
            (upsert_subscriptions ports parser_version subs ids n)
            (λ x t. (x.1 ≡ n + length subs) × K t)
    unfolding upsert_subscriptions
    upsert_subscriptions-Yields [] ids n s k = λ x e. (rw (← ok-injective e) (omega arith), k)
    upsert_subscriptions-Yields (b ∷ subs) ids n s k =
        Yields-bind _ (λ _ t. K t) (λ x t. (x.1 ≡ n + length (b ∷ subs)) × K t) s
          (wrapped (λ e. stop (Ports.upserting_subscription b e)) (ports.upsert_by_identifier b))
          (λ _ _. lasts.upsert b s k)
          λ sub t kt x e.
            let (c, k') = upsert_subscriptions-Yields subs ((b, sub.id) ∷ ids) (n + 1) t kt x e in
            (omega (arith, c), k')

    pub build_messages-Yields :
        (i v : Uuid) (ms : List ParsedMessage) (ids : List (Bytes × Uuid)) (s : S)
        → K s
        → Yields s
            (build_messages ports parser_version i v ms ids)
            (λ x t. (length x ≡ length ms) × K t)
    unfolding build_messages
    build_messages-Yields i v [] ids s k = λ x e. (rw (← ok-injective e) refl, k)
    build_messages-Yields i v (m ∷ ms) ids s k =
        Yields-bind _ (λ _ t. K t) (λ x t. (length x ≡ length (m ∷ ms)) × K t) s
          (wrapped (Ports.building_message m.message_reference) (
            stamped ports parser_version λ stamp.
              new_message stamp i v (subscription_of ids m.subscription_id) m.message_type
                m.message_reference (numbered 0 m.segments)))
          (λ _ _. lasts.stamp s k)
          λ msg t kt.
            Yields-bind (λ msgs. pure (ok (msg ∷ msgs))) (λ x t. (length x ≡ length ms) × K t)
              (λ x t. (length x ≡ length (m ∷ ms)) × K t) t
              (build_messages ports parser_version i v ms ids)
              (build_messages-Yields i v ms ids t kt)
              λ msgs u h x e. (rw (← ok-injective e) (omega (arith, h.0)), h.1)

    pub store_messages-Yields :
        (ms : List Message) (s : S)
        → K s
        → Yields s (store_messages ports parser_version ms) (λ _ t. K t)
    unfolding store_messages
    store_messages-Yields [] s k _ _ = k
    store_messages-Yields (m ∷ ms) s k _ _ = lasts.bulk_create (m ∷ ms) s k

    -- The result of `persist`, from its parts.
    abbrev report :
        Interchange
        → ℕ
        → List Message
        → Option DomainEvent
        → Option DomainEvent
        → Ports.IngestResult
    report i n ms ingested created = record {
      interchange_id = i.id;
      status = completed;
      message_count = length ms;
      subscription_count = n;
      events = ingested ∷ created ∷ [];
    }

    module _ (parsed : ParseResult) (i : Interchange) (v : ProcessingVersion) where
      abbrev Q : Ports.IngestResult → S → Type 0
      Q r t = IsReport parsed r × (r.interchange_id ≡ i.id) × K t

      report-IsReport :
          (n : ℕ) (ms : List Message) (a b : Stamp)
          → n ≡ length parsed.subscriptions
          → length ms ≡ length parsed.messages
          → IsReport parsed (
              report i n ms
                (pointer (new_ingested_event a i.id (pos (length ms)) i.sender_id i.receiver_id))
                (pointer (new_version_created_event b i.id v.id v.version_number v.parser_version)))
      report-IsReport n ms a b subs len =
          let (ingested, made, stamped_a, counted) =
            new_ingested_event-IsStamped a i.id (pos (length ms)) i.sender_id i.receiver_id in
          let (created, made_b, stamped_b, _) =
            new_version_created_event-IsStamped b i.id v.id v.version_number v.parser_version in
          record {
            status = refl;
            messages = len;
            subscriptions = subs;
            ingested = ingested;
            created = created;
            events = rw (made, made_b) refl;
            first_stamp = a;
            second_stamp = b;
            ingested_is = stamped_a;
            created_is = stamped_b;
            counted = rw (← len) counted;
          }

      pub commit_and_publish-Yields :
          (n : ℕ) (ms : List Message) (s : S)
          → n ≡ length parsed.subscriptions
          → length ms ≡ length parsed.messages
          → K s
          → Yields s (commit_and_publish ports parser_version i v n ms) Q
      unfolding commit_and_publish
      commit_and_publish-Yields n ms s subs len k =
          let (a, s1) = ports.new_stamp s in
          let (b, s2) = ports.new_stamp s1 in
          let k2 = lasts.stamp s1 (lasts.stamp s k) in
          let ingested =
            pointer (new_ingested_event a i.id (pos (length ms)) i.sender_id i.receiver_id) in
          let created =
            pointer (new_version_created_event b i.id v.id v.version_number v.parser_version) in
          Yields-bind
            (λ _ t. (
              ok (report i n ms ingested created),
              after (ports.publish (ingested ∷ created ∷ [])) t,
            ))
            (λ _ t. K t) Q s2 (wrapped (λ e. stop (Ports.committing_transaction e)) ports.commit)
            (λ _ _. lasts.commit s2 k2)
            λ _ t kt r e. rw (← ok-injective e) (
              report-IsReport n ms a b subs len,
              refl,
              lasts.publish (ingested ∷ created ∷ []) t kt,
            )
