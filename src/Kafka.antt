-- ===== src/Kafka.antt =====
-- adapters/outbound/kafka/event_publisher.go and errors.go.
pub mod Batch
use edifact_parser.Base.{
  ℕ, Bool, Option, none, some, List, [], ◌∷◌, Bytes, length, ◌==◌, if◌then◌else◌,
}
use edifact_parser.Parser.State.{is_empty}
use edifact_parser.Domain.{Uuid, Result, ok, err}
use edifact_parser.Domain.Event.{DomainEvent, Payload}
use edifact_parser.Ingestion.Action.{Action, wrapped}

pub data PublisherError : Type 0 where
  no_brokers empty_topic : PublisherError

pub data PublishError : Type 0 where
  marshalling_event : Uuid → PublishError
  writing_events : Bytes → PublishError

-- A `kafkago.Message`; a nil key is the empty one.
pub record KafkaMessage : Type 0 where
  pub key : Bytes
  pub value : Bytes

-- The addresses and the topic of the writer that `NewPublisher` makes.
pub record Publisher : Type 0 where
  pub brokers : List Bytes
  pub topic : Bytes

unfoldable pub new_publisher : List Bytes → Bytes → Result PublisherError Publisher
new_publisher brokers topic =
    if length brokers == 0
    then err no_brokers
    else if is_empty topic
    then err empty_topic
    else ok (record { brokers = brokers; topic = topic })

-- `marshal` is encoding/json on a payload, `id_string` the text of a UUID.
module _ (marshal : Payload → Option Bytes) (id_string : Uuid → Bytes) where
  abbrev pub message_key : Option Uuid → Bytes
  message_key none = []
  message_key (some id) = id_string id

  abbrev pub cons_message :
      KafkaMessage
      → Option (Result PublishError (List KafkaMessage))
      → Option (Result PublishError (List KafkaMessage))
  cons_message m none = none
  cons_message m (some (err e)) = some (err e)
  cons_message m (some (ok ms)) = some (ok (m ∷ ms))

  -- The loop of `Publish`; none is the panic at a nil event.
  unfoldable pub kafka_messages :
      List (Option DomainEvent) → Option (Result PublishError (List KafkaMessage))
  kafka_messages [] = some (ok [])
  kafka_messages (none ∷ events) = none
  kafka_messages (some event ∷ events) =
      let rest = kafka_messages events in
      elim (marshal event.payload) [
        | none ↦ some (err (marshalling_event event.id))
        | some value ↦
            cons_message (record { key = message_key event.interchange_id; value = value }) rest
      ]

  -- `Publish`; `write_messages` is the writer's call.
  unfoldable pub publish :
      {S : Type 0}
      → (List KafkaMessage → Action S Bytes Unit)
      → List (Option DomainEvent)
      → S
      → Option (Result {0, 0} PublishError Unit × S)
  unfolding kafka_messages
  publish write_messages [] s = some (ok tt, s)
  publish write_messages (event ∷ events) s = elim (kafka_messages (event ∷ events)) [
    | none ↦ none
    | some (err e) ↦ some (err e, s)
    | some (ok messages) ↦ some (wrapped writing_events (write_messages messages) s)
  ]
