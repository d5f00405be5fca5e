-- ===== src/Domain/Event.antt =====
-- domain_event.go.
use edifact_parser.Base.{
  ℕ, Option, none, some, List, [], ◌∷◌, Bytes, codes, bytes_eq, if◌then◌else◌,
}
use edifact_parser.Parser.State.{is_empty, ℤ}
use edifact_parser.Domain.{DomainError, event_type_empty, Uuid, Stamp, Result, ok, err}

-- The values that a payload map holds; the strings that uuid.UUID.String and time.Time.Format
-- print are kept as what they print.
pub data PayloadValue : Type 0 where
  string : Bytes → PayloadValue
  int : ℤ → PayloadValue
  uuid_string : Uuid → PayloadValue
  time_string : ℕ → PayloadValue

abbrev pub Payload : Type 0
Payload = List (Bytes × PayloadValue)

-- `payload[key] = value`
unfoldable pub set_key : Bytes → PayloadValue → Payload → Payload
set_key key value [] = (key, value) ∷ []
set_key key value ((k, v) ∷ rest) =
    let others = set_key key value rest in
    if bytes_eq k key then (key, value) ∷ rest else (k, v) ∷ others

unfoldable pub get_key : Bytes → Payload → Option PayloadValue
get_key key [] = none
get_key key ((k, v) ∷ rest) =
    let found = get_key key rest in if bytes_eq k key then some v else found

pub record DomainEvent : Type 0 where
  pub id : Uuid
  pub interchange_id : Option Uuid
  pub event_type : Bytes
  pub payload : Payload
  pub created_at : ℕ

abbrev pub interchange_ingested : Bytes
interchange_ingested = codes "interchange.ingested"

abbrev pub interchange_failed : Bytes
interchange_failed = codes "interchange.failed"

abbrev pub version_created : Bytes
version_created = codes "version.created"

abbrev pub version_activated : Bytes
version_activated = codes "version.activated"

abbrev pub version_rolled_back : Bytes
version_rolled_back = codes "version.rolled_back"

-- `if payload == nil { payload = map[string]any{} }`
abbrev pub or_empty : Option Payload → Payload
or_empty none = []
or_empty (some payload) = payload

abbrev pub set_interchange : Option Uuid → Payload → Payload
set_interchange none payload = payload
set_interchange (some id) payload = set_key (codes "interchange_id") (uuid_string id) payload

unfoldable pub new_domain_event :
    Stamp → Option Uuid → Bytes → Option Payload → Result DomainError DomainEvent
new_domain_event stamp interchange_id event_type payload =
    if is_empty event_type
    then err event_type_empty
    else let identified = set_key (codes "event_id") (uuid_string stamp.id) (or_empty payload) in
      let typed = set_key (codes "event_type") (string event_type) identified in
      let dated = set_key (codes "occurred_at") (time_string stamp.now) typed in
      ok (record {
        id = stamp.id;
        interchange_id = interchange_id;
        event_type = event_type;
        payload = set_interchange interchange_id dated;
        created_at = stamp.now;
      })

unfoldable pub new_ingested_event :
    Stamp → Uuid → ℤ → Bytes → Bytes → Result DomainError DomainEvent
new_ingested_event stamp interchange_id message_count sender receiver =
    new_domain_event stamp (some interchange_id) interchange_ingested (
      some (
        (codes "message_count", int message_count)
        ∷ (codes "sender", string sender)
        ∷ (codes "receiver", string receiver)
        ∷ []))

unfoldable pub new_failed_event : Stamp → Uuid → Bytes → Result DomainError DomainEvent
new_failed_event stamp interchange_id err_msg =
    new_domain_event stamp (some interchange_id) interchange_failed
      (some ((codes "error", string err_msg) ∷ []))

unfoldable pub new_version_created_event :
    Stamp → Uuid → Uuid → ℤ → Bytes → Result DomainError DomainEvent
new_version_created_event stamp interchange_id version_id version_number parser_version =
    new_domain_event stamp (some interchange_id) version_created (
      some (
        (codes "version_id", uuid_string version_id)
        ∷ (codes "version_number", int version_number)
        ∷ (codes "parser_version", string parser_version)
        ∷ []))

unfoldable pub new_version_activated_event :
    Stamp → Uuid → Uuid → ℤ → Result DomainError DomainEvent
new_version_activated_event stamp interchange_id version_id version_number =
    new_domain_event stamp (some interchange_id) version_activated (
      some (
        (codes "version_id", uuid_string version_id)
        ∷ (codes "version_number", int version_number)
        ∷ []))

unfoldable pub new_version_rolled_back_event : Stamp → Uuid → ℤ → ℤ → Result DomainError DomainEvent
new_version_rolled_back_event stamp interchange_id from_version to_version =
    new_domain_event stamp (some interchange_id) version_rolled_back
      (some ((codes "from_version", int from_version) ∷ (codes "to_version", int to_version) ∷ []))
