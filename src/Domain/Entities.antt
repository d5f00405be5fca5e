-- ===== src/Domain/Entities.antt =====
-- message.go, processing_version.go and subscription.go.
use edifact_parser.Base.{ℕ, Bool, true, false, Option, List, Bytes, ltb, if◌then◌else◌}
use edifact_parser.Parser.State.{Key, Value, is_empty, ℤ, pos, negsuc}
use edifact_parser.Domain.{
  DomainError, empty_identifier, empty_message_reference, empty_message_type, empty_parser_version,
  invalid_version_number, Uuid, Stamp, Result, ok, err,
}

-- The segments map has the keys "segment_0", "segment_1", …, which are kept as their numbers.
pub record Message : Type 0 where
  pub id : Uuid
  pub interchange_id : Uuid
  pub processing_version_id : Uuid
  pub subscription_id : Option Uuid
  pub message_type : Bytes
  pub message_reference : Bytes
  pub segments : List (ℕ × List (Key × Value))
  pub created_at : ℕ

unfoldable pub new_message :
    Stamp
    → Uuid
    → Uuid
    → Option Uuid
    → Bytes
    → Bytes
    → List (ℕ × List (Key × Value))
    → Result DomainError Message
new_message stamp interchange_id version_id subscription_id msg_type msg_ref segments =
    if is_empty msg_type
    then err empty_message_type
    else if is_empty msg_ref
    then err empty_message_reference
    else ok (record {
      id = stamp.id;
      interchange_id = interchange_id;
      processing_version_id = version_id;
      subscription_id = subscription_id;
      message_type = msg_type;
      message_reference = msg_ref;
      segments = segments;
      created_at = stamp.now;
    })

pub record ProcessingVersion : Type 0 where
  pub id : Uuid
  pub interchange_id : Uuid
  pub version_number : ℤ
  pub parser_version : Bytes
  pub format_version : Bytes
  pub is_active : Bool
  pub created_at : ℕ

-- `versionNumber < 1`
abbrev pub below_one : ℤ → Bool
below_one (pos n) = ltb n 1
below_one (negsuc n) = true

unfoldable pub new_processing_version :
    Stamp → Uuid → ℤ → Bytes → Bytes → Result DomainError ProcessingVersion
new_processing_version stamp interchange_id version_number parser_version format_version =
    if below_one version_number
    then err invalid_version_number
    else if is_empty parser_version
    then err empty_parser_version
    else ok (record {
      id = stamp.id;
      interchange_id = interchange_id;
      version_number = version_number;
      parser_version = parser_version;
      format_version = format_version;
      is_active = true;
      created_at = stamp.now;
    })

unfoldable pub deactivate : ProcessingVersion → ProcessingVersion
deactivate v = record v { is_active = false }

unfoldable pub activate : ProcessingVersion → ProcessingVersion
activate v = record v { is_active = true }

pub record Subscription : Type 0 where
  pub id : Uuid
  pub identifier : Bytes
  pub created_at : ℕ

unfoldable pub new_subscription : Stamp → Bytes → Result DomainError Subscription
new_subscription stamp identifier =
    if is_empty identifier
    then err empty_identifier
    else ok (record { id = stamp.id; identifier = identifier; created_at = stamp.now })
