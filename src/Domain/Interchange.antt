-- ===== src/Domain/Interchange.antt =====
-- interchange.go and status.go.
use edifact_parser.Base.{
  ℕ, Bool, true, ◌&&◌, ◌||◌, Option, none, some, [], ◌∷◌, Bytes, codes, length, leb, bytes_eq, ◌==◌,
  if◌then◌else◌,
}
use edifact_parser.Parser.State.{is_empty}
use edifact_parser.Domain.{
  DomainError, empty_content_hash, empty_raw_content, empty_reason, empty_receiver, empty_reference,
  empty_sender, Uuid, Stamp, Result, ok, err,
}

pub data InterchangeStatus : Type 0 where
  completed failed : InterchangeStatus

abbrev pub status_string : InterchangeStatus → Bytes
status_string completed = codes "completed"
status_string failed = codes "failed"

-- `IsValid` on the strings that a status column may hold.
abbrev pub is_valid_status : Bytes → Bool
is_valid_status s = bytes_eq s (codes "completed") || bytes_eq s (codes "failed")

pub record Interchange : Type 0 where
  pub id : Uuid
  pub sender_id : Bytes
  pub sender_qualifier : Bytes
  pub receiver_id : Bytes
  pub receiver_qualifier : Bytes
  pub prepared_at : ℕ
  pub reference : Bytes
  pub raw_content : Bytes
  pub content_hash : Bytes
  pub status : InterchangeStatus
  pub error_detail : Option Bytes
  pub created_at : ℕ
  pub updated_at : ℕ

abbrev pub sha256_hex_len : ℕ
sha256_hex_len = 64

-- A byte that `hex.DecodeString` reads.
abbrev pub is_hex_digit : ℕ → Bool
is_hex_digit c =
    (leb b'0' c && leb c b'9') || (leb b'a' c && leb c b'f') || (leb b'A' c && leb c b'F')

abbrev pub all_hex : Bytes → Bool
all_hex [] = true
all_hex (c ∷ cs) = is_hex_digit c && all_hex cs

unfoldable pub validate_content_hash : Bytes → Option DomainError
validate_content_hash hash =
    if length hash == sha256_hex_len
    then if all_hex hash then none else some empty_content_hash
    else some empty_content_hash

unfoldable pub new_interchange :
    Stamp
    → Bytes
    → Bytes
    → Bytes
    → Bytes
    → ℕ
    → Bytes
    → Bytes
    → Bytes
    → Result DomainError Interchange
new_interchange stamp sender sender_qualifier receiver receiver_qualifier prepared_at reference
      raw_content content_hash =
    if is_empty sender
    then err empty_sender
    else if is_empty receiver
    then err empty_receiver
    else if is_empty reference
    then err empty_reference
    else if length raw_content == 0
    then err empty_raw_content
    else elim (validate_content_hash content_hash) [
      | some e ↦ err e
      | none ↦ ok (record {
        id = stamp.id;
        sender_id = sender;
        sender_qualifier = sender_qualifier;
        receiver_id = receiver;
        receiver_qualifier = receiver_qualifier;
        prepared_at = prepared_at;
        reference = reference;
        raw_content = raw_content;
        content_hash = content_hash;
        status = completed;
        error_detail = none;
        created_at = stamp.now;
        updated_at = stamp.now;
      })
    ]

-- `MarkFailed`: the error, and the interchange as the call leaves it.
unfoldable pub mark_failed : ℕ → Bytes → Interchange → Option DomainError × Interchange
mark_failed now reason i =
    if is_empty reason
    then (some empty_reason, i)
    else (none, record i { status = failed; error_detail = some reason; updated_at = now })
