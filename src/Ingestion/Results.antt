-- ===== src/Ingestion/Results.antt =====
-- ingestion_service.go: what `IngestFile` answers, and the small steps that call nothing.
use edifact_parser.Base.{
  ℕ, ◌+◌, ◌*◌, Bool, true, false, Option, none, some, List, [], ◌∷◌, Bytes, codes, length, ltb,
  bytes_eq, ◌==◌, if◌then◌else◌,
}
use edifact_parser.Parser.State.{is_empty}
use edifact_parser.Domain.{Uuid, Result, ok, err}
use edifact_parser.Domain.Interchange.{Interchange, failed}
use edifact_parser.Ingestion.Ports

abbrev pub max_file_size : ℕ
max_file_size = 10 * 1024 * 1024

unfoldable pub validate_file : Bytes → Option Ports.ServiceError
validate_file file_data =
    if length file_data == 0
    then some Ports.file_empty
    else if ltb max_file_size (length file_data)
    then some Ports.file_too_large
    else none

-- `event, _ := …`: the pointer, nil on an error.
abbrev pub pointer : {E A : Type 0} → Result E A → Option A
pointer (ok a) = some a
pointer (err e) = none

-- `subscriptionIDs[key]`
abbrev pub lookup_id : Bytes → List (Bytes × Uuid) → Option Uuid
lookup_id key [] = none
lookup_id key ((k, id) ∷ rest) = if bytes_eq k key then some id else lookup_id key rest

abbrev pub subscription_of : List (Bytes × Uuid) → Bytes → Option Uuid
subscription_of ids subscription_id =
    if is_empty subscription_id then none else lookup_id subscription_id ids

-- `segments[fmt.Sprintf("segment_%d", index)] = seg`
abbrev pub numbered {ℓ} : {A : Type ℓ} → ℕ → List A → List (ℕ × A)
numbered i [] = []
numbered i (x ∷ xs) = (i, x) ∷ numbered (i + 1) xs

-- `errors.Is(err, model.ErrDuplicateInterchange)`
abbrev pub is_duplicate : Ports.RepoError → Bool
is_duplicate Ports.duplicate_interchange = true
is_duplicate _ = false

-- What `IngestFile` returns: Go's result, none for nil, and its error, none for nil.
pub record Reply : Type 0 where
  pub result : Option Ports.IngestResult
  pub error : Option Ports.ServiceError

abbrev pub replied : Ports.IngestResult → Reply
replied result = record { result = some result; error = none }

abbrev pub refused : Ports.ServiceError → Reply
refused e = record { result = none; error = some e }

abbrev pub existing_result : Interchange → Ports.IngestResult
existing_result i = record {
  interchange_id = i.id;
  status = i.status;
  message_count = 0;
  subscription_count = 0;
  events = [];
}

-- Why the pipeline stops early: an error, or a duplicate with what is stored already.
pub data Stop : Type 0 where
  stop : Ports.ServiceError → Stop
  stop_duplicate : Ports.IngestResult → Stop

abbrev pub reply_of : Result Stop Ports.IngestResult → Reply
reply_of (ok result) = replied result
reply_of (err (stop e)) = refused e
reply_of (err (stop_duplicate result)) = record {
  result = some result;
  error = some Ports.duplicate;
}

abbrev pub unknown : Bytes
unknown = codes "UNKNOWN"

-- The record of a file that does not parse; its other fields keep Go's zero values.
abbrev pub failed_interchange : Uuid → Bytes → Bytes → Bytes → Interchange
failed_interchange id raw_content content_hash detail = record {
  id = id;
  sender_id = unknown;
  sender_qualifier = [];
  receiver_id = unknown;
  receiver_qualifier = [];
  prepared_at = 0;
  reference = unknown;
  raw_content = raw_content;
  content_hash = content_hash;
  status = failed;
  error_detail = some detail;
  created_at = 0;
  updated_at = 0;
}

-- `existing, err := …; err == nil && existing != nil`
abbrev pub found : Result Ports.RepoError (Option Interchange) → Option Interchange
found (ok o) = o
found (err e) = none
