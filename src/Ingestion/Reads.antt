-- ===== src/Ingestion/Reads.antt =====
-- ingestion_service.go: `GetInterchange`, `GetRawFile` and `ListMessages`.
use edifact_parser.Base.{Option, none, some, length, ◌==◌, if◌then◌else◌}
use edifact_parser.Parser.State.{ℤ, pos}
use edifact_parser.Domain.{Uuid, Result, ok, err}
use edifact_parser.Domain.Interchange.{Interchange}
use edifact_parser.Domain.Entities.{ProcessingVersion}
use edifact_parser.Domain.Filters.{MessageFilter, validate}
use edifact_parser.Ingestion.Action.{Action, ◌>>=◌, pure, wrapped}
use edifact_parser.Ingestion.Ports

abbrev pub version_summary : ProcessingVersion → Ports.ProcessingVersionSummary
version_summary v = record {
  id = v.id;
  version_number = v.version_number;
  parser_version = v.parser_version;
  format_version = v.format_version;
  created_at = v.created_at;
}

-- An error of `FindActive` leaves the version nil, one of `Count` leaves the count at 0.
abbrev pub active_version_of :
    Result Ports.RepoError ProcessingVersion → Option Ports.ProcessingVersionSummary
active_version_of (ok v) = some (version_summary v)
active_version_of (err e) = none

abbrev pub count_of : Result Ports.RepoError ℤ → ℤ
count_of (ok n) = n
count_of (err e) = pos 0

-- `filter = &model.MessageFilter{}`
abbrev pub filter_or_zero : Option MessageFilter → MessageFilter
filter_or_zero (some f) = f
filter_or_zero none = record {
  subscription_id = none;
  message_type = none;
  interchange_id = none;
  processing_version_id = none;
  limit = pos 0;
  cursor = none;
}

module _ {S : Type 0} (ports : Ports.Ports S) where
  unfoldable pub interchange_detail : Uuid → Interchange → S → Ports.InterchangeDetail × S
  interchange_detail id i s =
      let (version, t) = ports.find_active id s in
      let (number, u) = ports.count id t in
      (
        record {
          id = i.id;
          sender_id = i.sender_id;
          receiver_id = i.receiver_id;
          reference = i.reference;
          prepared_at = i.prepared_at;
          status = i.status;
          content_hash = i.content_hash;
          active_version = active_version_of version;
          message_count = count_of number;
        },
        u,
      )

  unfoldable pub get_interchange : Uuid → Action S Ports.ServiceError Ports.InterchangeDetail
  unfolding interchange_detail
  get_interchange id = do
    interchange ← wrapped Ports.fetching_interchange (ports.find_by_id id)
    (λ s. let (detail, t) = interchange_detail id interchange s in (ok detail, t))

  unfoldable pub get_raw_file : Uuid → Action S Ports.ServiceError Ports.RawFile
  get_raw_file id = do
    interchange ← wrapped Ports.fetching_raw_file (ports.find_by_id id)
    pure (
        if length interchange.raw_content == 0
        then err Ports.empty_raw_file
        else ok
            (record { content = interchange.raw_content; content_hash = interchange.content_hash }))

  unfoldable pub list_messages :
      Option MessageFilter → Action S Ports.ServiceError Ports.MessageList
  list_messages filter =
      let (e, valid) = validate (filter_or_zero filter) in
      elim e [
        | some e ↦ pure (err (Ports.validating_filter e))
        | none ↦ do
          (messages, next_cursor) ← wrapped Ports.listing_messages (ports.list_by_filter valid)
          pure (ok (record { messages = messages; next_cursor = next_cursor }))
      ]
