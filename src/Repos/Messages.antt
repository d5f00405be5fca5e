-- ===== src/Repos/Messages.antt =====
-- message_repository.go.
use edifact_parser.Base.{
  ℕ, zero, suc, ◌+◌, ◌-◌, Option, none, some, List, [], ◌∷◌, ◌++◌, Bytes, length, take, get_elem?,
  ltb, ◌==◌, if◌then◌else◌,
}
use edifact_parser.Parser.State.{ℤ, pos, negsuc}
use edifact_parser.Domain.{Uuid, Result, ok, err}
use edifact_parser.Domain.Entities.{Message}
use edifact_parser.Domain.Filters.{MessageFilter, validate}
use edifact_parser.Ingestion.Action.{Action, ◌>>=◌, pure, wrapped}
use edifact_parser.Ingestion.Ports
use edifact_parser.Repos.Database.{
  DbError, no_rows, pg_error, failed, MessageRow, Condition, interchange_is, version_is,
  subscription_is, type_is, id_above, Database, Codec, Segments,
}

-- `%w` around an error of the database that the caller does not look at.
abbrev pub db_error : DbError → Ports.RepoError
db_error no_rows = Ports.other []
db_error (pg_error code) = Ports.other code
db_error (failed text) = Ports.other text

-- `builder.Where(sq.Eq{…})` for a filter field that is set.
abbrev pub where_some : {A : Type 0} → (A → Condition) → Option A → List Condition
where_some condition none = []
where_some condition (some a) = condition a ∷ []

unfoldable pub filter_conditions : MessageFilter → List Condition
filter_conditions f =
    where_some interchange_is f.interchange_id
    ++ where_some version_is f.processing_version_id
    ++ where_some subscription_is f.subscription_id
    ++ where_some type_is f.message_type

-- `uint64(filter.Limit)`
abbrev pub uint64 : ℤ → ℕ
uint64 (pos n) = n
uint64 (negsuc n) = 18_446_744_073_709_551_616 - (n + 1)

-- `filter.Limit + 1`
abbrev pub one_more : ℤ → ℤ
one_more (pos n) = pos (n + 1)
one_more (negsuc zero) = pos 0
one_more (negsuc (suc n)) = negsuc n

module _ (codec : Codec) where
  abbrev pub message_of_segments : MessageRow → Option Segments → Result Ports.RepoError Message
  message_of_segments row none = err Ports.unmarshalling_segments
  message_of_segments row (some segments) = ok (record {
    id = row.id;
    interchange_id = row.interchange_id;
    processing_version_id = row.processing_version_id;
    subscription_id = row.subscription_id;
    message_type = row.message_type;
    message_reference = row.reference;
    segments = segments;
    created_at = row.created_at;
  })

  -- A column of no bytes leaves the map nil.
  unfoldable pub row_to_message : MessageRow → Result Ports.RepoError Message
  row_to_message row =
      message_of_segments row
        (if length row.segments == 0 then some [] else codec.unmarshal row.segments)

  abbrev pub row_of_segments : Message → Option Bytes → Result Ports.RepoError MessageRow
  row_of_segments m none = err Ports.marshalling_segments
  row_of_segments m (some segments) = ok (record {
    id = m.id;
    interchange_id = m.interchange_id;
    processing_version_id = m.processing_version_id;
    subscription_id = m.subscription_id;
    message_type = m.message_type;
    reference = m.message_reference;
    segments = segments;
    created_at = m.created_at;
  })

  abbrev pub cons_result : {E A : Type 0} → Result E A → Result E (List A) → Result E (List A)
  cons_result (err e) rest = err e
  cons_result (ok a) (err e) = err e
  cons_result (ok a) (ok as_) = ok (a ∷ as_)

  -- The loop over the messages of `BulkCreate`.
  unfoldable pub message_rows : List Message → Result Ports.RepoError (List MessageRow)
  message_rows [] = ok []
  message_rows (m ∷ ms) =
      cons_result (row_of_segments m (codec.marshal m.segments)) (message_rows ms)

  -- The loop over the rows of `ListByFilter`.
  unfoldable pub rows_to_messages : List MessageRow → Result Ports.RepoError (List Message)
  unfolding row_to_message
  rows_to_messages [] = ok []
  rows_to_messages (row ∷ rows) = cons_result (row_to_message row) (rows_to_messages rows)

  -- `uuid.Parse(*filter.Cursor)`
  abbrev pub cursor_condition : Option Bytes → Result Ports.RepoError (List Condition)
  cursor_condition none = ok []
  cursor_condition (some text) = elim (codec.uuid_parse text) [
    | none ↦ err Ports.parsing_cursor
    | some id ↦ ok (id_above id ∷ [])
  ]

  -- `rows[filter.Limit-1].ID.String()`
  abbrev pub cursor_at : Option MessageRow → Option Bytes
  cursor_at none = none
  cursor_at (some row) = some (codec.uuid_string row.id)

  -- The page of at most `n` rows, and the cursor to the next one.
  unfoldable pub page_of :
      ℕ → List MessageRow → Result Ports.RepoError (List Message × Option Bytes)
  unfolding rows_to_messages
  page_of n rows =
      let kept = if ltb n (length rows) then take n rows else rows in
      let next = if ltb n (length rows) then cursor_at (get_elem? kept (n - 1)) else none in
      elim (rows_to_messages kept) [ err e ↦ err e | ok messages ↦ ok (messages, next) ]

module _ {S : Type 0} (db : Database S) (codec : Codec) where
  unfoldable pub bulk_create : List Message → Action S Ports.RepoError Unit
  unfolding message_rows
  bulk_create [] = pure (ok tt)
  bulk_create (m ∷ ms) = do
    rows ← pure (message_rows codec (m ∷ ms))
    wrapped db_error (db.insert_messages rows)

  -- `ListByFilter`
  unfoldable pub list_by_filter :
      MessageFilter → Action S Ports.RepoError (List Message × Option Bytes)
  unfolding filter_conditions page_of
  list_by_filter filter =
      let (e, valid) = validate filter in
      elim e [
        | some x ↦ pure (err (Ports.invalid_filter x))
        | none ↦ do
          cursor ← pure (cursor_condition codec valid.cursor)
          rows ← wrapped db_error (
              db.select_messages (record {
                conditions = filter_conditions valid ++ cursor;
                limit = uint64 (one_more valid.limit);
              }))
          pure (page_of codec (uint64 valid.limit) rows)
      ]

  unfoldable pub count : Uuid → Action S Ports.RepoError ℤ
  count interchange_id = wrapped db_error (db.count_messages interchange_id)
