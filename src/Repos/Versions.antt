-- ===== src/Repos/Versions.antt =====
-- processing_version_repository.go.
use edifact_parser.Base.{
  ℕ, Bool, true, false, Option, none, some, List, [], ◌∷◌, map, ◌==◌, if◌then◌else◌, length, filter,
}
use edifact_parser.Parser.State.{ℤ}
use edifact_parser.Domain.{Uuid, ok, err}
use edifact_parser.Domain.Entities.{ProcessingVersion}
use edifact_parser.Ingestion.Action.{Action, ◌>>=◌, pure, wrapped}
use edifact_parser.Ingestion.Ports
use edifact_parser.Repos.Database.{
  DbError, no_rows, pg_error, failed, ProcessingVersionRow, Database,
}
use edifact_parser.Repos.Messages.{db_error}

-- `scanOne`
abbrev pub version_error : DbError → Ports.RepoError
version_error no_rows = Ports.processing_version_not_found
version_error (pg_error code) = Ports.other code
version_error (failed text) = Ports.other text

-- The format version is not among the columns, and is read back empty.
unfoldable pub row_to_version : ProcessingVersionRow → ProcessingVersion
row_to_version row = record {
  id = row.id;
  interchange_id = row.interchange_id;
  version_number = row.version_number;
  parser_version = row.parser_version;
  format_version = [];
  is_active = row.is_active;
  created_at = row.created_at;
}

abbrev pub row_of_version : ProcessingVersion → ProcessingVersionRow
row_of_version v = record {
  id = v.id;
  interchange_id = v.interchange_id;
  version_number = v.version_number;
  parser_version = v.parser_version;
  is_active = v.is_active;
  created_at = v.created_at;
}

module _ {S : Type 0} (db : Database S) where
  unfoldable pub create_version : ProcessingVersion → Action S Ports.RepoError Unit
  create_version v = wrapped db_error (db.insert_version (row_of_version v))

  abbrev pub scan_version :
      Action S DbError ProcessingVersionRow → Action S Ports.RepoError ProcessingVersion
  scan_version select = do row ← wrapped version_error select; pure (ok (row_to_version row))

  unfoldable pub find_active : Uuid → Action S Ports.RepoError ProcessingVersion
  find_active interchange_id = scan_version (db.select_active_version interchange_id)

  unfoldable pub find_by_interchange_and_version :
      Uuid → ℤ → Action S Ports.RepoError ProcessingVersion
  find_by_interchange_and_version interchange_id version_number =
      scan_version (db.select_version interchange_id version_number)

  unfoldable pub deactivate_all : Uuid → Action S Ports.RepoError Unit
  deactivate_all interchange_id = do
    _ ← wrapped db_error (db.deactivate_all interchange_id)
    pure (ok tt)

  -- `Activate`: two statements, and no transaction around them.
  unfoldable pub activate_version : Uuid → Action S Ports.RepoError Unit
  activate_version version_id = do
    _ ← wrapped db_error (db.deactivate_siblings version_id)
    affected ← wrapped db_error (db.activate_version version_id)
    pure (if affected == 0 then err Ports.processing_version_not_found else ok tt)

-- What the two UPDATE statements of `Activate` make of the rows of the table.
unfoldable pub interchange_of : Uuid → List ProcessingVersionRow → Option Uuid
interchange_of id [] = none
interchange_of id (row ∷ rows) =
    let rest = interchange_of id rows in if row.id == id then some row.interchange_id else rest

-- `interchange_id = (SELECT …)`; an equation with NULL does not hold.
abbrev pub in_interchange : Option Uuid → ProcessingVersionRow → Bool
in_interchange none row = false
in_interchange (some x) row = row.interchange_id == x

abbrev pub deactivated_in : Option Uuid → ProcessingVersionRow → ProcessingVersionRow
deactivated_in x row = if in_interchange x row then record row { is_active = false } else row

unfoldable pub siblings_deactivated : Uuid → List ProcessingVersionRow → List ProcessingVersionRow
unfolding interchange_of
siblings_deactivated id rows = map (deactivated_in (interchange_of id rows)) rows

abbrev pub activated_by : Uuid → ProcessingVersionRow → ProcessingVersionRow
activated_by id row = if row.id == id then record row { is_active = true } else row

unfoldable pub version_activated : Uuid → List ProcessingVersionRow → List ProcessingVersionRow
version_activated id rows = map (activated_by id) rows

-- The rows that the second statement affects.
unfoldable pub affected_by : Uuid → List ProcessingVersionRow → ℕ
affected_by id rows = length (filter (λ row. row.id == id) rows)
