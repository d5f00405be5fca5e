-- ===== src/Repos/Interchanges.antt =====
-- interchange_repository.go.
use edifact_parser.Base.{ℕ, Option, [], Bytes, codes, bytes_eq, ◌==◌, if◌then◌else◌}
use edifact_parser.Domain.{Uuid, ok, err}
use edifact_parser.Domain.Interchange.{Interchange, InterchangeStatus}
use edifact_parser.Ingestion.Action.{Action, ◌>>=◌, pure, wrapped}
use edifact_parser.Ingestion.Ports
use edifact_parser.Repos.Database.{DbError, no_rows, pg_error, failed, Database}
use edifact_parser.Repos.Messages.{db_error}

-- "23505", the code of a unique violation.
abbrev pub unique_violation : Bytes
unique_violation = codes "23505"

-- The error of `Create`.
abbrev pub create_error : DbError → Ports.RepoError
create_error no_rows = Ports.other []
create_error (pg_error code) =
    if bytes_eq code unique_violation then Ports.duplicate_interchange else Ports.other code
create_error (failed text) = Ports.other text

-- `scanOne`
abbrev pub interchange_error : DbError → Ports.RepoError
interchange_error no_rows = Ports.interchange_not_found
interchange_error (pg_error code) = Ports.other code
interchange_error (failed text) = Ports.other text

module _ {S : Type 0} (db : Database S) where
  unfoldable pub create_interchange : Interchange → Action S Ports.RepoError Unit
  create_interchange interchange = wrapped create_error (db.insert_interchange interchange)

  unfoldable pub find_by_content_hash : Bytes → Action S Ports.RepoError Interchange
  find_by_content_hash hash = wrapped interchange_error (db.select_interchange_by_hash hash)

  unfoldable pub find_by_id : Uuid → Action S Ports.RepoError Interchange
  find_by_id id = wrapped interchange_error (db.select_interchange_by_id id)

  -- `UpdateStatus`, at the time `now`.
  unfoldable pub update_status :
      Uuid → InterchangeStatus → Option Bytes → ℕ → Action S Ports.RepoError Unit
  update_status id status detail now = do
    affected ← wrapped db_error (db.update_interchange_status id status detail now)
    pure (if affected == 0 then err Ports.interchange_not_found else ok tt)
