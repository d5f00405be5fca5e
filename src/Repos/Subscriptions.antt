-- ===== src/Repos/Subscriptions.antt =====
-- subscription_repository.go.
use edifact_parser.Base.{List, Bytes}
use edifact_parser.Domain.{Uuid, Stamp}
use edifact_parser.Domain.Entities.{Subscription, new_subscription}
use edifact_parser.Ingestion.Action.{Action, ◌>>=◌, pure, wrapped}
use edifact_parser.Ingestion.Ports
use edifact_parser.Repos.Database.{DbError, no_rows, pg_error, failed, Database}
use edifact_parser.Repos.Messages.{db_error}

-- `scanOne`
abbrev pub subscription_error : DbError → Ports.RepoError
subscription_error no_rows = Ports.subscription_not_found
subscription_error (pg_error code) = Ports.other code
subscription_error (failed text) = Ports.other text

module _ {S : Type 0} (db : Database S) (new_stamp : S → Stamp × S) where
  abbrev pub stamped_subscription : Bytes → Action S Ports.RepoError Subscription
  stamped_subscription identifier s =
      let (stamp, t) = new_stamp s in
      wrapped (λ e. Ports.invalid_subscription e) (pure (new_subscription stamp identifier)) t

  -- `UpsertByIdentifier`
  unfoldable pub upsert_by_identifier : Bytes → Action S Ports.RepoError Subscription
  upsert_by_identifier identifier = do
    sub ← stamped_subscription identifier
    _ ← wrapped db_error (db.insert_subscription sub)
    wrapped subscription_error (db.select_subscription_by_identifier identifier)

module _ {S : Type 0} (db : Database S) where
  unfoldable pub find_subscription : Uuid → Action S Ports.RepoError Subscription
  find_subscription id = wrapped subscription_error (db.select_subscription_by_id id)

  unfoldable pub find_all : Action S Ports.RepoError (List Subscription)
  find_all = wrapped db_error db.select_subscriptions
