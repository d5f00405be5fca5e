-- ===== src/Repos/Service.antt =====
-- The ports of the service, with the repositories behind them.
use edifact_parser.Base.{Option, some, List, Bytes, ◌≡◌, refl, inl, inr}
use edifact_parser.Parser.State.{ParseResult}
use edifact_parser.Domain.{Stamp, Result, ok}
use edifact_parser.Domain.Interchange.{Interchange}
use edifact_parser.Domain.Entities.{Subscription}
use edifact_parser.Domain.Event.{DomainEvent}
use edifact_parser.Ingestion.Action.{Action, ◌>>=◌, pure}
use edifact_parser.Ingestion.Ports
use edifact_parser.Repos.Database.{MessageRow, ProcessingVersionRow, Database, Codec}
use edifact_parser.Repos.Messages.{bulk_create, list_by_filter, count}
use edifact_parser.Repos.Versions.{create_version, find_active}
use edifact_parser.Repos.Subscriptions.{upsert_by_identifier}
use edifact_parser.Repos.Interchanges.{create_interchange, find_by_content_hash, find_by_id}
use edifact_parser.Ingestion.Yields.{Result-cases}

-- What the service takes from elsewhere: the parser, the transactions, the publisher, identities
-- with the time, and SHA-256.
pub record Outside (S : Type 0) : Type 0 where
  pub parse : Bytes → Option (Result Bytes ParseResult)
  pub begin : Action S Ports.RepoError Unit
  pub commit : Action S Ports.RepoError Unit
  pub rollback : Action S Ports.RepoError Unit
  pub publish : List (Option DomainEvent) → Action S Ports.RepoError Unit
  pub new_stamp : S → Stamp × S
  pub sha256_hex : Bytes → Bytes

module _ {S : Type 0} (db : Database S) (codec : Codec) (outside : Outside S) where
  -- A repository never answers with a nil interchange.
  abbrev pub found_interchange : Bytes → Action S Ports.RepoError (Option Interchange)
  found_interchange hash = do i ← find_by_content_hash db hash; pure (ok (some i))

  -- The wiring of `initializeDependencies`.
  abbrev pub repository_ports : Ports.Ports S
  repository_ports = record {
    parse = outside.parse;
    create_interchange = create_interchange db;
    find_by_content_hash = found_interchange;
    find_by_id = find_by_id db;
    create_version = create_version db;
    find_active = find_active db;
    bulk_create = bulk_create db codec;
    list_by_filter = list_by_filter db codec;
    count = count db codec;
    upsert_by_identifier = upsert_by_identifier db outside.new_stamp;
    begin = outside.begin;
    commit = outside.commit;
    rollback = outside.rollback;
    publish = outside.publish;
    new_stamp = outside.new_stamp;
    sha256_hex = outside.sha256_hex;
  }

  pub found_state :
      (hash : Bytes) (s : S)
      → (found_interchange hash s).1 ≡ (db.select_interchange_by_hash hash s).1
  unfolding find_by_content_hash
  found_state hash s = elim (Result-cases (db.select_interchange_by_hash hash s).0) [
    | inl (j, f) ↦ rw (f, find_by_content_hash) refl
    | inr (x, f) ↦ rw (f, find_by_content_hash) refl
  ]

-- What the service relies on of the database: the rows of interchanges that an INSERT stored, or a
-- SELECT answered, stay there under every other statement, and a SELECT by their hash finds them.
pub record KeepsRows {S : Type 0} (db : Database S) (outside : Outside S) : Type 1 where
  pub Row : Interchange → S → Type 0
  pub inserted :
      (i : Interchange) (s : S) (u : Unit)
      → (db.insert_interchange i s).0 ≡ ok u
      → Row i (db.insert_interchange i s).1
  pub selected :
      (hash : Bytes) (i : Interchange) (s : S)
      → (db.select_interchange_by_hash hash s).0 ≡ ok i
      → (i.content_hash ≡ hash) × Row i (db.select_interchange_by_hash hash s).1
  pub finds :
      (i : Interchange) (s : S)
      → Row i s
      → (j : Interchange) × ((db.select_interchange_by_hash i.content_hash s).0 ≡ ok j)
        × (j.id ≡ i.id)
        × (j.status ≡ i.status)
  pub insert_version :
      (i : Interchange) (v : ProcessingVersionRow) (s : S)
      → Row i s
      → Row i (db.insert_version v s).1
  pub insert_subscription :
      (i : Interchange) (x : Subscription) (s : S) → Row i s → Row i (db.insert_subscription x s).1
  pub select_subscription :
      (i : Interchange) (b : Bytes) (s : S)
      → Row i s
      → Row i (db.select_subscription_by_identifier b s).1
  pub insert_messages :
      (i : Interchange) (rows : List MessageRow) (s : S)
      → Row i s
      → Row i (db.insert_messages rows s).1
  pub commits : (i : Interchange) (s : S) → Row i s → Row i (outside.commit s).1
  pub rolls_back : (i : Interchange) (s : S) → Row i s → Row i (outside.rollback s).1
  pub publishes :
      (i : Interchange) (es : List (Option DomainEvent)) (s : S)
      → Row i s
      → Row i (outside.publish es s).1
  pub stamps : (i : Interchange) (s : S) → Row i s → Row i (outside.new_stamp s).1
