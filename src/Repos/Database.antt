-- ===== src/Repos/Database.antt =====
-- What the repositories send to the database: the statements of adapters/repos, and what they
-- answer. The state S stands for the whole database.
use edifact_parser.Base.{ℕ, Bool, Option, List, Bytes}
use edifact_parser.Parser.State.{ℤ, Key, Value}
use edifact_parser.Domain.{Uuid}
use edifact_parser.Domain.Interchange.{Interchange, InterchangeStatus}
use edifact_parser.Domain.Entities.{Subscription}
use edifact_parser.Ingestion.Action.{Action}

-- `pgx.ErrNoRows`, the code of a `pgconn.PgError`, or any other error.
pub data DbError : Type 0 where
  no_rows : DbError
  pg_error : Bytes → DbError
  failed : Bytes → DbError

-- The segments of a message, and what encoding/json makes of them.
abbrev pub Segments : Type 0
Segments = List (ℕ × List (Key × Value))

-- `messageRow`
pub record MessageRow : Type 0 where
  pub id : Uuid
  pub interchange_id : Uuid
  pub processing_version_id : Uuid
  pub subscription_id : Option Uuid
  pub message_type : Bytes
  pub reference : Bytes
  pub segments : Bytes
  pub created_at : ℕ

-- `processingVersionRow`; the table has no column for the format version.
pub record ProcessingVersionRow : Type 0 where
  pub id : Uuid
  pub interchange_id : Uuid
  pub version_number : ℤ
  pub parser_version : Bytes
  pub is_active : Bool
  pub created_at : ℕ

-- The conditions that `ListByFilter` puts into its WHERE clause.
pub data Condition : Type 0 where
  interchange_is version_is subscription_is : Uuid → Condition
  type_is : Bytes → Condition
  id_above : Uuid → Condition

-- SELECT of all message columns, with WHERE, ORDER BY id ASC and LIMIT.
pub record MessageSelect : Type 0 where
  pub conditions : List Condition
  pub limit : ℕ

pub record Database (S : Type 0) : Type 0 where
  pub insert_interchange : Interchange → Action S DbError Unit
  pub select_interchange_by_hash : Bytes → Action S DbError Interchange
  pub select_interchange_by_id : Uuid → Action S DbError Interchange
  -- The number of rows that an UPDATE affects.
  pub update_interchange_status : Uuid → InterchangeStatus → Option Bytes → ℕ → Action S DbError ℕ
  pub insert_version : ProcessingVersionRow → Action S DbError Unit
  pub select_active_version : Uuid → Action S DbError ProcessingVersionRow
  pub select_version : Uuid → ℤ → Action S DbError ProcessingVersionRow
  pub deactivate_all : Uuid → Action S DbError ℕ
  pub deactivate_siblings : Uuid → Action S DbError ℕ
  pub activate_version : Uuid → Action S DbError ℕ
  pub insert_subscription : Subscription → Action S DbError Unit
  pub select_subscription_by_identifier : Bytes → Action S DbError Subscription
  pub select_subscription_by_id : Uuid → Action S DbError Subscription
  pub select_subscriptions : Action S DbError (List Subscription)
  pub insert_messages : List MessageRow → Action S DbError Unit
  pub select_messages : MessageSelect → Action S DbError (List MessageRow)
  pub count_messages : Uuid → Action S DbError ℤ

-- encoding/json on the segments, and the text form of a uuid.UUID.
pub record Codec : Type 0 where
  pub marshal : Segments → Option Bytes
  pub unmarshal : Bytes → Option Segments
  pub uuid_string : Uuid → Bytes
  pub uuid_parse : Bytes → Option Uuid
