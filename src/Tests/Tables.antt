-- ===== src/Tests/Tables.antt =====
-- A small database in memory behind the repositories: at most one interchange, two processing
-- versions of it, and three messages.
use edifact_parser.Base.{
  ℕ, ◌+◌, Bool, true, false, ◌||◌, Option, none, some, List, [], ◌∷◌, Bytes, codes, bytes_eq,
  bytes_eq_iff, bytes_eq_refl, ◌==◌, take, filter, if◌then◌else◌, ◌≡◌, refl, sym, arith, Bool-cases,
  ap, ◌∙◌, inl, inr, All,
}
use edifact_parser.Parser.State.{pos}
use edifact_parser.Domain.{Uuid, Result, ok, err}
use edifact_parser.Domain.Interchange.{Interchange}
use edifact_parser.Kafka.{KafkaMessage}
use edifact_parser.Domain.Entities.{Message, Subscription}
use edifact_parser.Ingestion.Ports
use edifact_parser.Ingestion.Yields.{ok-injective}
use edifact_parser.Repos.Database.{
  DbError, no_rows, pg_error, failed, MessageRow, ProcessingVersionRow, Database, Codec,
}
use edifact_parser.Repos.Messages.{row_to_message}
use edifact_parser.Repos.Interchanges.{unique_violation}
use edifact_parser.Repos.Rows.{satisfies, IsAscending}
use edifact_parser.Repos.Paging.{Answers}
use edifact_parser.Repos.Service.{Outside, KeepsRows}
use edifact_parser.Tests.Memory.{small_result}
use edifact_parser.Repos.Upsert.{kept, row_or_none, Identified}

pub record Tables : Type 0 where
  pub row : Option Interchange
  pub stamps : ℕ
  pub first : Bool
  pub second : Bool
  pub subscriber : Option Subscription
  -- What the topic got, the latest first.
  pub batches : List (List KafkaMessage)

abbrev message_row : Uuid → Bytes → MessageRow
message_row id reference = record {
  id = id;
  interchange_id = 7;
  processing_version_id = 1;
  subscription_id = none;
  message_type = codes "MSCONS";
  reference = reference;
  segments = [];
  created_at = 0;
}

abbrev pub messages : List MessageRow
messages = message_row 3 (codes "M1") ∷ message_row 5 (codes "M2") ∷ message_row 8 (codes "M3") ∷ []

abbrev version_row : Uuid → Bool → ProcessingVersionRow
version_row id active = record {
  id = id;
  interchange_id = 7;
  version_number = pos id;
  parser_version = codes "1.0.0";
  is_active = active;
  created_at = 0;
}

abbrev pub versions : Tables → List ProcessingVersionRow
versions s = version_row 1 s.first ∷ version_row 2 s.second ∷ []

-- The one interchange, once it is there, keeps out another.
abbrev insert : Option Interchange → Interchange → Tables → Result {0, 0} DbError Unit × Tables
insert none i s = (ok tt, record s { row = some i })
insert (some j) i s = (
  err (if bytes_eq j.content_hash i.content_hash then pg_error unique_violation else failed []),
  s,
)

abbrev by_hash : Bytes → Option Interchange → Result DbError Interchange
by_hash hash none = err no_rows
by_hash hash (some j) = if bytes_eq j.content_hash hash then ok j else err no_rows

abbrev by_id : Uuid → Option Interchange → Result DbError Interchange
by_id id none = err no_rows
by_id id (some j) = if j.id == id then ok j else err no_rows

abbrev pub known_version : Uuid → Bool
known_version id = (1 == id) || (2 == id)

-- One subscription, which keeps out another identifier.
abbrev add_subscriber :
    Option Subscription → Subscription → Tables → Result {0, 0} DbError Unit × Tables
add_subscriber none x s = (ok tt, record s { subscriber = some x })
add_subscriber (some y) x s =
    if bytes_eq y.identifier x.identifier then (ok tt, s) else (err (failed []), s)

abbrev subscriber_of : Bytes → Option Subscription → Option Subscription
subscriber_of b none = none
subscriber_of b (some y) = if bytes_eq y.identifier b then some y else none

abbrev pub small_db : Database Tables
small_db = record {
  insert_interchange = λ i s. insert s.row i s;
  select_interchange_by_hash = λ hash s. (by_hash hash s.row, s);
  select_interchange_by_id = λ id s. (by_id id s.row, s);
  update_interchange_status = λ id st detail now s. (ok 0, s);
  insert_version = λ v s. (ok tt, s);
  select_active_version = λ id s. (err no_rows, s);
  select_version = λ id n s. (err no_rows, s);
  deactivate_all = λ id s. (ok 0, s);
  deactivate_siblings = λ id s.
      if known_version id then (ok 2, record s { first = false; second = false }) else (ok 0, s);
  activate_version = λ id s.
      if 1 == id
      then (ok 1, record s { first = true })
      else if 2 == id
      then (ok 1, record s { second = true })
      else (ok 0, s);
  insert_subscription = λ x s. add_subscriber s.subscriber x s;
  select_subscription_by_identifier = λ b s. (row_or_none (subscriber_of b s.subscriber), s);
  select_subscription_by_id = λ id s. (err no_rows, s);
  select_subscriptions = λ s. (ok [], s);
  insert_messages = λ rows s. (ok tt, s);
  select_messages = λ q s. (ok (take q.limit (filter (satisfies q.conditions) messages)), s);
  count_messages = λ id s. (ok (pos 3), s);
}

abbrev parse_one : Bytes → Option Uuid
parse_one [] = none
parse_one (x ∷ xs) = some x

abbrev pub small_codec : Codec
small_codec = record {
  marshal = λ _. some (codes "{}");
  unmarshal = λ b. if bytes_eq b (codes "{}") then some [] else none;
  uuid_string = λ id. id ∷ [];
  uuid_parse = parse_one;
}

abbrev pub small_outside : Outside Tables
small_outside = record {
  parse = λ _. some (ok small_result);
  begin = λ s. (ok tt, s);
  commit = λ s. (ok tt, s);
  rollback = λ s. (ok tt, s);
  publish = λ es s. (ok tt, s);
  new_stamp = λ s. (record { id = s.stamps + 1; now = 0 }, record s { stamps = s.stamps + 1 });
  sha256_hex = λ _. codes "0123456789abcdef0123456789abcdef0123456789abcdef0123456789abcdef";
}

abbrev read_message : MessageRow → Message
read_message row = record {
  id = row.id;
  interchange_id = row.interchange_id;
  processing_version_id = row.processing_version_id;
  subscription_id = row.subscription_id;
  message_type = row.message_type;
  message_reference = row.reference;
  segments = [];
  created_at = row.created_at;
}

pub messages-read : All (λ row. row_to_message small_codec row ≡ ok (read_message row)) messages
unfolding row_to_message
messages-read = (refl, (refl, (refl, tt)))

pub messages-IsAscending : IsAscending messages
messages-IsAscending = ((omega arith, (omega arith, tt)), ((omega arith, tt), (tt, tt)))

abbrev pub small_db-Answers : Answers small_db small_codec
small_db-Answers = record {
  table = λ s. messages;
  ascending = λ s. messages-IsAscending;
  selects = λ q s. inl refl;
  parses = λ id. refl;
  message = read_message;
  reads = λ s. messages-read;
}

pub insert-row :
    (o : Option Interchange) (i : Interchange) (s : Tables) (u : Unit)
    → (insert o i s).0 ≡ ok u
    → (insert o i s).1.row ≡ some i
insert-row none i s u e = refl
insert-row (some j) i s u e = cc

pub by_hash-row :
    (hash : Bytes) (i : Interchange) (o : Option Interchange)
    → by_hash hash o ≡ ok i
    → (i.content_hash ≡ hash) × (o ≡ some i)
by_hash-row hash i none e = cc
by_hash-row hash i (some j) e = elim (Bool-cases (bytes_eq j.content_hash hash)) [
  | inr b ↦ cc (rw b at e)
  | inl b ↦
      let same : j ≡ i = ok-injective (rw b at e) in
      (ap (λ x. x.content_hash) (sym same) ∙ (bytes_eq_iff j.content_hash hash).0 b, ap some same)
]

pub add_subscriber-row :
    (o : Option Subscription) (x : Subscription) (s : Tables) → (add_subscriber o x s).1.row ≡ s.row
add_subscriber-row none x s = refl
add_subscriber-row (some y) x s = elim (Bool-cases (bytes_eq y.identifier x.identifier)) [
  | inl b ↦ rw b refl
  | inr b ↦ rw b refl
]

abbrev pub small_db-KeepsRows : KeepsRows small_db small_outside
small_db-KeepsRows = record {
  Row = λ i s. s.row ≡ some i;
  inserted = λ i s u e. insert-row s.row i s u e;
  selected = λ hash i s e. by_hash-row hash i s.row e;
  finds = λ i s k. (i, rw (k, bytes_eq_refl i.content_hash) refl, refl, refl);
  insert_version = λ _ _ _ k. k;
  insert_subscription = λ i x s k. add_subscriber-row s.subscriber x s ∙ k;
  select_subscription = λ _ _ _ k. k;
  insert_messages = λ _ _ _ k. k;
  commits = λ _ _ k. k;
  rolls_back = λ _ _ k. k;
  publishes = λ _ _ _ k. k;
  stamps = λ _ _ k. k;
}

-- Before anything is stored, and what errors print.
abbrev pub start : Tables
start = record {
  row = none;
  stamps = 0;
  first = true;
  second = false;
  subscriber = none;
  batches = [];
}

abbrev pub text : Ports.ServiceError → Bytes
text _ = codes "not found"

add_subscriber-kept :
    (x : Subscription) (s : Tables) (o : Option Subscription)
    → s.subscriber ≡ o
    → (add_subscriber o x s).0 ≡ ok tt
    → subscriber_of x.identifier (add_subscriber o x s).1.subscriber
      ≡ some (kept (subscriber_of x.identifier o) x)
add_subscriber-kept x s none e h = rw (bytes_eq_refl x.identifier) refl
add_subscriber-kept x s (some y) e h = elim (Bool-cases (bytes_eq y.identifier x.identifier)) [
  | inl b ↦ rw (b, e) (rw b refl)
  | inr b ↦ cc (rw b at h)
]

pub small_db-Identified : Identified small_db small_outside.new_stamp
small_db-Identified = record {
  row_of = λ b s. subscriber_of b s.subscriber;
  inserted = λ x s h. add_subscriber-kept x s s.subscriber refl h;
  selected = λ b s. refl;
  stamped = λ b s. refl;
}
