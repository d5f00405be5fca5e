-- ===== src/Tests/Memory.antt =====
-- A table of interchanges in memory behind the ports, which keeps its rows.
use edifact_parser.Base.{
  ℕ, ◌+◌, false, Option, none, some, List, [], ◌∷◌, Bytes, codes, bytes_eq, bytes_eq_iff,
  bytes_eq_refl, if◌then◌else◌, ◌≡◌, refl, Option-cases, Bool-cases, eq_of-some, ap, ◌∙◌, inl, inr,
}
use edifact_parser.Parser.State.{pos, tag, single, ParseResult, ParsedMessage}
use edifact_parser.Domain.{Result, ok, err}
use edifact_parser.Domain.Interchange.{Interchange}
use edifact_parser.Ingestion.Ports
use mathlib.Core.Path.{subst}
use edifact_parser.Ingestion.Yields.{ok-injective}
use edifact_parser.Ingestion.Again.{Durable}

pub record Store : Type 0 where
  pub rows : List Interchange
  pub stamps : ℕ

unfoldable pub find_row : Bytes → List Interchange → Option Interchange
find_row hash [] = none
find_row hash (i ∷ is) =
    let rest = find_row hash is in if bytes_eq i.content_hash hash then some i else rest

abbrev pub small_message : ParsedMessage
small_message = record {
  message_type = codes "MSCONS";
  message_version = codes "D";
  message_release = codes "11A";
  message_reference = codes "M1";
  subscription_id = codes "DE1";
  segments = ((tag, single (codes "UNH")) ∷ []) ∷ [];
}

abbrev pub small_result : ParseResult
small_result = record {
  sender_id = codes "S";
  sender_qualifier = codes "14";
  receiver_id = codes "R";
  receiver_qualifier = codes "14";
  reference = codes "REF1";
  prepared_at = 7;
  content_hash = [];
  messages = small_message ∷ [];
  subscriptions = codes "DE1" ∷ [];
}

abbrev insert :
    Option Interchange → Interchange → Store → Result {0, 0} Ports.RepoError Unit × Store
insert none i s = (ok tt, record s { rows = i ∷ s.rows })
insert (some _) i s = (err Ports.duplicate_interchange, s)

-- `stored` is what the insert of messages answers.
abbrev pub memory_with : Result {0, 0} Ports.RepoError Unit → Ports.Ports Store
memory_with stored = record {
  parse = λ _. some (ok small_result);
  create_interchange = λ i s. insert (find_row i.content_hash s.rows) i s;
  find_by_content_hash = λ hash s. (ok (find_row hash s.rows), s);
  find_by_id = λ id s. (err Ports.interchange_not_found, s);
  create_version = λ v s. (ok tt, s);
  find_active = λ id s. (err Ports.processing_version_not_found, s);
  bulk_create = λ ms s. (stored, s);
  list_by_filter = λ f s. (ok ([], none), s);
  count = λ id s. (ok (pos 0), s);
  upsert_by_identifier = λ b s. (ok (record { id = 9; identifier = b; created_at = 0 }), s);
  begin = λ s. (ok tt, s);
  commit = λ s. (ok tt, s);
  rollback = λ s. (ok tt, s);
  publish = λ es s. (ok tt, s);
  new_stamp = λ s. (record { id = s.stamps + 1; now = 0 }, record s { stamps = s.stamps + 1 });
  sha256_hex = λ _. codes "0123456789abcdef0123456789abcdef0123456789abcdef0123456789abcdef";
}

abbrev pub memory : Ports.Ports Store
memory = memory_with (ok tt)

find_row-seen :
    (hash : Bytes) (is : List Interchange) (i : Interchange)
    → find_row hash is ≡ some i
    → (i.content_hash ≡ hash) × (find_row i.content_hash is ≡ some i)
unfolding find_row
find_row-seen hash [] i h = cc
find_row-seen hash (x ∷ is) i h = elim (Bool-cases (bytes_eq x.content_hash hash)) [
  | inl b ↦
      subst (λ j. (j.content_hash ≡ hash) × (find_row j.content_hash (x ∷ is) ≡ some j))
        (eq_of-some (rw b at h))
        ((bytes_eq_iff x.content_hash hash).0 b, rw (bytes_eq_refl x.content_hash) refl)
  | inr b ↦
      let (same, rest) = find_row-seen hash is i (rw b at h) in
      let other : bytes_eq x.content_hash i.content_hash ≡ false =
        ap (bytes_eq x.content_hash) same ∙ b in
      (same, rw other rest)
]

insert-created :
    (i : Interchange) (s : Store) (u : Unit)
    → (insert (find_row i.content_hash s.rows) i s).0 ≡ ok u
    → find_row i.content_hash (insert (find_row i.content_hash s.rows) i s).1.rows ≡ some i
unfolding find_row
insert-created i s u e = elim (Option-cases (find_row i.content_hash s.rows)) [
  | inl o ↦ rw (o, bytes_eq_refl i.content_hash) refl
  | inr (j, o) ↦ cc (rw o at e)
]

pub memory_with-Durable :
    (stored : Result {0, 0} Ports.RepoError Unit) → Durable (memory_with stored) (codes "1.0.0")
memory_with-Durable stored = record {
  Stored = λ i s. find_row i.content_hash s.rows ≡ some i;
  created = λ i s u e. insert-created i s u e;
  lasts = λ i. record {
    stamp = λ _ h. h;
    create_version = λ _ _ h. h;
    upsert = λ _ _ h. h;
    bulk_create = λ _ _ h. h;
    commit = λ _ h. h;
    rollback = λ _ h. h;
    publish = λ _ _ h. h;
  };
  seen = λ hash i s e. find_row-seen hash s.rows i (ok-injective e);
  finds = λ i s h. (i, rw h refl, refl, refl);
}

pub memory-Durable : Durable memory (codes "1.0.0")
memory-Durable = memory_with-Durable (ok tt)
