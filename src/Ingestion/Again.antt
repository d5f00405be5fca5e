-- ===== src/Ingestion/Again.antt =====
-- A file that was ingested and is sent again.
use edifact_parser.Base.{
  Option, none, some, [], Bytes, ◌≡◌, ◌≢◌, refl, ap, ◌∙◌, sym, Option-cases, eq_of-some, inl, inr,
}
use edifact_parser.Parser.State.{ParseResult}
use mathlib.Core.Path.{subst}
use edifact_parser.Domain.{Result, ok, err}
use edifact_parser.Domain.Interchange.{Interchange, completed, failed}
use edifact_parser.Ingestion.Ports
use edifact_parser.Ingestion.Persist.{Lasts}
use edifact_parser.Ingestion.Kept.{replied-injective, persist_and_publish-IsOf}
use edifact_parser.Ingestion.Service.{
  Reply, replied, existing_result, found, validate_file, ingest_parsed, handle_parse_failure,
  ingest_file,
}

-- What the code relies on of the table of interchanges: a row that `Create` inserted, or that
-- `FindByContentHash` returned, stays, and `FindByContentHash` finds it.
pub record Durable {S : Type 0} (ports : Ports.Ports S) (parser_version : Bytes) : Type 1 where
  pub Stored : Interchange → S → Type 0
  pub created :
      (i : Interchange) (s : S) (u : Unit)
      → (ports.create_interchange i s).0 ≡ ok u
      → Stored i (ports.create_interchange i s).1
  pub lasts : (i : Interchange) → Lasts ports parser_version (Stored i)
  pub seen :
      (hash : Bytes) (i : Interchange) (s : S)
      → (ports.find_by_content_hash hash s).0 ≡ ok (some i)
      → (i.content_hash ≡ hash) × Stored i (ports.find_by_content_hash hash s).1
  pub finds :
      (i : Interchange) (s : S)
      → Stored i s
      → (j : Interchange) × ((ports.find_by_content_hash i.content_hash s).0 ≡ ok (some j))
        × (j.id ≡ i.id)
        × (j.status ≡ i.status)

-- The answer to a file that is known: its interchange, and nothing done.
abbrev pub known : Ports.IngestResult → Ports.IngestResult
known r = record {
  interchange_id = r.interchange_id;
  status = r.status;
  message_count = 0;
  subscription_count = 0;
  events = [];
}

failed-ne-completed : failed ≢ completed
failed-ne-completed h = cc

found-some :
    (r : Result Ports.RepoError (Option Interchange)) (i : Interchange)
    → found r ≡ some i
    → r ≡ ok (some i)
found-some (ok o) i h = ap ok h
found-some (err x) i h = cc

pub validated :
    {S : Type 0} (ports : Ports.Ports S) (parser_version file : Bytes) (s : S)
    (r : Ports.IngestResult) (t : S)
    → ingest_file ports parser_version file s ≡ some (replied r, t)
    → validate_file file ≡ none
unfolding ingest_file
validated ports parser_version file s r t e = elim (Option-cases (validate_file file)) [
  | inl v ↦ v
  | inr (y, v) ↦ cc (rw (v, ingest_file) at e)
]

module _ {S : Type 0} (ports : Ports.Ports S) (parser_version : Bytes)
    (durable : Durable ports parser_version) where
  abbrev IsKept : Bytes → Ports.IngestResult → S → Type 0
  IsKept hash r t =
      (i : Interchange) × (r.interchange_id ≡ i.id)
      × (i.content_hash ≡ hash)
      × (i.status ≡ r.status)
      × durable.Stored i t

  IsKept? : Bytes → Reply × S → Type 0
  IsKept? hash x =
      (r : Ports.IngestResult) → x.0 ≡ replied r → r.status ≡ completed → IsKept hash r x.1

  ingest_parsed-IsKept? :
      (raw hash : Bytes) (outcome : Result Bytes ParseResult) (s : S)
      → IsKept? hash (ingest_parsed ports parser_version raw hash outcome s)
  unfolding IsKept? handle_parse_failure
  ingest_parsed-IsKept? raw hash (ok parsed) s r e done =
      let (i, id, (same, completed_row, _), _, kept) =
        persist_and_publish-IsOf ports parser_version durable.Stored durable.lasts durable.created
          raw hash parsed s r e in
      (i, id, same, completed_row ∙ sym done, kept)
  ingest_parsed-IsKept? raw hash (err x) s r e done =
      absurd (failed-ne-completed (ap (λ y. y.status) (replied-injective e) ∙ done))

  existing-IsKept? :
      (hash : Bytes) (i : Interchange) (s : S)
      → found (ports.find_by_content_hash hash s).0 ≡ some i
      → IsKept? hash (replied (existing_result i), (ports.find_by_content_hash hash s).1)
  unfolding IsKept?
  existing-IsKept? hash i s f r e done =
      let result = replied-injective e in
      let (same, kept) =
        durable.seen hash i s (found-some (ports.find_by_content_hash hash s).0 i f) in
      (i, ap (λ x. x.interchange_id) (sym result), same, ap (λ x. x.status) result, kept)

  ingest_file-IsKept? :
      (file : Bytes) (s : S) (x : Reply × S)
      → validate_file file ≡ none
      → ingest_file ports parser_version file s ≡ some x
      → IsKept? (ports.sha256_hex file) x
  unfolding ingest_file
  ingest_file-IsKept? file s x v e =
      let hash = ports.sha256_hex file in
      let t = (ports.find_by_content_hash hash s).1 in
      elim (Option-cases (found (ports.find_by_content_hash hash s).0)) [
        | inr (i, f) ↦
            subst (IsKept? hash) (eq_of-some (rw (v, f, ingest_file) at e))
              (existing-IsKept? hash i s f)
        | inl f ↦ elim (Option-cases (ports.parse file)) [
          | inl p ↦ cc (rw (v, f, p, ingest_file) at e)
          | inr (outcome, p) ↦
              subst (IsKept? hash) (eq_of-some (rw (v, f, p, ingest_file) at e))
                (ingest_parsed-IsKept? file hash outcome t)
        ]
      ]

  -- Where the table of interchanges keeps its rows, sending a file again that was answered as
  -- completed is answered with the same interchange, still completed, with no messages counted and
  -- no events; and the only call it makes is the lookup of the content hash.
  pub ingest_file-again :
      (file : Bytes) (s : S) (r : Ports.IngestResult) (t : S)
      → ingest_file ports parser_version file s ≡ some (replied r, t)
      → r.status ≡ completed
      → ingest_file ports parser_version file t
        ≡ some (replied (known r), (ports.find_by_content_hash (ports.sha256_hex file) t).1)
  unfolding ingest_file IsKept?
  ingest_file-again file s r t e done =
      let v = validated ports parser_version file s r t e in
      let (i, id, same, status, kept) = ingest_file-IsKept? file s (replied r, t) v e r refl done in
      let (j, finds, same_id, same_status) = durable.finds i t kept in
      let located : (ports.find_by_content_hash (ports.sha256_hex file) t).0 ≡ ok (some j) =
        subst (λ h. (ports.find_by_content_hash h t).0 ≡ ok (some j)) same finds in
      let answer : existing_result j ≡ known r = λ k. record {
        interchange_id = (same_id ∙ sym id) k;
        status = (same_status ∙ status) k;
        message_count = 0;
        subscription_count = 0;
        events = [];
      } in
      rw (v, located, ingest_file)
        (ap (λ x. some (replied x, (ports.find_by_content_hash (ports.sha256_hex file) t).1))
          answer)
