-- ===== src/Ingestion/Halfway.antt =====
-- A file whose ingestion failed halfway, and that is sent again.
use edifact_parser.Base.{
  Bool, true, false, none, some, Bytes, length, ltb, ◌==◌, ◌≡◌, refl, ap, sym, ◌∙◌, inl, inr,
  Bool-cases, Option-cases, eq_of-some,
}
use mathlib.Core.Path.{subst}
use edifact_parser.Parser.State.{ParseResult}
use edifact_parser.Domain.{Result, ok, err}
use edifact_parser.Domain.Interchange.{Interchange, completed, new_interchange}
use edifact_parser.Domain.Valid.{new_interchange-ok}
use edifact_parser.Ingestion.Ports
use edifact_parser.Ingestion.Yields.{Result-cases}
use edifact_parser.Ingestion.Again.{Durable}
use edifact_parser.Ingestion.Chain.{store_interchange-Yields}
use edifact_parser.Ingestion.Partial.{persist_version-keeps}
use edifact_parser.Ingestion.Service.{
  max_file_size, Stop, stop, stop_duplicate, replied, refused, existing_result, found, is_duplicate,
  validate_file, recover_duplicate, store_interchange, persist, persist_and_publish, ingest_file,
}

-- The errors that are returned before the interchange is stored.
abbrev pub is_early : Ports.ServiceError → Bool
is_early Ports.file_empty = true
is_early Ports.file_too_large = true
is_early (Ports.starting_transaction _) = true
is_early (Ports.creating_interchange _) = true
is_early (Ports.storing_interchange _) = true
is_early (Ports.recovering_duplicate _) = true
is_early Ports.nil_pointer = true
is_early _ = false

stop-injective :
    {A : Type 0} {x y : Ports.ServiceError}
    → ◌≡◌ {A = Result Stop A} (err (stop x)) (err (stop y))
    → x ≡ y
stop-injective h = cc

refused-injective : {x y : Ports.ServiceError} → refused x ≡ refused y → x ≡ y
refused-injective h = eq_of-some (ap (λ r. r.error) h)

validate_file-early :
    (file : Bytes) (y : Ports.ServiceError) → validate_file file ≡ some y → is_early y ≡ true
unfolding validate_file
validate_file-early file y h = elim (Bool-cases (length file == 0)) [
  | inl b ↦ ap is_early (sym (eq_of-some (rw b at h)))
  | inr b ↦ elim (Bool-cases (ltb max_file_size (length file))) [
    | inl c ↦ ap is_early (sym (eq_of-some (rw (b, c) at h)))
    | inr c ↦ cc (rw (b, c) at h)
  ]
]

module _ {S : Type 0} (ports : Ports.Ports S) (parser_version : Bytes) where
  recover_duplicate-early :
      (hash : Bytes) (s : S) (x : Ports.ServiceError)
      → (recover_duplicate ports parser_version hash s).0 ≡ err (stop x)
      → is_early x ≡ true
  unfolding recover_duplicate
  recover_duplicate-early hash s x e = elim (Result-cases (ports.find_by_content_hash hash s).0) [
    | inr (y, o) ↦ ap is_early (sym (stop-injective (rw (o, recover_duplicate) at e)))
    | inl (none, o) ↦ ap is_early (sym (stop-injective (rw (o, recover_duplicate) at e)))
    | inl (some j, o) ↦ cc (rw (o, recover_duplicate) at e)
  ]

  store_interchange-early :
      (i : Interchange) (s : S) (x : Ports.ServiceError)
      → (store_interchange ports parser_version i s).0 ≡ err (stop x)
      → is_early x ≡ true
  unfolding store_interchange
  store_interchange-early i s x e = elim (Result-cases (ports.create_interchange i s).0) [
    | inl (u, o) ↦ cc (rw (o, store_interchange) at e)
    | inr (y, o) ↦ elim (Bool-cases (is_duplicate y)) [
      | inl d ↦
          recover_duplicate-early i.content_hash (ports.create_interchange i s).1 x
            (rw (o, d, store_interchange) at e)
      | inr d ↦ ap is_early (sym (stop-injective (rw (o, d, store_interchange) at e)))
    ]
  ]

  module _ (durable : Durable ports parser_version) where
    abbrev pub IsLeft : Bytes → S → Type 0
    IsLeft hash t =
        (i : Interchange) × (i.content_hash ≡ hash) × (i.status ≡ completed) × durable.Stored i t

    persist-IsLeft :
        (raw hash : Bytes) (parsed : ParseResult) (s : S) (x : Ports.ServiceError)
        → (persist ports parser_version raw hash parsed s).0 ≡ err (stop x)
        → is_early x ≡ false
        → IsLeft hash (persist ports parser_version raw hash parsed s).1
    unfolding persist
    persist-IsLeft raw hash parsed s x e late =
        elim (Result-cases (
          new_interchange (ports.new_stamp s).0 parsed.sender_id parsed.sender_qualifier
            parsed.receiver_id parsed.receiver_qualifier parsed.prepared_at parsed.reference raw
            hash)) [
              | inr (y, n) ↦ cc (ap is_early (stop-injective (rw (n, persist) at e)), late)
              | inl (i, n) ↦
                  let t = (ports.new_stamp s).1 in
                  elim (Result-cases (store_interchange ports parser_version i t).0) [
                    | inr (stop y, q) ↦
                        let same : y ≡ x = stop-injective (rw (n, q, persist) at e) in
                        cc (ap is_early same, store_interchange-early i t y q, late)
                    | inr (stop_duplicate r, q) ↦ cc (rw (n, q, persist) at e)
                    | inl (u, q) ↦
                        let kept =
                          store_interchange-Yields ports parser_version durable.Stored durable.lasts
                            durable.created i t u q in
                        let (same, done, _) =
                          new_interchange-ok (ports.new_stamp s).0 parsed.sender_id
                            parsed.sender_qualifier parsed.receiver_id parsed.receiver_qualifier
                            parsed.prepared_at parsed.reference raw hash i n in
                        rw (n, q, persist)
                          (
                            i,
                            same,
                            done,
                            persist_version-keeps ports parser_version (durable.Stored i)
                                (durable.lasts i) i parsed
                                (store_interchange ports parser_version i t).1 kept,
                          )
                  ]
            ]

    persist_and_publish-IsLeft :
        (raw hash : Bytes) (parsed : ParseResult) (s : S) (x : Ports.ServiceError)
        → (persist_and_publish ports parser_version raw hash parsed s).0 ≡ refused x
        → is_early x ≡ false
        → IsLeft hash (persist_and_publish ports parser_version raw hash parsed s).1
    unfolding persist_and_publish
    persist_and_publish-IsLeft raw hash parsed s x e late = elim (Result-cases (ports.begin s).0) [
      | inr (y, o) ↦ cc (ap is_early (refused-injective (rw (o, persist_and_publish) at e)), late)
      | inl (u, o) ↦
          elim (Result-cases (persist ports parser_version raw hash parsed (ports.begin s).1).0) [
            | inl (a, q) ↦ cc (rw (o, q, persist_and_publish) at e)
            | inr (stop_duplicate r, q) ↦ cc (rw (o, q, persist_and_publish) at e)
            | inr (stop y, q) ↦
                let same : y ≡ x = refused-injective (rw (o, q, persist_and_publish) at e) in
                let (i, hashed, done, kept) =
                  persist-IsLeft raw hash parsed (ports.begin s).1 y q (ap is_early same ∙ late) in
                rw (o, persist_and_publish)
                  (
                    i,
                    hashed,
                    done,
                    (durable.lasts i).rollback
                        (persist ports parser_version raw hash parsed (ports.begin s).1).1 kept,
                  )
          ]
    ]

    -- A file that is new and parses, and whose ingestion stops with an error after its interchange was
    -- stored, for instance because its messages could not be inserted, is answered as completed when
    -- it is sent again, with no messages, where the table of interchanges keeps its rows: the rest
    -- of it is never stored.
    pub ingest_file-halfway :
        (file : Bytes) (parsed : ParseResult) (s t : S) (x : Ports.ServiceError)
        → found (ports.find_by_content_hash (ports.sha256_hex file) s).0 ≡ none
        → ports.parse file ≡ some (ok parsed)
        → ingest_file ports parser_version file s ≡ some (refused x, t)
        → is_early x ≡ false
        → (r : Ports.IngestResult) × (ingest_file ports parser_version file t
            ≡ some (replied r, (ports.find_by_content_hash (ports.sha256_hex file) t).1))
          × (r.status ≡ completed)
          × (r.message_count ≡ 0)
    unfolding ingest_file
    ingest_file-halfway file parsed s t x f p e late = elim (Option-cases (validate_file file)) [
      | inr (y, v) ↦
          let same : y ≡ x =
            refused-injective (ap (λ z. z.0) (eq_of-some (rw (v, ingest_file) at e))) in
          cc (ap is_early same, validate_file-early file y v, late)
      | inl v ↦
          let hash = ports.sha256_hex file in
          let done = eq_of-some (rw (v, f, p, ingest_file) at e) in
          let (i, hashed, status, kept) = subst (IsLeft hash) (ap (λ z. z.1) done) (
            persist_and_publish-IsLeft file hash parsed (ports.find_by_content_hash hash s).1 x
              (ap (λ z. z.0) done) late) in
          let (j, finds, _, same_status) = durable.finds i t kept in
          let located : (ports.find_by_content_hash hash t).0 ≡ ok (some j) =
            subst (λ h. (ports.find_by_content_hash h t).0 ≡ ok (some j)) hashed finds in
          (existing_result j, rw (v, located, ingest_file) refl, same_status ∙ status, refl)
    ]
