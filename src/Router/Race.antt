-- ===== src/Router/Race.antt =====
-- Two uploads of one file at once: the other request stores it after this one has looked for it.
use edifact_parser.Base.{none, some, Bytes, ◌≡◌, refl, ap, ◌∙◌, bytes_eq}
use edifact_parser.Parser.State.{ParseResult}
use edifact_parser.Domain.{ok, err}
use edifact_parser.Domain.Interchange.{
  Interchange, InterchangeStatus, completed, failed, new_interchange,
}
use edifact_parser.Domain.Valid.{new_interchange-ok}
use edifact_parser.Ingestion.Ports
use edifact_parser.Ingestion.Service.{
  stop_duplicate, Reply, existing_result, validate_file, ingest_file, persist_and_publish, persist,
  store_interchange, recover_duplicate,
}
use edifact_parser.Repos.Database.{DbError, pg_error, Database, Codec}
use edifact_parser.Repos.Interchanges.{unique_violation, create_interchange, find_by_content_hash}
use edifact_parser.Repos.Service.{Outside, repository_ports, found_state}
use edifact_parser.Usecases.Handlers.{handle_ingest_file}
use edifact_parser.Router.{map_status, response200, ingest_file_response, error_response}
use edifact_parser.Router.Upload.{in_size}

-- The reply about what the other request stored.
abbrev pub duplicate_reply : Interchange → Reply
duplicate_reply j = record { result = some (existing_result j); error = some Ports.duplicate }

map_status-same : (status : InterchangeStatus) → map_status status ≡ status
map_status-same completed = refl
map_status-same failed = refl

duplicate_response :
    (message : Ports.ServiceError → Bytes) (file : Bytes) (j : Interchange)
    → validate_file file ≡ none
    → ingest_file_response message (some file) (duplicate_reply j)
      ≡ some (response200 (record { interchange_id = j.id; status = j.status; total = 0 }))
unfolding ingest_file_response handle_ingest_file error_response
duplicate_response message file j v = rw (in_size file v) (
    ap (λ z. some (response200 (record { interchange_id = j.id; status = z; total = 0 })))
      (map_status-same j.status))

module _ {S : Type 0} (db : Database S) (codec : Codec) (outside : Outside S)
    (parser_version : Bytes) where
  store_interchange-race :
      (i j : Interchange) (s : S)
      → (db.insert_interchange i s).0 ≡ err (pg_error unique_violation)
      → (db.select_interchange_by_hash i.content_hash (db.insert_interchange i s).1).0 ≡ ok j
      → (store_interchange (repository_ports db codec outside) parser_version i s).0
        ≡ err (stop_duplicate (existing_result j))
  unfolding store_interchange recover_duplicate create_interchange find_by_content_hash bytes_eq
  store_interchange-race i j s d f = rw (d, store_interchange) (rw (f, recover_duplicate) refl)

  -- The states that the request passes through: after its lookup, in its transaction, with the
  -- identity of its interchange drawn, and after the INSERT of it.
  abbrev pub looked : Bytes → S → S
  looked file s = (db.select_interchange_by_hash (outside.sha256_hex file) s).1

  abbrev pub begun : Bytes → S → S
  begun file s = (outside.begin (looked file s)).1

  abbrev pub stamped : Bytes → S → S
  stamped file s = (outside.new_stamp (begun file s)).1

  persist-race :
      (file : Bytes) (parsed : ParseResult) (i j : Interchange) (s : S)
      → new_interchange
          (outside.new_stamp (begun file s)).0
          parsed.sender_id
          parsed.sender_qualifier
          parsed.receiver_id
          parsed.receiver_qualifier
          parsed.prepared_at
          parsed.reference
          file
          (outside.sha256_hex file)
        ≡ ok i
      → (db.insert_interchange i (stamped file s)).0 ≡ err (pg_error unique_violation)
      → (db.select_interchange_by_hash
          (outside.sha256_hex file)
          (db.insert_interchange i (stamped file s)).1).0
        ≡ ok j
      → (persist
          (repository_ports db codec outside)
          parser_version
          file
          (outside.sha256_hex file)
          parsed
          (begun file s)).0
        ≡ err (stop_duplicate (existing_result j))
  unfolding persist
  persist-race file parsed i j s n d f =
      let (same, _, _) =
        new_interchange-ok (outside.new_stamp (begun file s)).0 parsed.sender_id
          parsed.sender_qualifier parsed.receiver_id parsed.receiver_qualifier parsed.prepared_at
          parsed.reference file (outside.sha256_hex file) i n in
      let located : (db.select_interchange_by_hash i.content_hash
            (db.insert_interchange i (stamped file s)).1).0
          ≡ ok j =
        ap (λ h. (db.select_interchange_by_hash h (db.insert_interchange i (stamped file s)).1).0)
          same
        ∙ f in
      rw (n, persist) (rw (store_interchange-race i j (stamped file s) d located, persist) refl)

  -- When another request stores the same file after this one has looked for it and before it inserts
  -- its own interchange, the unique violation is answered as 200 with the interchange of the other
  -- request and its status, and no messages counted.
  pub ingest_file-race :
      (message : Ports.ServiceError → Bytes) (file : Bytes) (parsed : ParseResult) (x : DbError)
      (i j : Interchange) (s : S)
      → validate_file file ≡ none
      → (db.select_interchange_by_hash (outside.sha256_hex file) s).0 ≡ err x
      → outside.parse file ≡ some (ok parsed)
      → (outside.begin (looked file s)).0 ≡ ok tt
      → new_interchange
          (outside.new_stamp (begun file s)).0
          parsed.sender_id
          parsed.sender_qualifier
          parsed.receiver_id
          parsed.receiver_qualifier
          parsed.prepared_at
          parsed.reference
          file
          (outside.sha256_hex file)
        ≡ ok i
      → (db.insert_interchange i (stamped file s)).0 ≡ err (pg_error unique_violation)
      → (db.select_interchange_by_hash
          (outside.sha256_hex file)
          (db.insert_interchange i (stamped file s)).1).0
        ≡ ok j
      → (reply : Reply) × (t : S) × (ingest_file
            (repository_ports db codec outside)
            parser_version
            file
            s
          ≡ some (reply, t))
        × (ingest_file_response message (some file) reply
            ≡ some (response200 (record { interchange_id = j.id; status = j.status; total = 0 })))
  unfolding ingest_file persist_and_publish find_by_content_hash
  ingest_file-race message file parsed x i j s v miss p b n d f = (
    duplicate_reply j,
    (outside.rollback
        (persist (repository_ports db codec outside) parser_version file (outside.sha256_hex file)
          parsed (begun file s)).1).1,
    rw (v, ingest_file)
        (rw (miss, ingest_file)
          (rw (p, ingest_file)
            (rw (found_state db codec outside (outside.sha256_hex file) s, b, persist_and_publish)
              (rw
                (
                  found_state db codec outside (outside.sha256_hex file) s,
                  persist-race file parsed i j s n d f,
                )
                refl)))),
    duplicate_response message file j v,
  )
