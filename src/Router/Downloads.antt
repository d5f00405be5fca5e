-- ===== src/Router/Downloads.antt =====
-- What the reads answer of a file that was uploaded.
use edifact_parser.Base.{
  false, none, some, Bytes, length, ◌==◌, ◌≡◌, refl, ap, sym, ◌∙◌, arith, eq_of-some,
}
use mathlib.Core.Path.{subst}
use edifact_parser.Parser.State.{ParseResult}
use edifact_parser.Domain.{Uuid, ok}
use edifact_parser.Domain.Interchange.{Interchange, completed}
use edifact_parser.Ingestion.Ports
use edifact_parser.Ingestion.Again.{Durable, validated}
use edifact_parser.Ingestion.Kept.{persist_and_publish-IsOf}
use edifact_parser.Ingestion.Chain.{AreParties, IsOf}
use edifact_parser.Ingestion.Reads.{get_raw_file, get_interchange, interchange_detail}
use edifact_parser.Ingestion.Service.{replied, found, ingest_file, validate_file}
use edifact_parser.Repos.Database.{Codec}
use edifact_parser.Router.Reads.{
  interchange200, DetailBody, raw_file200, get_interchange_response, get_raw_file_response,
  interchange_answer, raw_file_answer, detail_body,
}
use edifact_parser.Usecases.Handlers.{handle_get_raw_file, handle_get_interchange}

-- What the reads rely on: a row that is stored is found by its id, and ids are read back from their
-- text.
pub record Readable {S : Type 0} (ports : Ports.Ports S) (parser_version : Bytes)
    (durable : Durable ports parser_version) (codec : Codec) : Type 0 where
  pub by_id : (i : Interchange) (s : S) → durable.Stored i s → (ports.find_by_id i.id s).0 ≡ ok i
  pub parses : (id : Uuid) → codec.uuid_parse (codec.uuid_string id) ≡ some id

-- The body about an uploaded file.
pub record IsAbout (parsed : ParseResult) (id : Uuid) (body : DetailBody) : Type 0 where
  pub same_id : body.id ≡ id
  pub sender : body.sender_id ≡ parsed.sender_id
  pub receiver : body.receiver_id ≡ parsed.receiver_id
  pub reference : body.reference ≡ parsed.reference
  pub prepared : body.prepared_at ≡ parsed.prepared_at
  pub status : body.status ≡ completed

not_empty : (file : Bytes) → validate_file file ≡ none → (length file == 0) ≡ false
unfolding validate_file
not_empty file v = ground (arith, v)

module _ {S : Type 0} (ports : Ports.Ports S) (parser_version : Bytes)
    (durable : Durable ports parser_version) (codec : Codec)
    (readable : Readable ports parser_version durable codec)
    (message : Ports.ServiceError → Bytes) where
  stored :
      (file : Bytes) (parsed : ParseResult) (s t : S) (r : Ports.IngestResult)
      → found (ports.find_by_content_hash (ports.sha256_hex file) s).0 ≡ none
      → ports.parse file ≡ some (ok parsed)
      → ingest_file ports parser_version file s ≡ some (replied r, t)
      → IsOf ports parser_version durable.Stored durable.lasts durable.created parsed file
          (ports.sha256_hex file)
          r
          t
  unfolding ingest_file
  stored file parsed s t r f p e =
      let v = validated ports parser_version file s r t e in
      let done = eq_of-some (rw (v, f, p, ingest_file) at e) in
      subst
        (IsOf ports parser_version durable.Stored durable.lasts durable.created parsed file
          (ports.sha256_hex file) r)
        (ap (λ x. x.1) done)
        (persist_and_publish-IsOf ports parser_version durable.Stored durable.lasts durable.created
          file (ports.sha256_hex file) parsed
          (ports.find_by_content_hash (ports.sha256_hex file) s).1 r (ap (λ x. x.0) done))

  raw_file_of :
      (i : Interchange) (t : S)
      → (length i.raw_content == 0) ≡ false
      → durable.Stored i t
      → (get_raw_file_response ports codec message i.id t).0
        ≡ raw_file200 i.raw_content (length i.raw_content)
  unfolding get_raw_file_response get_raw_file raw_file_answer handle_get_raw_file
  raw_file_of i t n kept =
      rw (readable.parses i.id, get_raw_file_response)
        (rw (readable.by_id i t kept, get_raw_file_response) (rw (n, get_raw_file_response) refl))

  detail_of :
      (parsed : ParseResult) (i : Interchange) (t : S)
      → AreParties parsed i
      → i.status ≡ completed
      → durable.Stored i t
      → (body : DetailBody) × ((get_interchange_response ports codec message i.id t).0
          ≡ interchange200 body)
        × IsAbout parsed i.id body
  unfolding get_interchange_response get_interchange interchange_detail interchange_answer
      handle_get_interchange
  detail_of parsed i t parties done kept = (
    detail_body (interchange_detail ports i.id i (ports.find_by_id i.id t).1).0,
    rw (readable.parses i.id, get_interchange_response)
        (rw (readable.by_id i t kept, get_interchange_response) refl),
    record {
      same_id = refl;
      sender = parties.0;
      receiver = parties.1;
      reference = parties.2;
      prepared = parties.3;
      status = rw done refl;
    },
  )

  -- A file that is not stored yet and parses, once it is answered without an error: downloading the
  -- raw file of the interchange in the answer gives back the bytes of the upload and their number,
  -- and reading the interchange gives its id, the sender, the receiver, the reference and the time
  -- of preparation that were parsed from the file, and the status completed.
  pub ingest_file-downloads :
      (file : Bytes) (parsed : ParseResult) (s t : S) (r : Ports.IngestResult)
      → found (ports.find_by_content_hash (ports.sha256_hex file) s).0 ≡ none
      → ports.parse file ≡ some (ok parsed)
      → ingest_file ports parser_version file s ≡ some (replied r, t)
      → ((get_raw_file_response ports codec message r.interchange_id t).0
          ≡ raw_file200 file (length file))
        × ((body : DetailBody) × ((get_interchange_response ports codec message r.interchange_id
                t).0
              ≡ interchange200 body)
            × IsAbout parsed r.interchange_id body)
  ingest_file-downloads file parsed s t r f p e =
      let (i, id, (_, done, raw), parties, kept) = stored file parsed s t r f p e in
      let v = validated ports parser_version file s r t e in
      let filled : (length i.raw_content == 0) ≡ false =
        ap (λ b. length b == 0) raw ∙ not_empty file v in
      (
        ap (λ x. (get_raw_file_response ports codec message x t).0) id
            ∙ raw_file_of i t filled kept
            ∙ ap (λ b. raw_file200 b (length b)) raw,
        subst
            (λ x.
              (body : DetailBody) × ((get_interchange_response ports codec message x t).0
                ≡ interchange200 body)
              × IsAbout parsed x body)
            (sym id) (detail_of parsed i t parties done kept),
      )
