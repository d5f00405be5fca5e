-- ===== src/Router/Upload.antt =====
-- The answers that the uploads of one file get.
use edifact_parser.Base.{ℕ, false, none, some, Bytes, length, ltb, ◌≡◌, refl, arith}
use edifact_parser.Domain.Interchange.{completed}
use edifact_parser.Ingestion.Ports
use edifact_parser.Ingestion.Service.{Reply, replied, max_file_size, validate_file, ingest_file}
use edifact_parser.Ingestion.Again.{Durable, known, ingest_file-again, validated}
use edifact_parser.Usecases.Handlers.{handle_ingest_file}
use edifact_parser.Router.{Ingest, response201, ingest_file_response, result_response}

-- The body of a 201 for a completed ingestion with so many messages.
abbrev pub created : Ports.IngestResult → ℕ → Ingest
created r n = record { interchange_id = r.interchange_id; status = completed; total = n }

pub in_size : (file : Bytes) → validate_file file ≡ none → ltb max_file_size (length file) ≡ false
unfolding validate_file
in_size file v = ground (arith, v)

completed_response :
    (message : Ports.ServiceError → Bytes) (file : Bytes) (r : Ports.IngestResult)
    → validate_file file ≡ none
    → r.status ≡ completed
    → ingest_file_response message (some file) (replied r)
      ≡ some (response201 (created r r.message_count))
unfolding ingest_file_response handle_ingest_file result_response
completed_response message file r v done = rw (in_size file v, done) refl

-- Where the table of interchanges keeps its rows, a file that was answered as completed and is sent
-- again is answered with 201 both times, and with the same interchange; the first body counts the
-- messages of that answer, and the second counts none.
pub ingest_file_response-again :
    {S : Type 0} (ports : Ports.Ports S) (parser_version : Bytes)
    (durable : Durable ports parser_version) (message : Ports.ServiceError → Bytes) (file : Bytes)
    (s : S) (r : Ports.IngestResult) (t : S)
    → ingest_file ports parser_version file s ≡ some (replied r, t)
    → r.status ≡ completed
    → (ingest_file_response message (some file) (replied r)
        ≡ some (response201 (created r r.message_count)))
      × ((u : S) × (reply : Reply) × (ingest_file ports parser_version file t ≡ some (reply, u))
          × (ingest_file_response message (some file) reply ≡ some (response201 (created r 0))))
ingest_file_response-again ports parser_version durable message file s r t e done =
    let v = validated ports parser_version file s r t e in
    (
      completed_response message file r v done,
      (
        (ports.find_by_content_hash (ports.sha256_hex file) t).1,
        replied (known r),
        ingest_file-again ports parser_version durable file s r t e done,
        completed_response message file (known r) v done,
      ),
    )
