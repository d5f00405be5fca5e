-- ===== src/Ingestion/Sizes.antt =====
-- `IngestFile` by the size of the file: `validateFile`, and the lookup behind it.
use mathlib.Core.Option
use edifact_parser.Base.{
  ◌≤◌, ◌<◌, Option, none, some, [], Bytes, length, ltb, ◌==◌, ◌≡◌, refl, arith, inl, inr,
  Bool-cases, Option-cases,
}
use edifact_parser.Domain.{ok}
use edifact_parser.Domain.Interchange.{Interchange}
use edifact_parser.Ingestion.Ports
use edifact_parser.Ingestion.Service.{
  validate_file, Reply, replied, refused, found, ingest_file, ingest_parsed,
}
use edifact_parser.Ingestion.Yields.{Result-cases}

admitted : (file : Bytes) → 1 ≤ length file → length file ≤ 10_485_760 → validate_file file ≡ none
unfolding validate_file
admitted file low high = ground (arith, low, high)

-- The answer by the size of the file and by the lookup of its digest, with the state that it leaves.
pub data BySize {S : Type 0} (ports : Ports.Ports S) (parser_version file : Bytes) (s : S)
    (r : Option (Reply × S)) : Type 0 where
  is_empty_file :
      length file ≡ 0
      → r ≡ some (refused Ports.file_empty, s)
      → BySize ports parser_version file s r
  is_too_large :
      10_485_760 < length file
      → r ≡ some (refused Ports.file_too_large, s)
      → BySize ports parser_version file s r
  is_stored :
      (i : Interchange)
      → 1 ≤ length file
      → length file ≤ 10_485_760
      → (ports.find_by_content_hash (ports.sha256_hex file) s).0 ≡ ok (some i)
      → r
        ≡ some (
          replied (record {
            interchange_id = i.id;
            status = i.status;
            message_count = 0;
            subscription_count = 0;
            events = [];
          }),
          (ports.find_by_content_hash (ports.sha256_hex file) s).1,
        )
      → BySize ports parser_version file s r
  is_new :
      1 ≤ length file
      → length file ≤ 10_485_760
      → found (ports.find_by_content_hash (ports.sha256_hex file) s).0 ≡ none
      → r
        ≡ Option.map
            (λ parsed.
              ingest_parsed ports parser_version file
                (ports.sha256_hex file)
                parsed
                (ports.find_by_content_hash (ports.sha256_hex file) s).1)
            (ports.parse file)
      → BySize ports parser_version file s r

new-BySize :
    {S : Type 0} (ports : Ports.Ports S) (parser_version file : Bytes) (s : S)
    → 1 ≤ length file
    → length file ≤ 10_485_760
    → found (ports.find_by_content_hash (ports.sha256_hex file) s).0 ≡ none
    → BySize ports parser_version file s (ingest_file ports parser_version file s)
unfolding ingest_file
new-BySize ports parser_version file s low high f =
    let v = admitted file low high in
    elim (Option-cases (ports.parse file)) [
      | inl p ↦ is_new low high f (rw (v, f, p, ingest_file) refl)
      | inr (o, p) ↦ is_new low high f (rw (v, f, p, ingest_file) refl)
    ]

admitted-BySize :
    {S : Type 0} (ports : Ports.Ports S) (parser_version file : Bytes) (s : S)
    → 1 ≤ length file
    → length file ≤ 10_485_760
    → BySize ports parser_version file s (ingest_file ports parser_version file s)
unfolding ingest_file
admitted-BySize ports parser_version file s low high =
    elim (Result-cases (ports.find_by_content_hash (ports.sha256_hex file) s).0) [
      | inl (some i, f) ↦ is_stored i low high f (rw (admitted file low high, f, ingest_file) refl)
      | inl (none, f) ↦ new-BySize ports parser_version file s low high (rw f refl)
      | inr (e, f) ↦ new-BySize ports parser_version file s low high (rw f refl)
    ]

-- An empty file is answered with the error for empty files, and one of more than 10,485,760 bytes
-- with the error for large ones, neither with a result, and the state behind the ports is left as it
-- was. Any other file is looked up by the digest of its bytes: one that is stored is answered with
-- its interchange and no events, in the state that the lookup leaves; one that the lookup does not
-- find, or that it fails for, goes to the parser, and what that returns is ingested.
pub ingest_file-BySize :
    {S : Type 0} (ports : Ports.Ports S) (parser_version file : Bytes) (s : S)
    → BySize ports parser_version file s (ingest_file ports parser_version file s)
unfolding ingest_file validate_file
ingest_file-BySize ports parser_version file s = elim (Bool-cases (length file == 0)) [
  | inl a ↦ let h : length file ≡ 0 = ground (arith, a) in is_empty_file h (ground (arith, h))
  | inr a ↦ elim (Bool-cases (ltb 10_485_760 (length file))) [
    | inl b ↦
        let h : 10_485_760 < length file = ground (arith, b) in is_too_large h (ground (arith, h))
    | inr b ↦ admitted-BySize ports parser_version file s (ground (arith, a)) (ground (arith, b))
  ]
]
