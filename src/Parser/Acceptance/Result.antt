-- ===== src/Parser/Acceptance/Result.antt =====
-- What holds of every result that parser.go returns without an error.
use edifact_parser.Base.{
  ℕ, none, some, List, [], ◌≡◌, ◌≢◌, refl, ap, ◌∙◌, ◌⊎◌, inl, inr, Bytes, Bool-cases, Option-cases,
  eq_of-some, All,
}
use edifact_parser.Parser.State.{
  Stdlib, Parser, advance, ParseResult, is_segment_tag, combined_error,
}
use edifact_parser.Parser.Segments.{skip_segment}
use edifact_parser.Parser.Headers.{parse_unb, parse_unz}
use edifact_parser.Parser.Interchange.{
  empty_result, segment_tag_una, segment_tag_unb, segment_tag_unz, in_set, messages_loop,
  ParseOutcome, accepted, rejected, parsed, new_parser, NewResult, ok, err, parse, parse_trailer,
  parse_body, parse_interchange, parse_new, parse_file, compute_content_hash, start, file_outcome,
  NewError,
}
use edifact_parser.Parser.Termination.File.{new_parser-start}
use edifact_parser.Parser.Acceptance.{read_segment-Post}
use edifact_parser.Parser.Acceptance.Messages.{IsNamed}
use mathlib.Core.Path.{subst}
use edifact_parser.Parser.Acceptance.Trailer.{parse_unz-Agrees}
use edifact_parser.Parser.Acceptance.Loop.{mentioned, IsNodup, LoopKeeps, messages_loop-Post}
use edifact_parser.Parser.Acceptance.Header.{IsHeader, IsHeader-LoopInv, parse_unb-IsHeader}

NewResult-cases : (x : NewResult) → ((e : NewError) × (x ≡ err e)) ⊎ ((p : Parser) × (x ≡ ok p))
NewResult-cases (ok p) = inr (p, refl)
NewResult-cases (err e) = inl (e, refl)

-- What a result says that was returned without an error.
pub record IsAccepted (std : Stdlib) (bs : Bytes) (r : ParseResult) : Type 0 where
  pub has_sender : r.sender_id ≢ []
  pub has_receiver : r.receiver_id ≢ []
  pub has_reference : r.reference ≢ []
  pub hash_is : r.content_hash ≡ std.sha256_hex bs
  pub named : All IsNamed r.messages
  pub distinct : IsNodup r.subscriptions
  pub complete : (b : Bytes) → in_set b r.subscriptions ≡ mentioned b r.messages

IsAccepted-loop :
    (std : Stdlib) (bs : Bytes) (h : ParseResult) (x : ParseResult × List Bytes)
    → IsHeader (std.sha256_hex bs) h
    → LoopKeeps (h, []) x
    → IsAccepted std bs x.0
IsAccepted-loop std bs h x header k =
    let inv = k.inv (IsHeader-LoopInv _ h header) in
    record {
      has_sender = rw k.header.sender header.sender;
      has_receiver = rw k.header.receiver header.receiver;
      has_reference = rw k.header.reference header.reference;
      hash_is = k.header.hash ∙ header.hash_is;
      named = inv.named;
      distinct = inv.distinct;
      complete = inv.complete;
    }

accepted-injective : {a b : ParseResult} → accepted a ≡ accepted b → a ≡ b
accepted-injective h = cc

parse_trailer-accepted :
    (std : Stdlib) (n : ℕ) (result r : ParseResult) (p : Parser)
    → parse_trailer std n result p ≡ some (accepted r)
    → (result ≡ r) × (p.errors ≡ [])
unfolding parse_trailer
parse_trailer-accepted std n result r p e = elim (Bool-cases (is_segment_tag p segment_tag_unz)) [
  | inr u ↦ cc (rw (u, parse_trailer) at e)
  | inl u ↦ elim (Option-cases (parse_unz std n result p)) [
    | inl o ↦ cc (rw (u, o, parse_trailer) at e)
    | inr ((some es, q), o) ↦ cc (rw (u, o, parse_trailer) at e)
    | inr ((none, q), o) ↦
        let agrees = parse_unz-Agrees std n result p q o in
        let clean : combined_error q ≡ none = (unfold combined_error in rw agrees.no_errors) in
        (
          accepted-injective (eq_of-some (rw (u, o, clean, parse_trailer) at e)),
          ((read_segment-Post n p).at agrees.trailer agrees.behind agrees.read
              agrees.no_errors_before).0,
        )
  ]
]

module _ (std : Stdlib) (n : ℕ) (bs : Bytes) (r : ParseResult) where
  parse_body-IsAccepted :
      (h : ParseResult) (p : Parser)
      → IsHeader (std.sha256_hex bs) h
      → parse_body std n h p ≡ some (accepted r)
      → IsAccepted std bs r
  unfolding parse_body
  parse_body-IsAccepted h p header e = elim (Option-cases (messages_loop n n (h, []) p)) [
    | inl o ↦ cc (rw (o, parse_body) at e)
    | inr ((x, q), o) ↦
        let (same, clean) = parse_trailer-accepted std n x.0 r q (rw (o, parse_body) at e) in
        subst (IsAccepted std bs) same
          (IsAccepted-loop std bs h x header ((messages_loop-Post n n (h, []) p).at x q o clean).1)
  ]

  parse_interchange-IsAccepted :
      (p : Parser)
      → parse_interchange std n (empty_result (std.sha256_hex bs)) p ≡ some (accepted r)
      → IsAccepted std bs r
  unfolding parse_interchange
  parse_interchange-IsAccepted p e = elim (Bool-cases (is_segment_tag p segment_tag_unb)) [
    | inr u ↦ cc (rw (u, parse_interchange) at e)
    | inl u ↦ elim (Option-cases (parse_unb std n (empty_result (std.sha256_hex bs)) p)) [
      | inl o ↦ cc (rw (u, o, parse_interchange) at e)
      | inr (((some es, header), q), o) ↦ cc (rw (u, o, parse_interchange) at e)
      | inr (((none, header), q), o) ↦
          parse_body-IsAccepted header q
            (parse_unb-IsHeader std (std.sha256_hex bs) n p ((none, header), q) o refl)
            (rw (u, o, parse_interchange) at e)
    ]
  ]

parse-IsAccepted :
    (std : Stdlib) (n : ℕ) (p : Parser) (r : ParseResult)
    → parse std n p ≡ some (accepted r)
    → IsAccepted std p.raw_data r
unfolding parse compute_content_hash
parse-IsAccepted std n p r e = elim (Bool-cases (is_segment_tag p segment_tag_una)) [
  | inr u ↦ parse_interchange-IsAccepted std n p.raw_data r p (rw (u, parse) at e)
  | inl u ↦ elim (Option-cases (skip_segment n p)) [
    | inl o ↦ cc (rw (u, o, parse) at e)
    | inr (q, o) ↦ parse_interchange-IsAccepted std n p.raw_data r q (rw (u, o, parse) at e)
  ]
]

new_parser-raw_data : (bs : Bytes) (p : Parser) → new_parser bs ≡ ok p → p.raw_data ≡ bs
unfolding start advance
new_parser-raw_data bs p e = let (d, s) = new_parser-start bs p e in rw (← s) refl

parsed_outcome : (o : ParseOutcome) (r : ParseResult) → file_outcome o ≡ parsed r → o ≡ accepted r
parsed_outcome (accepted x) r h = cc
parsed_outcome (rejected es) r h = cc

-- A file that is parsed without an error has a sender, a receiver and a reference, the digest of
-- its bytes, messages that all have a reference and a type, and as its subscriptions exactly the
-- messages' subscription ids that are not empty, each once.
pub parse_file-IsAccepted :
    (std : Stdlib) (n : ℕ) (bs : Bytes) (r : ParseResult)
    → parse_file std n bs ≡ some (parsed r)
    → IsAccepted std bs r
unfolding parse_file parse_new
parse_file-IsAccepted std n bs r e = elim (NewResult-cases (new_parser bs)) [
  | inl (x, o) ↦ cc (rw (o, parse_new) at e)
  | inr (p, o) ↦ elim (Option-cases (parse std n p)) [
    | inl q ↦ cc (rw (o, q, parse_new) at e)
    | inr (a, q) ↦
        let same = parsed_outcome a r (eq_of-some (rw (o, q, parse_new) at e)) in
        subst (λ b. IsAccepted std b r) (new_parser-raw_data bs p o)
          (parse-IsAccepted std n p r (q ∙ ap some same))
  ]
]
