-- ===== src/Parser/Interchange.antt =====
-- `NewParser` and `Parse` of parser.go.
use edifact_parser.Base.{
  ℕ, zero, suc, Bool, true, false, ◌&&◌, Option, none, some, List, [], ◌∷◌, ◌++◌, Bytes, codes,
  length, leb, take, bytes_eq, drop_while, ◌==◌, if◌then◌else◌, ◌>>=◌,
}
use edifact_parser.Delimiters.{
  Delimiters, default_delimiters, una_length, UnaResult, UnaError, parse_una,
}
use edifact_parser.Token.{una}
use edifact_parser.Lexer.{new_lexer, is_whitespace}
use edifact_parser.Parser.State.{
  Stdlib, missing_unb, missing_unz, ParseError, ParsedMessage, ParseResult, Parser, advance,
  is_segment_tag, add_error, combined_error, is_empty,
}
use edifact_parser.Parser.Segments.{skip_segment}
use edifact_parser.Parser.Headers.{parse_unb, parse_unz}
use edifact_parser.Parser.Messages.{parse_message, segment_tag_unh}

abbrev pub segment_tag_una : Bytes
segment_tag_una = codes "UNA"

abbrev pub segment_tag_unb : Bytes
segment_tag_unb = codes "UNB"

abbrev pub segment_tag_unz : Bytes
segment_tag_unz = codes "UNZ"

pub data NewError : Type 0 where
  empty_data : NewError
  una_error : UnaError → NewError

unfoldable pub trim_leading_whitespace : Bytes → Bytes
trim_leading_whitespace bs = drop_while is_whitespace bs

-- The parser over the trimmed input, its first token read.
unfoldable pub start : Bytes → Bytes → Delimiters → Parser
start bs trimmed d = advance (record {
  lexer = new_lexer trimmed d;
  current_token = record { value = []; kind = una; line = 0; column = 0 };
  errors = [];
  raw_data = bs;
})

pub data NewResult : Type 0 where
  ok : Parser → NewResult
  err : NewError → NewResult

unfoldable pub with_una : Bytes → Bytes → UnaResult → NewResult
with_una bs trimmed (UnaResult.ok d) = ok (start bs trimmed d)
with_una bs trimmed (UnaResult.err e) = err (una_error e)

unfoldable pub new_parser : Bytes → NewResult
unfolding trim_leading_whitespace with_una start
new_parser bs =
    let trimmed = trim_leading_whitespace bs in
    if length bs == 0
    then err empty_data
    else if leb una_length (length trimmed) && bytes_eq (take 3 trimmed) segment_tag_una
    then with_una bs trimmed (parse_una (take una_length trimmed))
    else ok (start bs trimmed default_delimiters)

-- `subscriptionSet`
abbrev pub in_set : Bytes → List Bytes → Bool
in_set x [] = false
in_set x (y ∷ ys) = if bytes_eq y x then true else in_set x ys

-- A parsed message joins the result; its subscription only if it is new.
unfoldable pub add_message : ParsedMessage → ParseResult × List Bytes → ParseResult × List Bytes
add_message msg (result, seen) =
    let more = record result { messages = result.messages ++ msg ∷ [] } in
    if is_empty msg.subscription_id
    then (more, seen)
    else if in_set msg.subscription_id seen
    then (more, seen)
    else (
      record more { subscriptions = result.subscriptions ++ msg.subscription_id ∷ [] },
      msg.subscription_id ∷ seen,
    )

abbrev pub add_parsed : Option ParsedMessage → ParseResult × List Bytes → ParseResult × List Bytes
add_parsed none r = r
add_parsed (some msg) r = add_message msg r

-- `for p.isSegmentTag("UNH")`
unfoldable pub messages_loop :
    ℕ → ℕ → ParseResult × List Bytes → Parser → Option ((ParseResult × List Bytes) × Parser)
messages_loop n zero r p = none
messages_loop n (suc k) r p = elim (is_segment_tag p segment_tag_unh) [
  | false ↦ some (r, p)
  | true ↦ do (parsed, q) ← parse_message n p; messages_loop n k (add_parsed parsed r) q
]

pub data ParseOutcome : Type 0 where
  accepted : ParseResult → ParseOutcome
  rejected : Option (List ParseError) → ParseOutcome

abbrev pub reject_at_token : Parser → ParseOutcome
reject_at_token p = rejected (combined_error p)

abbrev pub empty_result : Bytes → ParseResult
empty_result hash = record {
  sender_id = [];
  sender_qualifier = [];
  receiver_id = [];
  receiver_qualifier = [];
  reference = [];
  prepared_at = 0;
  content_hash = hash;
  messages = [];
  subscriptions = [];
}

unfoldable pub compute_content_hash : Stdlib → Bytes → Bytes
compute_content_hash std bs = std.sha256_hex bs

module _ (std : Stdlib) (n : ℕ) where
  unfoldable pub parse_trailer : ParseResult → Parser → Option ParseOutcome
  parse_trailer result p = elim (is_segment_tag p segment_tag_unz) [
    | false ↦ some (
        rejected
          (combined_error (add_error p p.current_token.line p.current_token.column missing_unz)))
    | true ↦ do
      (e, q) ← parse_unz std n result p
      some (elim e [
        | some es ↦ rejected (some es)
        | none ↦ elim (combined_error q) [ some es ↦ rejected (some es) | none ↦ accepted result ]
      ])
  ]

  unfoldable pub parse_body : ParseResult → Parser → Option ParseOutcome
  unfolding messages_loop add_message parse_trailer
  parse_body result p = do (r, q) ← messages_loop n n (result, []) p; parse_trailer r.0 q

  unfoldable pub parse_interchange : ParseResult → Parser → Option ParseOutcome
  parse_interchange result p = elim (is_segment_tag p segment_tag_unb) [
    | false ↦ some (
        rejected
          (combined_error (add_error p p.current_token.line p.current_token.column missing_unb)))
    | true ↦ do
      ((e, header), q) ← parse_unb std n result p
      elim e [ some es ↦ some (rejected (some es)) | none ↦ parse_body header q ]
  ]

  unfoldable pub parse : Parser → Option ParseOutcome
  unfolding parse_interchange compute_content_hash
  parse p =
      let result = empty_result (compute_content_hash std p.raw_data) in
      elim (is_segment_tag p segment_tag_una) [
        | true ↦ do q ← skip_segment n p; parse_interchange result q
        | false ↦ parse_interchange result p
      ]

-- The adapter `edifactParser.Parse` of runtime/dependency_options.go; the two result types have
-- the same fields.
pub data FileOutcome : Type 0 where
  parsed : ParseResult → FileOutcome
  creation_failed : NewError → FileOutcome
  parse_failed : Option (List ParseError) → FileOutcome

abbrev pub file_outcome : ParseOutcome → FileOutcome
file_outcome (accepted result) = parsed result
file_outcome (rejected es) = parse_failed es

unfoldable pub parse_new : Stdlib → ℕ → NewResult → Option FileOutcome
parse_new std n (NewResult.err e) = some (creation_failed e)
parse_new std n (NewResult.ok p) = do o ← parse std n p; some (file_outcome o)

unfoldable pub parse_file : Stdlib → ℕ → Bytes → Option FileOutcome
unfolding parse_new
parse_file std n bs = parse_new std n (new_parser bs)
