-- ===== src/Tests/Parsed.antt =====
-- The properties of parser.go at concrete inputs.
use edifact_parser.Base.{
  ℕ, zero, suc, List, [], ◌∷◌, ◌++◌, Option, none, some, Bytes, codes, Bool, true, false, ◌≡◌, ◌≢◌,
  refl, ap, ◌∙◌, arith, bytes_eq, drop_while,
}
use edifact_parser.Delimiters.{default_delimiters, parse_una}
use edifact_parser.Token.{TokenType, end_of_input, segment_tag, error}
use edifact_parser.Lexer.{
  new_lexer, next_token, scan_token, skip_inter_segment_whitespace, lex_element, lex_component,
  lex_segment_tag, lex_segment_end, lex_value, is_alphanumeric, is_whitespace,
}
use edifact_parser.Parser.State.{
  ParseResult, ParseError, Parser, is_segment_tag, advance, segment_to_map, component_or,
  combined_error, require,
}
use edifact_parser.Parser.Segments.{skip_segment, read_segment}
use edifact_parser.Parser.Headers.{parse_unb, parse_unz}
use edifact_parser.Parser.Messages.{parse_message}
use edifact_parser.Parser.Interchange.{
  ok, FileOutcome, parsed, creation_failed, parse_failed, empty_result, new_parser, parse,
  parse_body, parse_file, parse_new, start, trim_leading_whitespace,
}
use edifact_parser.Parser.Termination.{Ready, after_tokens}
use edifact_parser.Parser.Termination.File.{IsDone, parse_file-IsDone}
use edifact_parser.Parser.Divergence.{IsForeign, parse_file-IsForeign}
use edifact_parser.Parser.Acceptance.{Post}
use edifact_parser.Parser.Acceptance.Messages.{IsNamed?, parse_message-Post}
use edifact_parser.Parser.Acceptance.Trailer.{Agrees, parse_unz-Agrees}
use edifact_parser.Parser.Acceptance.Result.{IsAccepted, parse_file-IsAccepted}
use edifact_parser.Tests.Memory.{small_result}
use edifact_parser.Tests.Parsing.{std, sample, digits}

space-IsForeign : IsForeign b' '
unfolding is_alphanumeric
space-IsForeign = record { no_end = refl; no_letter = refl; no_delimiter = refl }

parse_file-IsForeign_example :
    parse_file std 1000 (codes "UNB" ++ b' ' ∷ codes "+UNOC:3+S:14+R:14+240101:0930+REF1'") ≡ none
parse_file-IsForeign_example =
    parse_file-IsForeign std 1000 b' ' (codes "+UNOC:3+S:14+R:14+240101:0930+REF1'") space-IsForeign

-- A parser over these bytes, its first token read.
abbrev parser_of : Bytes → Parser
parser_of bs = start bs bs default_delimiters

abbrev message_parser : Parser
message_parser = parser_of (codes "UNH+M1+MSCONS:D:11A'LOC+172+DE1'UNT+3+M1'UNZ+1+REF1'")

parse_message-Post_example : Post message_parser (parse_message 60 message_parser) IsNamed?
parse_message-Post_example = parse_message-Post 60 message_parser

result_of : Option FileOutcome → ParseResult
result_of (some (parsed r)) = r
result_of _ = empty_result []

pub sample_result : ParseResult
unfolding result_of
sample_result = result_of (parse_file std 200 sample)

is_parsed : Option FileOutcome → Bool
is_parsed (some (parsed r)) = true
is_parsed _ = false

eq-result_of : (o : Option FileOutcome) → is_parsed o ≡ true → o ≡ some (parsed (result_of o))
unfolding is_parsed result_of
eq-result_of (some (parsed r)) h = refl
eq-result_of (some (creation_failed e)) h = cc
eq-result_of (some (parse_failed e)) h = cc
eq-result_of none h = cc

sample-is_parsed : is_parsed (parse_file std 200 sample) ≡ true
unfolding is_parsed parse_file parse_new new_parser next_token scan_token
    skip_inter_segment_whitespace lex_element lex_component lex_segment_tag lex_segment_end
    lex_value new_lexer parse parse_unb parse_unz parse_message digits bytes_eq drop_while
    is_segment_tag segment_to_map component_or combined_error require parse_una parse_body
    skip_segment read_segment advance
sample-is_parsed = refl

pub sample_parsed : parse_file std 200 sample ≡ some (parsed sample_result)
unfolding sample_result
sample_parsed = eq-result_of (parse_file std 200 sample) sample-is_parsed

parse_file-IsAccepted_example : IsAccepted std sample sample_result
parse_file-IsAccepted_example = parse_file-IsAccepted std 200 sample sample_result sample_parsed

-- A file of one tag.
abbrev tag_parser : Parser
tag_parser = parser_of (codes "UNB")

tag_parser-rest : (k : ℕ) → after_tokens k tag_parser.lexer ≡ tag_parser.lexer
unfolding after_tokens start advance next_token scan_token lex_segment_tag new_lexer
    skip_inter_segment_whitespace
tag_parser-rest zero = refl
tag_parser-rest (suc k) = tag_parser-rest k

end-ne-error : (k : TokenType) → k ≡ end_of_input → k ≢ error
end-ne-error k h e = cc

tag-ne-error : (k : TokenType) → k ≡ segment_tag → k ≢ error
tag-ne-error k h e = cc

at_end : (next_token tag_parser.lexer).0.kind ≡ end_of_input
unfolding start advance next_token scan_token lex_segment_tag new_lexer
    skip_inter_segment_whitespace
at_end = refl

at_tag : tag_parser.current_token.kind ≡ segment_tag
unfolding start advance next_token scan_token lex_segment_tag new_lexer
    skip_inter_segment_whitespace
at_tag = refl

tag_parser-Ready : Ready tag_parser
tag_parser-Ready = record {
  clean = λ k.
      end-ne-error (next_token (after_tokens k tag_parser.lexer)).0.kind
        (ap (λ l. (next_token l).0.kind) (tag_parser-rest k) ∙ at_end);
  no_error = tag-ne-error tag_parser.current_token.kind at_tag;
}

tag_parser-new : new_parser (codes "UNB") ≡ ok tag_parser
unfolding new_parser trim_leading_whitespace bytes_eq drop_while is_whitespace
tag_parser-new = refl

parse_file-IsDone_example : IsDone (parse_file std 5 (codes "UNB"))
parse_file-IsDone_example =
    parse_file-IsDone std 5 (codes "UNB") tag_parser tag_parser-new tag_parser-Ready (omega arith)

-- The trailer of a result with one message.
abbrev trailer_parser : Parser
trailer_parser = parser_of (codes "UNZ+1+REF1'")

abbrev Trailer : Type 0
Trailer = Option (Option (List ParseError) × Parser)

is_clean : Trailer → Bool
is_clean (some (none, q)) = true
is_clean _ = false

parser_behind : Trailer → Parser
parser_behind (some (e, q)) = q
parser_behind none = trailer_parser

eq-parser_behind :
    (o : Option (Option (List ParseError) × Parser))
    → is_clean o ≡ true
    → o ≡ some (none, parser_behind o)
unfolding is_clean parser_behind
eq-parser_behind (some (none, q)) h = refl
eq-parser_behind (some (some es, q)) h = cc
eq-parser_behind none h = cc

parse_unz_clean : is_clean (parse_unz std 30 small_result trailer_parser) ≡ true
unfolding is_clean next_token scan_token skip_inter_segment_whitespace lex_element lex_component
    lex_segment_tag lex_segment_end lex_value new_lexer parse_unz digits bytes_eq is_segment_tag
    combined_error read_segment advance start
parse_unz_clean = refl

parse_unz-Agrees_example :
    Agrees std 30 small_result trailer_parser
      (parser_behind (parse_unz std 30 small_result trailer_parser))
parse_unz-Agrees_example =
    parse_unz-Agrees std 30 small_result trailer_parser
      (parser_behind (parse_unz std 30 small_result trailer_parser))
      (eq-parser_behind (parse_unz std 30 small_result trailer_parser) parse_unz_clean)
