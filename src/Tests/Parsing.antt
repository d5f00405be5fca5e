-- ===== src/Tests/Parsing.antt =====
-- Runs of delimiters.go, lexer.go and parser.go.
use edifact_parser.Base.{
  ℕ, ◌+◌, ◌-◌, ◌*◌, Bool, true, false, ◌&&◌, Option, none, some, [], ◌∷◌, Bytes, codes, length, leb,
  bytes_eq, drop_while, ◌==◌, if◌then◌else◌, ◌>>=◌, ◌≡◌, refl,
}
use edifact_parser.Delimiters.{parse_una}
use edifact_parser.Lexer.{
  new_lexer, next_token, scan_token, skip_inter_segment_whitespace, lex_element, lex_component,
  lex_segment_tag, lex_segment_end, lex_value,
}
use edifact_parser.Parser.State.{
  pos, Stdlib, is_segment_tag, advance, segment_to_map, component_or, combined_error, require,
}
use edifact_parser.Parser.Segments.{read_segment, skip_segment}
use edifact_parser.Parser.Headers.{parse_unb, parse_unz}
use edifact_parser.Parser.Messages.{parse_message}
use edifact_parser.Parser.Interchange.{
  new_parser, parse, parse_body, ok, err, ParseOutcome, accepted,
}

unfoldable pub digits : ℕ → Bytes → Option ℕ
digits n [] = some n
digits n (c ∷ cs) =
    let rest = digits (n * 10 + (c - b'0')) cs in if leb b'0' c && leb c b'9' then rest else none

-- A stand-in for the standard library that accepts every date.
abbrev pub std : Stdlib
std = record {
  time_parse = λ _. some 63_000_000_000;
  scan_int = λ bs. digits 0 bs >>= λ n. some (pos n);
  sha256_hex = λ _. codes "0123456789abcdef0123456789abcdef0123456789abcdef0123456789abcdef";
}

run : ℕ → Bytes → Option ParseOutcome
unfolding new_parser parse read_segment skip_segment is_segment_tag advance
run n bs = elim (new_parser bs) [ err _ ↦ none | ok p ↦ parse std n p ]

abbrev pub sample : Bytes
sample =
    codes
      "UNA:+.? 'UNB+UNOC:3+S:14+R:14+240101:0930+REF1'\nUNH+M1+MSCONS:D:11A'LOC+172+DE?'1'UNT+3+M1'UNZ+1+REF1'"

abbrev is_accepted : Option ParseOutcome → Bool
is_accepted (some (accepted r)) = length r.messages == 1 && length r.subscriptions == 1
is_accepted _ = false

sample_ok : is_accepted (run 200 sample) ≡ true
unfolding run next_token scan_token skip_inter_segment_whitespace lex_element lex_component
    lex_segment_tag lex_segment_end lex_value new_lexer parse parse_unb parse_unz parse_message
    digits bytes_eq drop_while is_segment_tag segment_to_map component_or combined_error require
    parse_una parse_body
sample_ok = refl
