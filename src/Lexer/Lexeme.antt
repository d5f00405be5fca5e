-- ===== src/Lexer/Lexeme.antt =====
-- `NextToken` of lexer.go as a function of the bytes that remain and two flags: no lookahead, no
-- reader, no fuel.
use edifact_parser.Base.{
  Bool, true, false, ◌&&◌, Option, none, some, [], ◌∷◌, Bytes, take_while, drop_while, ◌==◌,
  if◌then◌else◌,
}
use edifact_parser.Delimiters.{Delimiters}
use edifact_parser.Token.{
  TokenType, segment_tag, data_element, component, segment_end, end_of_input, error,
}
use edifact_parser.Lexer.{is_alphanumeric, is_whitespace}
use edifact_parser.Lexer.Value.{scan}

pub record Lexeme : Type 0 where
  pub kind : TokenType
  pub text : Bytes
  pub rest : Bytes
  pub after_segment_end : Bool
  pub at_segment_start : Bool

unfoldable pub value_lexeme : TokenType → Bool → Bool → Option Bytes × Bytes → Lexeme
value_lexeme kind after start (none, rest) = record {
  kind = error;
  text = [];
  rest = rest;
  after_segment_end = after;
  at_segment_start = start;
}
value_lexeme kind after start (some t, rest) = record {
  kind = kind;
  text = t;
  rest = rest;
  after_segment_end = after;
  at_segment_start = start;
}

abbrev pub tag_lexeme : Bytes → Lexeme
tag_lexeme bs = record {
  kind = segment_tag;
  text = take_while is_alphanumeric bs;
  rest = drop_while is_alphanumeric bs;
  after_segment_end = false;
  at_segment_start = true;
}

unfoldable pub head_lexeme : Delimiters → Bool → Bool → Bytes → Lexeme
unfolding value_lexeme
head_lexeme d after start [] = record {
  kind = end_of_input;
  text = [];
  rest = [];
  after_segment_end = after;
  at_segment_start = start;
}
head_lexeme d after start (c ∷ cs) =
    if after && is_alphanumeric c
    then tag_lexeme (c ∷ cs)
    else if c == d.segment_terminator
    then record {
      kind = segment_end;
      text = c ∷ [];
      rest = cs;
      after_segment_end = true;
      at_segment_start = true;
    }
    else if c == d.data_element_separator
    then value_lexeme data_element after false (scan d cs)
    else if c == d.component_separator
    then value_lexeme component after start (scan d cs)
    else if start && is_alphanumeric c
    then tag_lexeme (c ∷ cs)
    else record {
      kind = error;
      text = [];
      rest = c ∷ cs;
      after_segment_end = after;
      at_segment_start = start;
    }

unfoldable pub lexeme : Delimiters → Bool → Bool → Bytes → Lexeme
unfolding head_lexeme
lexeme d after start bs =
    head_lexeme d after start (if after then drop_while is_whitespace bs else bs)

abbrev pub is_error : TokenType → Bool
is_error error = true
is_error _ = false
