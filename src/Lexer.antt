-- ===== src/Lexer.antt =====
-- adapters/inbound/edifact/lexer.go: the scanner with one byte of lookahead.
use edifact_parser.Base.{
  ℕ, zero, suc, ◌+◌, Bool, true, false, not, ◌&&◌, ◌||◌, Option, none, some, [], ◌∷◌, ◌++◌, Bytes,
  codes, length, leb, ◌==◌, if◌then◌else◌,
}
mod Quote
pub mod Printing
pub mod Printed
pub mod RoundTrip
pub mod Stream
pub mod Moves
pub mod Value
pub mod Lexeme
pub mod Refines
pub mod Positions
pub mod Progress
pub mod Stuck
use Quote.{quote_byte}
use edifact_parser.Delimiters.{Delimiters, is_release_char}
use edifact_parser.Token.{
  Token, TokenType, segment_tag, data_element, component, segment_end, end_of_input, error,
}

-- The sentinel that `readByte` returns at the end of the input.
abbrev pub eof : ℕ
eof = 0

-- `reader` holds the bytes that the buffered reader has not handed out yet.
pub record Lexer : Type 0 where
  pub reader : Bytes
  pub delimiters : Delimiters
  pub current : ℕ
  pub peek : ℕ
  pub line : ℕ
  pub column : ℕ
  pub at_eof : Bool
  pub after_segment_end : Bool
  pub at_segment_start : Bool

unfoldable pub is_alphanumeric : ℕ → Bool
is_alphanumeric b =
    (leb b'A' b && leb b b'Z') || (leb b'a' b && leb b b'z') || (leb b'0' b && leb b b'9')

unfoldable pub is_whitespace : ℕ → Bool
is_whitespace b = b == b' ' || b == b'\t' || b == b'\n' || b == b'\r'

read_from : Bytes → Lexer → ℕ × Lexer
read_from [] l = (eof, record l { at_eof = true })
read_from (b ∷ bs) l = (b, record l { reader = bs })

unfoldable pub read_byte : Lexer → ℕ × Lexer
unfolding read_from
read_byte l = if l.at_eof then (eof, l) else read_from l.reader l

-- The update of line and column by the byte that is left behind.
track : Lexer → Lexer
track l =
    if l.current == b'\n'
    then record l { line = l.line + 1; column = 1 }
    else record l { column = l.column + 1 }

unfoldable pub advance : Lexer → Lexer
unfolding read_byte track
advance l =
    let moved = track l in
    let (b, m) = read_byte (record moved { current = moved.peek }) in record m { peek = b }

unfoldable pub new_lexer : Bytes → Delimiters → Lexer
unfolding read_byte
new_lexer bs d =
    let start : Lexer = record {
      reader = bs;
      delimiters = d;
      current = 0;
      peek = 0;
      line = 1;
      column = 1;
      at_eof = false;
      after_segment_end = true;
      at_segment_start = true;
    } in
    let (c, l) = read_byte start in
    let (k, m) = read_byte (record l { current = c }) in record m { peek = k }

-- The lexer's loops advance at most so often: the bytes in the reader and the two before it.
abbrev pub rounds : Lexer → ℕ
rounds l = length l.reader + 2

pub skip_loop : ℕ → Lexer → Lexer
skip_loop zero l = l
skip_loop (suc n) l = elim (not (l.current == eof) && is_whitespace l.current) [
  | true ↦ skip_loop n (advance l)
  | false ↦ l
]

unfoldable pub skip_inter_segment_whitespace : Lexer → Lexer
unfolding skip_loop is_whitespace advance
skip_inter_segment_whitespace l = skip_loop (rounds l) l

pub tag_loop : ℕ → Lexer → Bytes → Bytes × Lexer
tag_loop zero l buf = (buf, l)
tag_loop (suc n) l buf = elim (not (l.current == eof) && is_alphanumeric l.current) [
  | true ↦ tag_loop n (advance l) (buf ++ l.current ∷ [])
  | false ↦ (buf, l)
]

unfoldable pub lex_segment_tag : Lexer → Token × Lexer
unfolding tag_loop is_alphanumeric advance
lex_segment_tag l =
    let (buf, m) = tag_loop (rounds l) l [] in
    (
      record { value = buf; kind = segment_tag; line = l.line; column = l.column },
      record m { after_segment_end = false; at_segment_start = true },
    )

unfoldable pub is_delimiter : Lexer → ℕ → Bool
is_delimiter l b =
    b == l.delimiters.component_separator
    || b == l.delimiters.data_element_separator
    || b == l.delimiters.segment_terminator

-- `none` is the early return on a release character at the end of the input.
pub value_loop : ℕ → Lexer → Bytes → Option Bytes × Lexer
value_loop zero l buf = (some buf, l)
value_loop (suc n) l buf = elim (l.current == eof) [
  | true ↦ (some buf, l)
  | false ↦ elim (is_release_char l.delimiters l.current) [
    | true ↦ elim (l.peek == eof) [
      | true ↦ (none, l)
      | false ↦
          let escaped = advance l in value_loop n (advance escaped) (buf ++ escaped.current ∷ [])
    ]
    | false ↦ elim (is_delimiter l l.current) [
      | true ↦ (some buf, l)
      | false ↦ value_loop n (advance l) (buf ++ l.current ∷ [])
    ]
  ]
]

value_token : TokenType → Lexer → Option Bytes × Lexer → Token × Lexer
value_token kind start (none, l) = (
  record {
    value = codes "release character at end of input";
    kind = error;
    line = l.line;
    column = l.column;
  },
  l,
)
value_token kind start (some buf, l) =
    (record { value = buf; kind = kind; line = start.line; column = start.column }, l)

unfoldable pub lex_value : TokenType → Lexer → Token × Lexer
unfolding value_token value_loop is_release_char is_delimiter advance
lex_value kind l = value_token kind l (value_loop (rounds l) l [])

unfoldable pub lex_segment_end : Lexer → Token × Lexer
unfolding advance
lex_segment_end l = (
  record { value = l.current ∷ []; kind = segment_end; line = l.line; column = l.column },
  record (advance l) { after_segment_end = true; at_segment_start = true },
)

-- A separator: the scanner steps over it, and reads the value behind it.
unfoldable pub lex_element : Lexer → Token × Lexer
lex_element l = lex_value data_element (record (advance l) { at_segment_start = false })

unfoldable pub lex_component : Lexer → Token × Lexer
lex_component l = lex_value component (advance l)

-- `NextToken` behind its first `if`.
unfoldable pub scan_token : Lexer → Token × Lexer
scan_token l =
    if l.current == eof
    then (record { value = []; kind = end_of_input; line = l.line; column = l.column }, l)
    else if l.after_segment_end && is_alphanumeric l.current
    then lex_segment_tag l
    else if l.current == l.delimiters.segment_terminator
    then lex_segment_end l
    else if l.current == l.delimiters.data_element_separator
    then lex_element l
    else if l.current == l.delimiters.component_separator
    then lex_component l
    else if l.at_segment_start && is_alphanumeric l.current
    then lex_segment_tag l
    else (
      record {
        value = codes "unexpected character " ++ quote_byte l.current;
        kind = error;
        line = l.line;
        column = l.column;
      },
      l,
    )

unfoldable pub next_token : Lexer → Token × Lexer
next_token l = scan_token (if l.after_segment_end then skip_inter_segment_whitespace l else l)
