-- ===== src/Parser/Divergence.antt =====
-- Where the loops of parser.go do not end: a token that the lexer reports again and again.
use edifact_parser.Base.{
  ℕ, zero, suc, true, false, ◌&&◌, Option, none, [], ◌∷◌, ◌++◌, ◌≡◌, refl, ap, sym, ◌∙◌, arith,
  Bytes, codes, bytes_eq, take_while, drop_while, ◌==◌, if◌then◌else◌,
}
use edifact_parser.Delimiters.{default_delimiters}
use edifact_parser.Token.{TokenType, error, segment_tag, is_segment_tag_type}
use edifact_parser.Lexer.{Lexer, new_lexer, next_token, is_alphanumeric, is_whitespace}
use edifact_parser.Lexer.Stream.{until_nul, view-new_lexer}
use edifact_parser.Lexer.Refines.{observe, next_token-lexeme}
use edifact_parser.Lexer.Lexeme.{Lexeme, lexeme, is_error}
use edifact_parser.Lexer.Positions.{next_token-TokenAt}
use edifact_parser.Lexer.Stuck.{IsUnexpected, IsUnexpected-next_token}
use edifact_parser.Lexer.Value.{is_structural}
use edifact_parser.Parser.State.{
  Stdlib, Parser, Segment, advance, is_segment_tag, add_error, ErrorText, unexpected_token,
}
use edifact_parser.Parser.Segments.{Element, read_loop, read_round, read_segment}
use edifact_parser.Parser.Headers.{parse_unb}
use edifact_parser.Parser.Interchange.{
  parse_file, segment_tag_una, segment_tag_unb, new_parser, start, ok, parse,
}

-- The current token is an error, and the lexer only reports it again.
pub record IsStuck (p : Parser) : Type 0 where
  pub kind : p.current_token.kind ≡ error
  pub repeats : (next_token p.lexer).0.kind ≡ error
  pub stays : (next_token p.lexer).1 ≡ p.lexer

read_round-error :
    (again : Parser → Segment → Element → Option (Segment × Parser)) (kind : TokenType) (p : Parser)
    (seg : Segment) (e : Element)
    → kind ≡ error
    → read_round again kind p seg e
      ≡ again
          (advance (
            add_error p p.current_token.line p.current_token.column
              (unexpected_token p.current_token.kind seg.tag)))
          seg
          e
unfolding read_round
read_round-error again error p seg e h = refl
read_round-error again _ p seg e h = cc

IsStuck-advance :
    (p : Parser) (line column : ℕ) (m : ErrorText)
    → IsStuck p
    → IsStuck (advance (add_error p line column m))
unfolding advance add_error
IsStuck-advance p line column m s = record {
  kind = s.repeats;
  repeats = rw s.stays s.repeats;
  stays = rw s.stays s.stays;
}

read_loop-IsStuck :
    (n : ℕ) (p : Parser) (seg : Segment) (e : Element) → IsStuck p → read_loop n p seg e ≡ none
unfolding read_loop
read_loop-IsStuck zero p seg e s = refl
read_loop-IsStuck (suc n) p seg e s =
    read_round-error (read_loop n) p.current_token.kind p seg e s.kind
    ∙ read_loop-IsStuck n
        (advance (
          add_error p p.current_token.line p.current_token.column
            (unexpected_token p.current_token.kind seg.tag)))
        seg e
        (IsStuck-advance p p.current_token.line p.current_token.column
          (unexpected_token p.current_token.kind seg.tag) s)

-- With a segment tag at hand and an error behind it, `readSegment` runs out of any fuel.
pub read_segment-IsStuck :
    (n : ℕ) (p : Parser)
    → is_segment_tag_type p.current_token.kind ≡ true
    → IsStuck (advance p)
    → read_segment n p ≡ none
unfolding read_segment
read_segment-IsStuck n p h s = rw (h, read_segment) (read_loop-IsStuck n (advance p) _ none s)

IsStuck-IsUnexpected :
    (p : Parser) {c : ℕ} {cs : Bytes} → IsUnexpected p.lexer c cs → IsStuck (advance p)
unfolding advance
IsStuck-IsUnexpected p u =
    let (kind, same) = IsUnexpected-next_token p.lexer u in
    record { kind = kind; repeats = rw same kind; stays = rw same same }

-- A byte that no segment can go on with: no letter, digit or default delimiter, and no end.
pub record IsForeign (c : ℕ) : Type 0 where
  pub no_end : (c == 0) ≡ false
  pub no_letter : is_alphanumeric c ≡ false
  pub no_delimiter : is_structural default_delimiters c ≡ false

module _ (c : ℕ) (rest : Bytes) (f : IsForeign c) where
  abbrev text : Bytes
  text = codes "UNB" ++ c ∷ rest

  abbrev begun : Lexer
  begun = new_lexer text default_delimiters

  first_lexeme : observe (next_token begun) ≡ record {
    kind = segment_tag;
    text = codes "UNB";
    rest = c ∷ until_nul rest;
    after_segment_end = false;
    at_segment_start = true;
  }
  unfolding lexeme new_lexer take_while drop_while is_whitespace is_alphanumeric
  first_lexeme = next_token-lexeme begun ∙ rw view-new_lexer (ground (arith, f.no_end, f.no_letter))

  abbrev started : Parser
  started = start text text default_delimiters

  started-lexer : started.lexer ≡ (next_token begun).1
  unfolding start advance
  started-lexer = refl

  started_kind : started.current_token.kind ≡ segment_tag
  unfolding start advance observe
  started_kind = ap (λ (x : Lexeme). x.kind) first_lexeme

  started_value : started.current_token.value ≡ codes "UNB"
  unfolding start advance observe
  started_value =
      sym (λ i. if is_error (started_kind i) then [] else started.current_token.value)
      ∙ ap (λ (x : Lexeme). x.text) first_lexeme

  started-IsUnexpected : IsUnexpected (started.lexer) c (until_nul rest)
  unfolding start advance observe new_lexer
  started-IsUnexpected = record {
    remains = ap (λ (x : Lexeme). x.rest) first_lexeme;
    inside = ap (λ (x : Lexeme). x.after_segment_end) first_lexeme;
    no_delimiter = rw (next_token-TokenAt begun).moves.same_delimiters f.no_delimiter;
    no_tag = f.no_letter;
  }

  new_parser-text : new_parser text ≡ ok started
  unfolding new_parser drop_while is_whitespace bytes_eq start
  new_parser-text = ground arith

  started-tag : (t : Bytes) → is_segment_tag started t ≡ bytes_eq (codes "UNB") t
  unfolding is_segment_tag
  started-tag t = λ i. is_segment_tag_type (started_kind i) && bytes_eq (started_value i) t

  parse-started : (std : Stdlib) (n : ℕ) → parse std n started ≡ none
  unfolding parse parse_unb bytes_eq
  parse-started std n =
      let stuck =
        read_segment-IsStuck n started (ap is_segment_tag_type started_kind)
          (IsStuck-IsUnexpected started started-IsUnexpected) in
      ground (arith, started-tag segment_tag_una, started-tag segment_tag_unb, stuck)

-- A file that begins with UNB and then a byte that is no letter, digit or default delimiter is
-- never parsed to an end, whatever the fuel: the loop of `readSegment` sees the same error token
-- for ever.
pub parse_file-IsForeign :
    (std : Stdlib) (n c : ℕ) (rest : Bytes)
    → IsForeign c
    → parse_file std n (codes "UNB" ++ c ∷ rest) ≡ none
unfolding parse_file
parse_file-IsForeign std n c rest f = rw (new_parser-text c rest f, parse-started c rest f std n)
