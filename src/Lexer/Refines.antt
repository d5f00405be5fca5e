-- ===== src/Lexer/Refines.antt =====
-- `NextToken` of lexer.go, with its reader, lookahead and loops, refines the function `lexeme` of
-- the bytes that remain.
use mathlib.Core.Option
use edifact_parser.Base.{
  true, false, Option, none, some, [], ◌∷◌, ◌≡◌, refl, ◌∙◌, arith, Bytes, drop_while, if◌then◌else◌,
  if_ind₂, ◌∙◌,
}
use edifact_parser.Token.{Token, TokenType, data_element, component, segment_end}
use edifact_parser.Lexer.{
  Lexer, advance, rounds, is_whitespace, value_loop, value_token, lex_segment_tag, lex_value,
  lex_element, lex_component, lex_segment_end, scan_token, next_token,
  skip_inter_segment_whitespace,
}
use edifact_parser.Lexer.Stream.{view, view-advance, view-eof, view-le-rounds, view-set_flags}
use edifact_parser.Lexer.Moves.{SameFlags, SameFlags-advance, Takes, skip-Takes, tag_loop-TagRead}
use edifact_parser.Lexer.Value.{scan, value_loop-ValueRead}
use edifact_parser.Lexer.Lexeme.{Lexeme, value_lexeme, tag_lexeme, head_lexeme, lexeme, is_error}

-- What a token and the state behind it say, but for positions and the text of an error.
unfoldable pub observe : Token × Lexer → Lexeme
observe (t, m) = record {
  kind = t.kind;
  text = if is_error t.kind then [] else t.value;
  rest = view m;
  after_segment_end = m.after_segment_end;
  at_segment_start = m.at_segment_start;
}

observe-lex_segment_tag : (l : Lexer) → observe (lex_segment_tag l) ≡ tag_lexeme (view l)
unfolding observe lex_segment_tag
observe-lex_segment_tag l =
    let t = tag_loop-TagRead (rounds l) l [] (view-le-rounds l) in
    rw (view-set_flags, t.text, t.takes.stops)

value_token-observe :
    (kind : TokenType) (l : Lexer) (r : Option Bytes × Lexer) (s : Option Bytes × Bytes)
    → is_error kind ≡ false
    → SameFlags l r.1
    → r.0 ≡ Option.map (λ t. t) s.0
    → view r.1 ≡ s.1
    → observe (value_token kind l r) ≡ value_lexeme kind l.after_segment_end l.at_segment_start s
unfolding observe value_token value_lexeme
value_token-observe kind l (none, m) (o, rest) k f e v = ground arith
value_token-observe kind l (some t, m) (o, rest) k f e v = ground arith

observe-lex_value :
    (kind : TokenType) (l : Lexer)
    → is_error kind ≡ false
    → observe (lex_value kind l)
      ≡ value_lexeme kind l.after_segment_end l.at_segment_start (scan l.delimiters (view l))
unfolding lex_value
observe-lex_value kind l k =
    let v = value_loop-ValueRead (rounds l) l [] (view-le-rounds l) in
    value_token-observe kind l (value_loop (rounds l) l []) (scan l.delimiters (view l)) k v.flags
      v.text v.stops

-- Behind the byte at hand.
module _ (l : Lexer) where
  after-advance : (advance l).after_segment_end ≡ l.after_segment_end
  after-advance = (SameFlags-advance l).same_after

  start-advance : (advance l).at_segment_start ≡ l.at_segment_start
  start-advance = (SameFlags-advance l).same_start

  delimiters-advance : (advance l).delimiters ≡ l.delimiters
  unfolding advance
  delimiters-advance = ground arith

  observe-lex_element :
      observe (lex_element l)
      ≡ value_lexeme data_element l.after_segment_end false (scan l.delimiters (view (advance l)))
  unfolding lex_element
  observe-lex_element =
      let same = view-set_flags (advance l) (advance l).after_segment_end false in
      observe-lex_value data_element (record (advance l) { at_segment_start = false }) refl ∙ (λ i.
        value_lexeme data_element (after-advance i) false (scan (delimiters-advance i) (same i)))

  observe-lex_component :
      observe (lex_component l)
      ≡ value_lexeme component l.after_segment_end l.at_segment_start
          (scan l.delimiters (view (advance l)))
  unfolding lex_component
  observe-lex_component = observe-lex_value component (advance l) refl ∙ (λ i.
      value_lexeme component (after-advance i) (start-advance i)
        (scan (delimiters-advance i) (view (advance l))))

  observe-lex_segment_end : observe (lex_segment_end l) ≡ record {
    kind = segment_end;
    text = l.current ∷ [];
    rest = view (advance l);
    after_segment_end = true;
    at_segment_start = true;
  }
  unfolding lex_segment_end observe
  observe-lex_segment_end = λ i. record {
    kind = segment_end;
    text = l.current ∷ [];
    rest = view-set_flags (advance l) true true i;
    after_segment_end = true;
    at_segment_start = true;
  }

-- `NextToken` behind its first `if`.
pub observe-scan_token :
    (l : Lexer)
    → observe (scan_token l)
      ≡ head_lexeme l.delimiters l.after_segment_end l.at_segment_start (view l)
unfolding scan_token head_lexeme observe
observe-scan_token l = ground (
  arith,
  view-eof l,
  view-advance l,
  observe-lex_element l,
  observe-lex_component l,
  observe-lex_segment_end l,
  observe-lex_segment_tag l,
)

module _ (l m : Lexer) (t : Takes is_whitespace l m) where
  observe-skipped :
      observe (scan_token m)
      ≡ head_lexeme l.delimiters l.after_segment_end l.at_segment_start
          (drop_while is_whitespace (view l))
  observe-skipped = observe-scan_token m ∙ (λ i.
      head_lexeme (t.moves.same_delimiters i) (t.flags.same_after i) (t.flags.same_start i)
        (t.stops i))

-- One call of `NextToken` does to the bytes that remain, and to the two flags, what `lexeme`
-- says, and returns its kind and its text.
pub next_token-lexeme :
    (l : Lexer)
    → observe (next_token l) ≡ lexeme l.delimiters l.after_segment_end l.at_segment_start (view l)
unfolding next_token lexeme
next_token-lexeme l =
    if_ind₂
      (λ m bs.
        observe (scan_token m) ≡ head_lexeme l.delimiters l.after_segment_end l.at_segment_start bs)
      l.after_segment_end (λ _. observe-skipped l (skip_inter_segment_whitespace l) (skip-Takes l))
      (λ _. observe-scan_token l)
