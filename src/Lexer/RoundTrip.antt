-- ===== src/Lexer/RoundTrip.antt =====
-- Printed segments, read back by lexer.go.
use edifact_parser.Base.{
  ℕ, zero, suc, Bool, true, false, List, [], ◌∷◌, ◌++◌, Bytes, length, if◌then◌else◌, ◌≡◌, refl, ap,
  ◌∙◌,
}
use edifact_parser.Delimiters.{Delimiters}
use edifact_parser.Token.{
  TokenType, segment_tag, data_element, component, segment_end, end_of_input,
}
use edifact_parser.Lexer.{Lexer, next_token}
use edifact_parser.Lexer.Stream.{view}
use edifact_parser.Lexer.Lexeme.{lexeme, is_error}
use edifact_parser.Lexer.Refines.{observe, next_token-lexeme}
use edifact_parser.Lexer.Positions.{next_token-TokenAt}
use edifact_parser.Lexer.Printing.{
  Part, element, sub_element, Segment, escape, print_parts, print_segments, part_tokens,
  segment_tokens, IsUsable, IsTag, AreTagged, stops_parts,
}
use edifact_parser.Lexer.Printed.{
  lexeme_of, lexeme-end, lexeme-data, lexeme-component, lexeme-tag, lexeme-nil,
}

-- The tokens that `n` calls of `NextToken` return, and the scanner behind them.
unfoldable pub read_tokens : ℕ → Lexer → List (TokenType × Bytes) × Lexer
read_tokens zero l = ([], l)
read_tokens (suc n) l =
    let (t, m) = next_token l in let (ts, k) = read_tokens n m in ((t.kind, t.value) ∷ ts, k)

-- Where a scanner stands: its service characters, its flags, and the bytes that remain.
pub record At (d : Delimiters) (after start : Bool) (bs : Bytes) (l : Lexer) : Type 0 where
  pub delimiters_are : l.delimiters ≡ d
  pub after_is : l.after_segment_end ≡ after
  pub start_is : l.at_segment_start ≡ start
  pub view_is : view l ≡ bs

-- What a scanner reads: these tokens, and then the input is used up.
pub record Reads (d : Delimiters) (ts : List (TokenType × Bytes)) (l : Lexer) : Type 0 where
  pub behind : Lexer
  pub tokens_are : read_tokens (length ts) l ≡ (ts, behind)
  pub ends : view behind ≡ []
  pub finished : (next_token behind).0.kind ≡ end_of_input

module _ (d : Delimiters) where
  step :
      (after start : Bool) (bs : Bytes) (l : Lexer) (kind : TokenType) (text rest : Bytes)
      (after' start' : Bool)
      → At d after start bs l
      → lexeme d after start bs ≡ lexeme_of kind text rest after' start'
      → is_error kind ≡ false
      → ((next_token l).0.kind ≡ kind)
        × ((next_token l).0.value ≡ text)
        × At d after' start' rest (next_token l).1
  unfolding observe
  step after start bs l kind text rest after' start' a e k =
      let seen : observe (next_token l) ≡ lexeme_of kind text rest after' start' =
        next_token-lexeme l
        ∙ (λ i. lexeme (a.delimiters_are i) (a.after_is i) (a.start_is i) (a.view_is i))
        ∙ e in
      let same : (next_token l).0.kind ≡ kind = ap (λ x. x.kind) seen in
      let shown : (if is_error (next_token l).0.kind then [] else (next_token l).0.value) ≡ text =
        ap (λ x. x.text) seen in
      (
        same,
        rw (same, k) at shown,
        record {
          delimiters_are = (next_token-TokenAt l).moves.same_delimiters ∙ a.delimiters_are;
          after_is = ap (λ x. x.after_segment_end) seen;
          start_is = ap (λ x. x.at_segment_start) seen;
          view_is = ap (λ x. x.rest) seen;
        },
      )

  -- One token, and then the others.
  Reads-step :
      (after start : Bool) (bs : Bytes) (l : Lexer) (kind : TokenType) (text rest : Bytes)
      (after' start' : Bool) (ts : List (TokenType × Bytes))
      → At d after start bs l
      → lexeme d after start bs ≡ lexeme_of kind text rest after' start'
      → is_error kind ≡ false
      → ((m : Lexer) → At d after' start' rest m → Reads d ts m)
      → Reads d ((kind, text) ∷ ts) l
  unfolding read_tokens
  Reads-step after start bs l kind text rest after' start' ts a e k next =
      let (same, shown, at) = step after start bs l kind text rest after' start' a e k in
      let others = next (next_token l).1 at in
      record {
        behind = others.behind;
        tokens_are = rw (others.tokens_are, same, shown) refl;
        ends = others.ends;
        finished = others.finished;
      }

module _ (d : Delimiters) (usable : IsUsable d) where
  Reads-parts :
      (ps : List Part) (cs : Bytes) (start : Bool) (ts : List (TokenType × Bytes)) (l : Lexer)
      → At d false start (print_parts d ps (d.segment_terminator ∷ cs)) l
      → ((m : Lexer) → At d true true cs m → Reads d ts m)
      → Reads d (part_tokens ps ((segment_end, d.segment_terminator ∷ []) ∷ ts)) l
  unfolding print_parts part_tokens
  Reads-parts [] cs start ts l a next =
      Reads-step d false start (d.segment_terminator ∷ cs) l segment_end (d.segment_terminator ∷ [])
        cs true true ts a (lexeme-end d usable start cs) refl next
  Reads-parts (element v ∷ ps) cs start ts l a next =
      let rest = print_parts d ps (d.segment_terminator ∷ cs) in
      Reads-step d false start (d.data_element_separator ∷ (escape d v ++ rest)) l data_element v
        rest false false (part_tokens ps ((segment_end, d.segment_terminator ∷ []) ∷ ts)) a
        (lexeme-data d usable start v rest (stops_parts d usable ps cs)) refl
        (λ m b. Reads-parts ps cs false ts m b next)
  Reads-parts (sub_element v ∷ ps) cs start ts l a next =
      let rest = print_parts d ps (d.segment_terminator ∷ cs) in
      Reads-step d false start (d.component_separator ∷ (escape d v ++ rest)) l component v rest
        false start (part_tokens ps ((segment_end, d.segment_terminator ∷ []) ∷ ts)) a
        (lexeme-component d usable start v rest (stops_parts d usable ps cs)) refl
        (λ m b. Reads-parts ps cs start ts m b next)

  lexeme-tag_parts :
      (after : Bool) (tag : Bytes) (ps : List Part) (cs : Bytes)
      → IsTag tag
      → lexeme d after true (tag ++ print_parts d ps (d.segment_terminator ∷ cs))
        ≡ lexeme_of segment_tag tag (print_parts d ps (d.segment_terminator ∷ cs)) false true
  unfolding print_parts
  lexeme-tag_parts after tag [] cs t =
      lexeme-tag d usable after tag d.segment_terminator cs t usable.end_no_letter
  lexeme-tag_parts after tag (element v ∷ ps) cs t =
      lexeme-tag d usable after tag d.data_element_separator _ t usable.data_no_letter
  lexeme-tag_parts after tag (sub_element v ∷ ps) cs t =
      lexeme-tag d usable after tag d.component_separator _ t usable.component_no_letter

  Reads-tag :
      (tag : Bytes) (after : Bool) (ps : List Part) (cs : Bytes) (ts : List (TokenType × Bytes))
      (l : Lexer)
      → IsTag tag
      → At d after true (tag ++ print_parts d ps (d.segment_terminator ∷ cs)) l
      → ((m : Lexer) → At d true true cs m → Reads d ts m)
      → Reads d
          ((segment_tag, tag) ∷ part_tokens ps ((segment_end, d.segment_terminator ∷ []) ∷ ts))
          l
  unfolding print_parts
  Reads-tag tag after ps cs ts l t a next =
      Reads-step d after true (tag ++ print_parts d ps (d.segment_terminator ∷ cs)) l segment_tag
        tag (print_parts d ps (d.segment_terminator ∷ cs)) false true
        (part_tokens ps ((segment_end, d.segment_terminator ∷ []) ∷ ts)) a
        (lexeme-tag_parts after tag ps cs t) refl (λ m b. Reads-parts ps cs true ts m b next)

  -- Where the service characters can be told from each other and from letters and digits, the scanner
  -- reads printed segments back: at the start of a segment, with nothing but the printed segments
  -- remaining, as many calls of `NextToken` as there are tokens return the tags, the values as they
  -- were before they were escaped, each by its separator, and the terminators, in order; nothing
  -- remains, and the next call returns the end of input.
  pub print_segments-Reads :
      (ss : List Segment) (after : Bool) (l : Lexer)
      → AreTagged ss
      → At d after true (print_segments d ss) l
      → Reads d (segment_tokens d ss) l
  unfolding print_segments segment_tokens read_tokens observe
  print_segments-Reads [] after l t a = record {
    behind = l;
    tokens_are = refl;
    ends = a.view_is;
    finished =
        ap (λ x. x.kind) (next_token-lexeme l)
        ∙ ap (λ bs. (lexeme l.delimiters l.after_segment_end l.at_segment_start bs).kind) a.view_is
        ∙ lexeme-nil l.delimiters l.after_segment_end l.at_segment_start;
  }
  print_segments-Reads (s ∷ ss) after l t a =
      Reads-tag s.tag after s.parts (print_segments d ss) (segment_tokens d ss) l t.0 a
        λ m b. print_segments-Reads ss true m t.1 b
