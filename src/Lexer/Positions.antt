-- ===== src/Lexer/Positions.antt =====
-- The positions of lexer.go: where a token says that it starts.
use edifact_parser.Base.{
  Bool, true, false, ◌&&◌, Option, none, some, [], ◌++◌, ◌≡◌, refl, ap, sym, ◌∙◌, append_assoc,
  Bytes, ◌==◌, if_ind,
}
use edifact_parser.Token.{Token, TokenType, data_element, component}
use edifact_parser.Lexer.{
  is_alphanumeric, Lexer, advance, rounds, value_loop, value_token, lex_segment_tag, lex_value,
  lex_element, lex_component, lex_segment_end, scan_token, next_token,
  skip_inter_segment_whitespace,
}
use edifact_parser.Lexer.Stream.{view-le-rounds, view-set_flags}
use edifact_parser.Lexer.Moves.{
  Moves, Moves-refl, Moves-advance, Moves-trans, skip-Takes, tag_loop-TagRead, line_after,
  column_after, line_after-append, column_after-append,
}
use edifact_parser.Lexer.Value.{ValueRead, value_loop-ValueRead}

-- From `l` a token is read: `before` is stepped over, then the token starts, and `body` is its own.
pub record TokenAt (l : Lexer) (r : Token × Lexer) : Type 0 where
  pub before : Bytes
  pub body : Bytes
  pub moves : Moves l r.1 (before ++ body)
  pub line_is : r.0.line ≡ line_after l.line before
  pub column_is : r.0.column ≡ column_after l.column before

Moves-set_flags :
    {l m : Lexer} {taken : Bytes} (a s : Bool)
    → Moves l m taken
    → Moves l (record m { after_segment_end = a; at_segment_start = s }) taken
Moves-set_flags {m} {taken} a s v = record {
  consumed = v.consumed ∙ ap (λ t. taken ++ t) (sym (view-set_flags m a s));
  same_delimiters = v.same_delimiters;
  line_at = v.line_at;
  column_at = v.column_at;
}

-- A token whose position is that of the scanner before it.
here :
    (l : Lexer) (r : Token × Lexer) {body : Bytes}
    → Moves l r.1 body
    → r.0.line ≡ l.line
    → r.0.column ≡ l.column
    → TokenAt l r
here l r {body} v e f = record { before = []; body = body; moves = v; line_is = e; column_is = f }

-- What is stepped over first belongs to no token.
behind :
    {l m : Lexer} {r : Token × Lexer} {skipped : Bytes}
    → Moves l m skipped
    → TokenAt m r
    → TokenAt l r
behind {l} {m} {r} {skipped} v t = record {
  before = skipped ++ t.before;
  body = t.body;
  moves = rw append_assoc (Moves-trans v t.moves);
  line_is =
      t.line_is
      ∙ ap (λ n. line_after n t.before) v.line_at
      ∙ sym (line_after-append l.line skipped t.before);
  column_is =
      t.column_is
      ∙ ap (λ n. column_after n t.before) v.column_at
      ∙ sym (column_after-append l.column skipped t.before);
}

value_token-TokenAt :
    (kind : TokenType) (l : Lexer) (buf : Bytes) (r : Option Bytes × Lexer)
    → ValueRead l buf r
    → TokenAt l (value_token kind l r)
unfolding value_token
value_token-TokenAt kind l buf (none, m) v =
    behind v.moves (here m (value_token kind l (none, m)) (Moves-refl m) refl refl)
value_token-TokenAt kind l buf (some t, m) v =
    here l (value_token kind l (some t, m)) v.moves refl refl

lex_value-TokenAt : (kind : TokenType) (l : Lexer) → TokenAt l (lex_value kind l)
unfolding lex_value
lex_value-TokenAt kind l =
    value_token-TokenAt kind l [] (value_loop (rounds l) l [])
      (value_loop-ValueRead (rounds l) l [] (view-le-rounds l))

module _ (l : Lexer) where
  lex_segment_tag-TokenAt : TokenAt l (lex_segment_tag l)
  unfolding lex_segment_tag
  lex_segment_tag-TokenAt =
      here l (lex_segment_tag l)
        (Moves-set_flags false true
          (tag_loop-TagRead (rounds l) l [] (view-le-rounds l)).takes.moves)
        refl refl

  module _ (live : (l.current == 0) ≡ false) where
    lex_element-TokenAt : TokenAt l (lex_element l)
    unfolding lex_element
    lex_element-TokenAt =
        behind (Moves-set_flags (advance l).after_segment_end false (Moves-advance l live))
          (lex_value-TokenAt data_element (record (advance l) { at_segment_start = false }))

    lex_component-TokenAt : TokenAt l (lex_component l)
    unfolding lex_component
    lex_component-TokenAt = behind (Moves-advance l live) (lex_value-TokenAt component (advance l))

    lex_segment_end-TokenAt : TokenAt l (lex_segment_end l)
    unfolding lex_segment_end
    lex_segment_end-TokenAt =
        here l (lex_segment_end l) (Moves-set_flags true true (Moves-advance l live)) refl refl

  scan_token-TokenAt : TokenAt l (scan_token l)
  unfolding scan_token
  scan_token-TokenAt =
      if_ind (TokenAt l) (l.current == 0) (λ _. here l _ (Moves-refl l) refl refl)
        λ live.
          if_ind (TokenAt l) (l.after_segment_end && is_alphanumeric l.current)
            (λ _. lex_segment_tag-TokenAt)
            λ _.
              if_ind (TokenAt l) (l.current == l.delimiters.segment_terminator)
                (λ _. lex_segment_end-TokenAt live)
                λ _.
                  if_ind (TokenAt l) (l.current == l.delimiters.data_element_separator)
                    (λ _. lex_element-TokenAt live)
                    λ _.
                      if_ind (TokenAt l) (l.current == l.delimiters.component_separator)
                        (λ _. lex_component-TokenAt live)
                        λ _.
                          if_ind (TokenAt l) (l.at_segment_start && is_alphanumeric l.current)
                            (λ _. lex_segment_tag-TokenAt) λ _. here l _ (Moves-refl l) refl refl

-- Every call of `NextToken` steps over a prefix of the bytes that remain. The line and column of
-- the scanner afterwards are those of the end of that prefix, and the line and column of its
-- token are those of a place inside it, counted from the scanner's position before the call.
pub next_token-TokenAt : (l : Lexer) → TokenAt l (next_token l)
unfolding next_token
next_token-TokenAt l =
    if_ind (λ m. TokenAt l (scan_token m)) l.after_segment_end
      (λ _. behind (skip-Takes l).moves (scan_token-TokenAt (skip_inter_segment_whitespace l)))
      (λ _. scan_token-TokenAt l)
