-- ===== src/Parser/Termination/File.antt =====
-- `Parse` of parser.go and the adapter over it, with enough fuel.
use edifact_parser.Base.{
  ℕ, zero, suc, ◌+◌, ◌≤◌, ◌<◌, false, ◌&&◌, Option, none, some, List, [], ◌++◌, ◌≡◌, refl, ap, inl,
  inr, arith, Bytes, length, length-append, take, leb, bytes_eq, drop_while, ◌==◌, Bool-cases,
  if_ind, ◌>>=◌,
}
use edifact_parser.Base.Lists.{length-drop_while}
use edifact_parser.Delimiters.{Delimiters, UnaResult, parse_una, una_length, default_delimiters}
use edifact_parser.Lexer.Positions.{next_token-TokenAt}
use edifact_parser.Token.{TokenType, is_eof_type, segment_end, end_of_input}
use edifact_parser.Lexer.{new_lexer, next_token, is_whitespace}
use edifact_parser.Lexer.Stream.{view, view-new_lexer, length-until_nul}
use edifact_parser.Parser.State.{Stdlib, Parser, ParseResult, ParseError, advance, is_segment_tag}
use edifact_parser.Parser.Segments.{skip_segment, skip_round}
use edifact_parser.Parser.Interchange.{
  with_una, file_outcome, segment_tag_una, segment_tag_unb, segment_tag_unz, ParseOutcome,
  NewResult, ok, new_parser, start, parse, parse_trailer, parse_body, parse_interchange, parse_file,
}
use edifact_parser.Parser.Termination.{
  after_tokens, IsClean, Ready, budget, Ready-advance, budget-advance, Ends,
}
use edifact_parser.Parser.Termination.Interchange.{
  tag_live, messages_loop-Ends, parse_unb-Ends, parse_unz-Ends,
}

-- A result is there: the fuel did not run out.
abbrev pub IsDone : {A : Type 0} → Option A → Type 0
IsDone {A} o = (a : A) × (o ≡ some a)

IsDone-bind :
    {A B : Type 0} {m : Option (A × Parser)} (f : A × Parser → Option B) {b : ℕ}
    → Ends m b
    → ((a : A) (q : Parser) → Ready q → budget q < b → IsDone (f (a, q)))
    → IsDone (m >>= f)
IsDone-bind f x k = rw x.ends (k x.value x.rest x.ready x.within)

-- `skipSegment` ends too.
record Skipped (o : Option Parser) (b : ℕ) : Type 0 where
  rest : Parser
  ends : o ≡ some rest
  ready : Ready rest
  within : budget rest < b

module _ (again : Parser → Option Parser) (n : ℕ)
    (ih : (p : Parser) → Ready p → budget p < n → Skipped (again p) (suc (budget p))) where
  skip_on :
      (p : Parser)
      → Ready p
      → budget p < suc n
      → is_eof_type p.current_token.kind ≡ false
      → Skipped (again (advance p)) (suc (budget p))
  skip_on p r h live =
      let less = budget-advance p r live in
      let s = ih (advance p) (Ready-advance p r) (omega arith) in
      record { rest = s.rest; ends = s.ends; ready = s.ready; within = omega (arith, s.within) }

  skip_round-Skipped :
      (kind : TokenType) (p : Parser)
      → Ready p
      → budget p < suc n
      → p.current_token.kind ≡ kind
      → Skipped (skip_round again kind p) (suc (budget p))
  unfolding skip_round
  skip_round-Skipped end_of_input p r h k = record {
    rest = p;
    ends = refl;
    ready = r;
    within = omega arith;
  }
  skip_round-Skipped segment_end p r h k = record {
    rest = advance p;
    ends = refl;
    ready = Ready-advance p r;
    within = omega (arith, budget-advance p r (ap is_eof_type k));
  }
  skip_round-Skipped _ p r h k = skip_on p r h (ap is_eof_type k)

skip_segment-Skipped :
    (n : ℕ) (p : Parser) → Ready p → budget p < n → Skipped (skip_segment n p) (suc (budget p))
unfolding skip_segment
skip_segment-Skipped zero p r h = absurd (omega arith)
skip_segment-Skipped (suc n) p r h =
    skip_round-Skipped (skip_segment n) n (skip_segment-Skipped n) p.current_token.kind p r h refl

module _ (std : Stdlib) (n : ℕ) where
  parse_trailer-IsDone :
      (result : ParseResult) (p : Parser)
      → Ready p
      → budget p < n
      → IsDone (parse_trailer std n result p)
  unfolding parse_trailer
  parse_trailer-IsDone result p r h = elim (Bool-cases (is_segment_tag p segment_tag_unz)) [
    | inr u ↦ rw (u, parse_trailer) (_, refl)
    | inl u ↦
        rw (u, parse_trailer)
          (IsDone-bind _ (parse_unz-Ends std n result p r h (tag_live p segment_tag_unz u))
            λ e q rq less. (_, refl))
  ]

  parse_body-IsDone :
      (result : ParseResult) (p : Parser)
      → Ready p
      → budget p < n
      → IsDone (parse_body std n result p)
  unfolding parse_body
  parse_body-IsDone result p r h =
      IsDone-bind _ (messages_loop-Ends n n (result, []) p r h h)
        λ x q rq less. parse_trailer-IsDone x.0 q rq (omega arith)

  after_unb :
      (e : Option (List ParseError)) (header : ParseResult) (q : Parser)
      → Ready q
      → budget q < n
      → IsDone (elim e [
        | some es ↦ some (ParseOutcome.rejected (some es))
        | none ↦ parse_body std n header q
      ])
  after_unb none header q r h = parse_body-IsDone header q r h
  after_unb (some es) header q r h = (_, refl)

  parse_interchange-IsDone :
      (result : ParseResult) (p : Parser)
      → Ready p
      → budget p < n
      → IsDone (parse_interchange std n result p)
  unfolding parse_interchange
  parse_interchange-IsDone result p r h = elim (Bool-cases (is_segment_tag p segment_tag_unb)) [
    | inr u ↦ rw (u, parse_interchange) (_, refl)
    | inl u ↦
        rw (u, parse_interchange)
          (IsDone-bind _ (parse_unb-Ends std n result p r h (tag_live p segment_tag_unb u))
            λ x q rq less. after_unb x.0 x.1 q rq (omega arith))
  ]

  parse-IsDone : (p : Parser) → Ready p → budget p < n → IsDone (parse std n p)
  unfolding parse
  parse-IsDone p r h = elim (Bool-cases (is_segment_tag p segment_tag_una)) [
    | inr u ↦ rw (u, parse) (parse_interchange-IsDone _ p r h)
    | inl u ↦
        let s = skip_segment-Skipped n p r h in
        rw (u, parse, s.ends) (parse_interchange-IsDone _ s.rest s.ready (omega (arith, s.within)))
  ]

budget-le : (p : Parser) → budget p ≤ suc (length (view p.lexer))
unfolding budget
budget-le p = ground arith

-- The first token is read by the constructor.
start-Ready :
    (bs trimmed : Bytes) (d : Delimiters)
    → IsClean (new_lexer trimmed d)
    → Ready (start bs trimmed d)
unfolding start advance after_tokens
start-Ready bs trimmed d c = record { clean = λ k. c (suc k); no_error = c 0 }

module _ (bs : Bytes) (p : Parser) where
  with_una-start :
      (trimmed : Bytes) (u : UnaResult)
      → with_una bs trimmed u ≡ ok p
      → (d : Delimiters) × (start bs trimmed d ≡ p)
  unfolding with_una
  with_una-start trimmed (UnaResult.ok d) e = (d, ground arith)
  with_una-start trimmed (UnaResult.err x) e = cc

  pub new_parser-start :
      new_parser bs ≡ ok p → (d : Delimiters) × (start bs (drop_while is_whitespace bs) d ≡ p)
  unfolding new_parser
  new_parser-start =
      if_ind P (length bs == 0) (λ _ e. cc)
        λ _.
          if_ind P (leb una_length (length trimmed) && bytes_eq (take 3 trimmed) segment_tag_una)
            (λ _. with_una-start trimmed (parse_una (take una_length trimmed)))
            (λ _ e. (default_delimiters, ground arith))
    where
      trimmed : Bytes
      trimmed = drop_while is_whitespace bs

      P : NewResult → Type 0
      P r = r ≡ ok p → (d : Delimiters) × (start bs trimmed d ≡ p)

start-length :
    (bs trimmed : Bytes) (d : Delimiters)
    → length (view (start bs trimmed d).lexer) ≤ length trimmed
unfolding start advance
start-length bs trimmed d =
    let t = next_token-TokenAt (new_lexer trimmed d) in
    let n = length-append (t.before ++ t.body) (view (next_token (new_lexer trimmed d)).1) in
    omega (
      arith,
      n,
      ap (length {0}) t.moves.consumed,
      ap (length {0}) (view-new_lexer trimmed d),
      length-until_nul trimmed,
    )

-- If the lexer reports no error token, however often it is asked, then fuel that exceeds the
-- length of the file by two is enough: the adapter returns a result or an error.
pub parse_file-IsDone :
    (std : Stdlib) (n : ℕ) (bs : Bytes) (p : Parser)
    → new_parser bs ≡ ok p
    → Ready p
    → length bs + 1 < n
    → IsDone (parse_file std n bs)
unfolding parse_file
parse_file-IsDone std n bs p e r h =
    let (d, s) = new_parser-start bs p e in
    let short : length (view p.lexer) ≤ length bs = rw (← s) (
      omega (
        arith,
        start-length bs (drop_while is_whitespace bs) d,
        length-drop_while is_whitespace bs,
      )) in
    let (o, done) = parse-IsDone std n p r (omega (arith, budget-le p)) in
    (file_outcome o, rw (e, done))
