-- ===== src/Parser/Termination.antt =====
-- The loops of parser.go end on every input in which the lexer reports no error token.
pub mod Interchange
pub mod File
use edifact_parser.Base.{
  ℕ, zero, suc, ◌+◌, ◌≤◌, ◌<◌, Bool, true, false, not, ◌&&◌, ◌||◌, Option, none, some, List, [],
  ◌∷◌, ◌++◌, ◌≡◌, ◌≢◌, refl, ap, sym, ◌∙◌, ◌⊎◌, inl, inr, arith, append_assoc, append-nil, Bytes,
  codes, length, bytes_eq, take_while, drop_while, ◌==◌, if◌then◌else◌, Bool-cases, if_ind, ◌>>=◌,
  ltb,
}
use edifact_parser.Token.{
  Token, TokenType, end_of_input, error, segment_tag, segment_end, data_element, component, una,
  is_segment_tag_type, is_eof_type,
}
use edifact_parser.Lexer.{Lexer, next_token}
use edifact_parser.Lexer.Stream.{view}
use edifact_parser.Lexer.Progress.{next_token-progress}
use edifact_parser.Parser.State.{
  Stdlib, Parser, ParsedMessage, Segment, ParseResult, ErrorText, advance, is_segment_tag,
  add_error, unexpected_token,
}
use edifact_parser.Parser.Segments.{Element, read_loop, read_round, read_segment, skip_segment}

-- The lexer after so many calls of `NextToken`.
unfoldable pub after_tokens : ℕ → Lexer → Lexer
after_tokens zero l = l
after_tokens (suc k) l = after_tokens k (next_token l).1

-- However often `NextToken` is called, it reports no error.
abbrev pub IsClean : Lexer → Type 0
IsClean l = (k : ℕ) → (next_token (after_tokens k l)).0.kind ≢ error

pub record Ready (p : Parser) : Type 0 where
  pub clean : IsClean p.lexer
  pub no_error : p.current_token.kind ≢ error

-- A bound on the tokens that are still to come.
pub budget : Parser → ℕ
budget p = if is_eof_type p.current_token.kind then 0 else suc (length (view p.lexer))

module _ (p : Parser) (r : Ready p) where
  pub Ready-advance : Ready (advance p)
  unfolding advance after_tokens
  Ready-advance = record { clean = λ k. r.clean (suc k); no_error = r.clean 0 }

  pub budget-advance : is_eof_type p.current_token.kind ≡ false → budget (advance p) < budget p
  unfolding advance budget after_tokens
  budget-advance h = elim (next_token-progress p.lexer) [
    | inl (e, v) ↦ ground arith
    | inr (inl e) ↦ absurd (r.clean 0 e)
    | inr (inr l) ↦ ground arith
  ]

  pub Ready-add_error : (line column : ℕ) (m : ErrorText) → Ready (add_error p line column m)
  unfolding add_error
  Ready-add_error line column m = record { clean = r.clean; no_error = r.no_error }

pub budget-add_error :
    (p : Parser) (line column : ℕ) (m : ErrorText) → budget (add_error p line column m) ≡ budget p
unfolding budget add_error
budget-add_error p line column m = refl

-- A step ends with its fuel, and leaves a parser with a budget below `b`.
pub record Ends {A : Type 0} (o : Option (A × Parser)) (b : ℕ) : Type 0 where
  pub value : A
  pub rest : Parser
  pub ends : o ≡ some (value, rest)
  pub ready : Ready rest
  pub within : budget rest < b

module _ {A : Type 0} where
  pub Ends-some : (a : A) (p : Parser) {b : ℕ} → Ready p → budget p < b → Ends (some (a, p)) b
  Ends-some a p r h = record { value = a; rest = p; ends = refl; ready = r; within = h }

  pub Ends-le : (o : Option (A × Parser)) {b c : ℕ} → b ≤ c → Ends o b → Ends o c
  Ends-le o h x = record {
    value = x.value;
    rest = x.rest;
    ends = x.ends;
    ready = x.ready;
    within = omega arith;
  }

  pub Ends-bind :
      {B : Type 0} {m : Option (A × Parser)} (f : A × Parser → Option (B × Parser)) {b c : ℕ}
      → Ends m b
      → ((a : A) (q : Parser) → Ready q → budget q < b → Ends (f (a, q)) c)
      → Ends (m >>= f) c
  Ends-bind f x k = rw x.ends (k x.value x.rest x.ready x.within)

-- One round of `readSegment`, and the whole loop.
module _ (again : Parser → Segment → Element → Option (Segment × Parser)) (n : ℕ)
    (ih : (p : Parser) (seg : Segment) (e : Element)
      → Ready p
      → budget p < n
      → Ends (again p seg e) (suc (budget p))) where
  step-Ends :
      (p : Parser) (seg : Segment) (e : Element)
      → Ready p
      → budget p < suc n
      → is_eof_type p.current_token.kind ≡ false
      → Ends (again (advance p) seg e) (budget p)
  step-Ends p seg e r h live =
      let less = budget-advance p r live in
      Ends-le _ less (ih (advance p) seg e (Ready-advance p r) (omega arith))

  read_round-step :
      (kind : TokenType) (p : Parser) (seg : Segment) (e : Element)
      → Ready p
      → budget p < suc n
      → p.current_token.kind ≡ kind
      → is_eof_type kind ≡ false
      → is_segment_tag_type kind ≡ false
      → Ends (read_round again kind p seg e) (budget p)
  unfolding read_round add_error budget
  read_round-step data_element p seg e r h k live t = step-Ends p _ _ r h (ap is_eof_type k)
  read_round-step component p seg e r h k live t = step-Ends p _ _ r h (ap is_eof_type k)
  read_round-step segment_end p seg e r h k live t =
      Ends-some _ (advance p) (Ready-advance p r) (budget-advance p r (ap is_eof_type k))
  read_round-step end_of_input p seg e r h k live t = cc
  read_round-step segment_tag p seg e r h k live t = cc
  read_round-step error p seg e r h k live t = absurd (r.no_error k)
  read_round-step una p seg e r h k live t =
      let m = unexpected_token p.current_token.kind seg.tag in
      let line = p.current_token.line in
      let column = p.current_token.column in
      step-Ends (add_error p line column m) seg e (Ready-add_error p r line column m) h
        (unfold add_error in ap is_eof_type k)

  read_round-Ends :
      (kind : TokenType) (p : Parser) (seg : Segment) (e : Element)
      → Ready p
      → budget p < suc n
      → p.current_token.kind ≡ kind
      → Ends (read_round again kind p seg e) (suc (budget p))
  unfolding read_round
  read_round-Ends end_of_input p seg e r h k = Ends-some _ p r (omega arith)
  read_round-Ends segment_tag p seg e r h k = Ends-some _ p r (omega arith)
  read_round-Ends data_element p seg e r h k =
      Ends-le _ (omega arith) (read_round-step data_element p seg e r h k refl refl)
  read_round-Ends component p seg e r h k =
      Ends-le _ (omega arith) (read_round-step component p seg e r h k refl refl)
  read_round-Ends segment_end p seg e r h k =
      Ends-le _ (omega arith) (read_round-step segment_end p seg e r h k refl refl)
  read_round-Ends error p seg e r h k = absurd (r.no_error k)
  read_round-Ends una p seg e r h k =
      Ends-le _ (omega arith) (read_round-step una p seg e r h k refl refl)

read_loop-Ends :
    (n : ℕ) (p : Parser) (seg : Segment) (e : Element)
    → Ready p
    → budget p < n
    → Ends (read_loop n p seg e) (suc (budget p))
unfolding read_loop
read_loop-Ends zero p seg e r h = absurd (omega arith)
read_loop-Ends (suc n) p seg e r h =
    read_round-Ends (read_loop n) n (read_loop-Ends n) p.current_token.kind p seg e r h refl

read_loop-step :
    (n : ℕ) (p : Parser) (seg : Segment) (e : Element)
    → Ready p
    → budget p < n
    → is_eof_type p.current_token.kind ≡ false
    → is_segment_tag_type p.current_token.kind ≡ false
    → Ends (read_loop n p seg e) (budget p)
unfolding read_loop
read_loop-step zero p seg e r h live t = absurd (omega arith)
read_loop-step (suc n) p seg e r h live t =
    read_round-step (read_loop n) n (read_loop-Ends n) p.current_token.kind p seg e r h refl live t

-- Away from the end of the input `readSegment` uses up a token.
pub read_segment-step :
    (n : ℕ) (p : Parser)
    → Ready p
    → budget p < n
    → is_eof_type p.current_token.kind ≡ false
    → Ends (read_segment n p) (budget p)
unfolding read_segment
read_segment-step n p r h live = elim (Bool-cases (is_segment_tag_type p.current_token.kind)) [
  | inl t ↦
      let less = budget-advance p r live in
      rw (t, read_segment)
        (Ends-le _ less (read_loop-Ends n (advance p) _ none (Ready-advance p r) (omega arith)))
  | inr t ↦ rw (t, read_segment) (read_loop-step n p _ none r h live t)
]
