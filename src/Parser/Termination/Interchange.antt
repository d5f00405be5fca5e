-- ===== src/Parser/Termination/Interchange.antt =====
-- `parseMessage`, `Parse` and the adapter end on every input without an error token.
use edifact_parser.Base.{
  ℕ, zero, suc, ◌<◌, true, false, not, Option, none, some, List, [], ◌∷◌, ◌++◌, ◌≡◌, refl, inl, inr,
  arith, Bytes, length, bytes_eq, leb, get_or, Option-cases, Bool-cases, if_ind, ltb,
}
use edifact_parser.Token.{is_eof_type}
use edifact_parser.Parser.State.{
  empty_sender, empty_receiver, empty_reference, is_empty, empty_message_type,
  empty_message_reference, expected_unt, ParseError, Stdlib, Parser, ParsedMessage, Segment,
  ParseResult, ErrorText, is_segment_tag, add_error, require,
}
use edifact_parser.Parser.Headers.{
  differs, unb_min_data_elements, unz_min_data_elements, HeaderResult, parse_unb, parse_unz,
  unb_date, unb_elements, unz_count, unz_reference,
}
use edifact_parser.Parser.Messages.{
  segment_tag_unh, segment_tag_unt, unh_min_data_elements, unh_header, body_loop, unt_trailer,
  parse_message,
}
use edifact_parser.Parser.Interchange.{messages_loop}
use edifact_parser.Parser.Termination.{
  Ready, budget, Ready-add_error, budget-add_error, Ends, Ends-some, Ends-le, Ends-bind,
  read_segment-step,
}

-- Adding errors changes neither tokens nor budget.
pub record Same (p q : Parser) : Type 0 where
  pub lexer : q.lexer ≡ p.lexer
  pub token : q.current_token ≡ p.current_token

pub Same-refl : (p : Parser) → Same p p
Same-refl p = record { lexer = refl; token = refl }

pub Same-add_error :
    {p q : Parser} (line column : ℕ) (m : ErrorText) → Same p q → Same p (add_error q line column m)
unfolding add_error
Same-add_error line column m s = record { lexer = s.lexer; token = s.token }

pub Same-require :
    {p q : Parser} (value : Bytes) (seg : Segment) (m : ErrorText)
    → Same p q
    → Same p (require value seg m q)
unfolding require
Same-require {p} value seg m s =
    if_ind (Same p) (is_empty value) (λ _. Same-add_error seg.line seg.column m s) (λ _. s)

module _ {p q : Parser} (s : Same p q) where
  pub Ready-Same : Ready p → Ready q
  Ready-Same r = record { clean = rw s.lexer r.clean; no_error = rw s.token r.no_error }

  pub budget-Same : budget q ≡ budget p
  unfolding budget
  budget-Same = rw (s.lexer, s.token)

Ends-Same :
    {A : Type 0} (a : A) (p q : Parser) {b : ℕ}
    → Same p q
    → Ready p
    → budget p < b
    → Ends (some (a, q)) b
Ends-Same a p q s r h = Ends-some a q (Ready-Same s r) (omega (arith, budget-Same s))

pub tag_live :
    (p : Parser) (t : Bytes) → is_segment_tag p t ≡ true → is_eof_type p.current_token.kind ≡ false
unfolding is_segment_tag
tag_live p t h = ground arith

module _ (n : ℕ) where
  body_loop-Ends :
      (k : ℕ) (msg : ParsedMessage) (p : Parser)
      → Ready p
      → budget p < n
      → budget p < k
      → Ends (body_loop n k msg p) (suc (budget p))
  unfolding body_loop
  body_loop-Ends zero msg p r h f = absurd (omega arith)
  body_loop-Ends (suc k) msg p r h f = elim (Bool-cases (is_eof_type p.current_token.kind)) [
    | inl e ↦ rw (e, body_loop) (Ends-some msg p r (omega arith))
    | inr live ↦ elim (Bool-cases (is_segment_tag p segment_tag_unt)) [
      | inl u ↦ rw (live, u, body_loop) (Ends-some msg p r (omega arith))
      | inr u ↦
          rw (live, u, body_loop)
            (Ends-bind _ (read_segment-step n p r h live) λ seg q rq less.
              Ends-le _ (omega arith) (body_loop-Ends k _ q rq (omega arith) (omega arith)))
    ]
  ]

  unt_trailer-Ends :
      (msg : ParsedMessage) (p : Parser)
      → Ready p
      → budget p < n
      → Ends (unt_trailer n msg p) (suc (budget p))
  unfolding unt_trailer
  unt_trailer-Ends msg p r h = elim (Bool-cases (is_segment_tag p segment_tag_unt)) [
    | inl u ↦
        rw (u, unt_trailer)
          (Ends-bind _ (read_segment-step n p r h (tag_live p segment_tag_unt u))
            λ seg q rq less. Ends-some _ q rq (omega arith))
    | inr u ↦
        rw (u, unt_trailer)
          (Ends-some msg _ (Ready-add_error p r _ _ _) (
            omega (
              arith,
              budget-add_error p p.current_token.line p.current_token.column
                  (expected_unt msg.message_reference),
            )))
  ]

  unh_header-Same : (seg : Segment) (p : Parser) → Same p (unh_header seg p).1
  unfolding unh_header
  unh_header-Same seg p =
      Same-require _ seg empty_message_type
        (Same-require _ seg empty_message_reference (Same-refl p))

  parse_message-Ends :
      (p : Parser)
      → Ready p
      → budget p < n
      → is_eof_type p.current_token.kind ≡ false
      → Ends (parse_message n p) (budget p)
  unfolding parse_message
  parse_message-Ends p r h live = Ends-bind _ (read_segment-step n p r h live) λ seg q rq less.
      if_ind (λ (o : Option (Option ParsedMessage × Parser)). Ends o (budget p))
        (ltb (length seg.data_elements) unh_min_data_elements)
        (λ _. Ends-Same none q _ (Same-add_error _ _ _ (Same-refl q)) rq less)
        (λ _.
          let s = unh_header-Same seg q in
          let same = budget-Same s in
          Ends-bind _ (body_loop-Ends n _ _ (Ready-Same s rq) (omega arith) (omega arith))
            λ body t rt less'.
              Ends-bind _ (unt_trailer-Ends body t rt (omega arith))
                λ whole u ru less''. Ends-some _ u ru (omega arith))

  pub messages_loop-Ends :
      (k : ℕ) (r : ParseResult × List Bytes) (p : Parser)
      → Ready p
      → budget p < n
      → budget p < k
      → Ends (messages_loop n k r p) (suc (budget p))
  unfolding messages_loop
  messages_loop-Ends zero x p r h f = absurd (omega arith)
  messages_loop-Ends (suc k) x p r h f = elim (Bool-cases (is_segment_tag p segment_tag_unh)) [
    | inr u ↦ rw (u, messages_loop) (Ends-some x p r (omega arith))
    | inl u ↦
        rw (u, messages_loop)
          (Ends-bind _ (parse_message-Ends p r h (tag_live p segment_tag_unh u)) λ parsed q rq less.
            Ends-le _ (omega arith) (messages_loop-Ends k _ q rq (omega arith) (omega arith)))
  ]

-- The checks of the header and of the trailer only add errors.
Same-unb_date :
    (std : Stdlib) (seg : Segment) (e : List Bytes) (result : ParseResult) (p : Parser)
    → Same p (unb_date std seg e result p).1
unfolding unb_date
Same-unb_date std seg e result p = elim (Bool-cases (leb 2 (length e))) [
  | inr b ↦ rw (b, unb_date) (Same-refl p)
  | inl b ↦ elim (Option-cases (std.time_parse (get_or e 0 [] ++ (b':' ∷ get_or e 1 [])))) [
    | inl o ↦ rw (b, o, unb_date) (Same-add_error _ _ _ (Same-refl p))
    | inr (t, o) ↦ rw (b, o, unb_date) (Same-refl p)
  ]
]

Same-unb_elements :
    (std : Stdlib) (seg : Segment) (result : ParseResult) (p : Parser)
    → Same p (unb_elements std seg result p).1
unfolding unb_elements
Same-unb_elements std seg result p = Same-require _ seg empty_reference (
    Same-require _ seg empty_receiver
      (Same-require _ seg empty_sender (Same-unb_date std seg _ _ p)))

Same-unz_count :
    (std : Stdlib) (seg : Segment) (e : List Bytes) (result : ParseResult) {p q : Parser}
    → Same p q
    → Same p (unz_count std seg e result q)
unfolding unz_count
Same-unz_count std seg [] result s = s
Same-unz_count std seg (text ∷ es) result {p} s = elim (Option-cases (std.scan_int text)) [
  | inl o ↦ rw (o, unz_count) s
  | inr (c, o) ↦
      rw (o, unz_count)
        (if_ind (Same p) (differs c (length result.messages)) (λ _. Same-add_error _ _ _ s)
          (λ _. s))
]

Same-unz_reference :
    (seg : Segment) (e : List Bytes) (result : ParseResult) {p q : Parser}
    → Same p q
    → Same p (unz_reference seg e result q)
unfolding unz_reference
Same-unz_reference seg [] result s = s
Same-unz_reference seg (text ∷ es) result {p} s =
    if_ind (Same p) (not (bytes_eq text result.reference)) (λ _. Same-add_error _ _ _ s) (λ _. s)

module _ (std : Stdlib) (n : ℕ) (result : ParseResult) (p : Parser) (r : Ready p) (h : budget p < n)
    (live : is_eof_type p.current_token.kind ≡ false) where
  pub parse_unb-Ends : Ends (parse_unb std n result p) (budget p)
  unfolding parse_unb
  parse_unb-Ends = Ends-bind _ (read_segment-step n p r h live) λ seg q rq less.
      Ends-Same _ q _
        (if_ind (λ (x : HeaderResult). Same q x.1)
          (ltb (length seg.data_elements) unb_min_data_elements)
          (λ _. Same-add_error _ _ _ (Same-refl q)) (λ _. Same-unb_elements std seg result q))
        rq less

  pub parse_unz-Ends : Ends (parse_unz std n result p) (budget p)
  unfolding parse_unz
  parse_unz-Ends = Ends-bind _ (read_segment-step n p r h live) λ seg q rq less.
      Ends-Same _ q _
        (if_ind (λ (x : Option (List ParseError) × Parser). Same q x.1)
          (ltb (length seg.data_elements) unz_min_data_elements)
          (λ _. Same-add_error _ _ _ (Same-refl q))
          (λ _. Same-unz_reference seg _ result (Same-unz_count std seg _ result (Same-refl q))))
        rq less
