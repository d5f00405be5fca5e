-- ===== src/Parser/Acceptance/Trailer.antt =====
-- What `parseUNZ` of parser.go has checked when no error was recorded.
use edifact_parser.Base.{
  ℕ, false, Option, none, some, List, [], ◌∷◌, ◌≡◌, ◌≢◌, refl, ap, sym, ◌∙◌, inl, inr, arith, Bytes,
  length, bytes_eq, bytes_eq_iff, Bool-cases, Option-cases, if_ind, ltb, get_or, ◌≤◌, eq_of-some,
}
use mathlib.Core.Path.{subst}
use edifact_parser.Parser.State.{
  ℤ, pos, negsuc, Stdlib, Parser, Segment, ParseResult, ParseError, ErrorText, add_error,
  combined_error, errors_or_nil, invalid_unz, mismatched_message_count, mismatched_reference,
}
use edifact_parser.Parser.Segments.{read_segment}
use edifact_parser.Parser.Headers.{
  parse_unz, unz_count, unz_reference, differs, unz_min_data_elements,
}
use edifact_parser.Parser.Acceptance.{add_error-ne-nil}

pub errors_or_nil-none : (es : List ParseError) → errors_or_nil es ≡ none → es ≡ []
errors_or_nil-none [] h = refl
errors_or_nil-none (e ∷ es) h = cc

pub add_error-combined :
    (p : Parser) (line column : ℕ) (m : ErrorText)
    → combined_error (add_error p line column m) ≢ none
unfolding combined_error
add_error-combined p line column m h = add_error-ne-nil p line column m (errors_or_nil-none _ h)

-- A count that can be read is the number of messages.
abbrev pub CountAgrees : Stdlib → List Bytes → ParseResult → Type 0
CountAgrees std [] r = Unit
CountAgrees std (t ∷ ts) r = (c : ℤ) → std.scan_int t ≡ some c → c ≡ pos (length r.messages)

-- The reference, if it is there, is that of the header.
abbrev pub ReferenceAgrees : List Bytes → ParseResult → Type 0
ReferenceAgrees [] r = Unit
ReferenceAgrees (t ∷ ts) r = t ≡ r.reference

differs-false : (c : ℤ) (n : ℕ) → differs c n ≡ false → c ≡ pos n
unfolding differs
differs-false (pos k) n h = ground arith
differs-false (negsuc k) n h = cc

module _ (std : Stdlib) (seg : Segment) (r : ParseResult) (p : Parser) where
  unz_count-errors :
      (e : List Bytes)
      → (unz_count std seg e r p).errors ≡ []
      → (p.errors ≡ []) × CountAgrees std e r
  unfolding unz_count
  unz_count-errors [] h = (h, tt)
  unz_count-errors (t ∷ ts) h = elim (Option-cases (std.scan_int t)) [
    | inl o ↦ (rw (o, unz_count) at h, λ c e. cc)
    | inr (c, o) ↦ elim (Bool-cases (differs c (length r.messages))) [
      | inl d ↦ absurd (
          add_error-ne-nil p seg.line seg.column (mismatched_message_count c (length r.messages))
            (rw (o, d, unz_count) at h))
      | inr d ↦ (
        rw (o, d, unz_count) at h,
        λ k e. eq_of-some (sym e ∙ o) ∙ differs-false c (length r.messages) d,
      )
    ]
  ]

  unz_reference-errors :
      (e : List Bytes)
      → (unz_reference seg e r p).errors ≡ []
      → (p.errors ≡ []) × ReferenceAgrees e r
  unfolding unz_reference
  unz_reference-errors [] h = (h, tt)
  unz_reference-errors (t ∷ ts) h = elim (Bool-cases (bytes_eq t r.reference)) [
    | inl b ↦ (rw (b, unz_reference) at h, (bytes_eq_iff t r.reference).0 b)
    | inr b ↦ absurd (
        add_error-ne-nil p seg.line seg.column (mismatched_reference r.reference t)
          (rw (b, unz_reference) at h))
  ]

-- The trailer that was read agrees with the result.
pub record Agrees (std : Stdlib) (n : ℕ) (r : ParseResult) (p q : Parser) : Type 0 where
  pub trailer : Segment
  pub behind : Parser
  pub read : read_segment n p ≡ some (trailer, behind)
  pub enough : 2 ≤ length trailer.data_elements
  pub count : CountAgrees std (get_or trailer.data_elements 0 []) r
  pub reference : ReferenceAgrees (get_or trailer.data_elements 1 []) r
  pub no_errors : q.errors ≡ []
  pub no_errors_before : behind.errors ≡ []

abbrev Agrees? :
    (std : Stdlib) (n : ℕ) (r : ParseResult) (p : Parser)
    → Option (List ParseError) × Parser
    → Type 0
Agrees? std n r p x = x.0 ≡ none → Agrees std n r p x.1

checked-Agrees :
    (std : Stdlib) (n : ℕ) (r : ParseResult) (p q : Parser) (seg : Segment)
    → read_segment n p ≡ some (seg, q)
    → ltb (length seg.data_elements) unz_min_data_elements ≡ false
    → (let checked =
          unz_reference seg
            (get_or seg.data_elements 1 [])
            r
            (unz_count std seg (get_or seg.data_elements 0 []) r q) in
        Agrees? std n r p (combined_error checked, checked))
unfolding combined_error
checked-Agrees std n r p q seg read enough h =
    let none_left = errors_or_nil-none _ h in
    let (counted, reference) =
      unz_reference-errors std seg r _ (get_or seg.data_elements 1 []) none_left in
    let (first, count) = unz_count-errors std seg r q (get_or seg.data_elements 0 []) counted in
    record {
      trailer = seg;
      behind = q;
      read = read;
      enough = ground arith;
      count = count;
      reference = reference;
      no_errors = none_left;
      no_errors_before = first;
    }

-- When `parseUNZ` reports no error, the trailer segment that it read has two data elements, its
-- count, where it is a number, is that of the messages parsed, its reference, where it is there,
-- is that of the header, and no error at all was recorded.
pub parse_unz-Agrees :
    (std : Stdlib) (n : ℕ) (r : ParseResult) (p q : Parser)
    → parse_unz std n r p ≡ some (none, q)
    → Agrees std n r p q
unfolding parse_unz
parse_unz-Agrees std n r p q e = elim (Option-cases (read_segment n p)) [
  | inl o ↦ cc (rw (o, parse_unz) at e)
  | inr ((seg, s), o) ↦
      if_ind (λ x. some x ≡ some (none, q) → Agrees std n r p q)
        (ltb (length seg.data_elements) unz_min_data_elements)
        (λ _ i. absurd (
          add_error-combined s seg.line seg.column (invalid_unz (length seg.data_elements))
            (ap (λ (x : Option (List ParseError) × Parser). x.0) (eq_of-some i))))
        (λ enough i.
          let same = eq_of-some i in
          subst (λ x. Agrees std n r p x) (ap (λ (x : Option (List ParseError) × Parser). x.1) same)
            (checked-Agrees std n r p s seg o enough
              (ap (λ (x : Option (List ParseError) × Parser). x.0) same)))
        (rw (o, parse_unz) at e)
]
