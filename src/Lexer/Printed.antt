-- ===== src/Lexer/Printed.antt =====
-- The lexemes of printed parts and segments.
use edifact_parser.Base.{
  ℕ, Bool, true, false, some, [], ◌∷◌, ◌++◌, Bytes, All, ◌==◌, ◌≡◌, refl, ap, arith, Bool-cases,
  inl, inr, take_while, drop_while, ==_refl, ==_iff,
}
use edifact_parser.Delimiters.{Delimiters}
use edifact_parser.Token.{
  TokenType, segment_tag, data_element, component, segment_end, end_of_input,
}
use edifact_parser.Lexer.{is_alphanumeric, is_whitespace}
use edifact_parser.Lexer.Value.{scan}
use edifact_parser.Lexer.Lexeme.{Lexeme, lexeme, head_lexeme, value_lexeme, tag_lexeme}
use edifact_parser.Lexer.Printing.{escape, IsUsable, IsTag, scan-escape}

abbrev pub lexeme_of : TokenType → Bytes → Bytes → Bool → Bool → Lexeme
lexeme_of kind text rest after start = record {
  kind = kind;
  text = text;
  rest = rest;
  after_segment_end = after;
  at_segment_start = start;
}

-- The letters and digits of a tag, and what ends it.
tag_taken :
    (tag : Bytes) (c : ℕ) (cs : Bytes)
    → All (λ b. is_alphanumeric b ≡ true) tag
    → is_alphanumeric c ≡ false
    → (take_while is_alphanumeric (tag ++ c ∷ cs) ≡ tag)
      × (drop_while is_alphanumeric (tag ++ c ∷ cs) ≡ c ∷ cs)
unfolding take_while drop_while
tag_taken [] c cs h n = (rw n refl, rw n refl)
tag_taken (b ∷ tag) c cs h n =
    let (taken, dropped) = tag_taken tag c cs h.1 n in
    (rw (h.0, taken) refl, rw (h.0, dropped) refl)

letter_no_space : (c : ℕ) → is_alphanumeric c ≡ true → is_whitespace c ≡ false
unfolding is_alphanumeric is_whitespace
letter_no_space c h = ground (arith, h)

module _ (d : Delimiters) (usable : IsUsable d) where
  pub lexeme-end :
      (start : Bool) (cs : Bytes)
      → lexeme d false start (d.segment_terminator ∷ cs)
        ≡ lexeme_of segment_end (d.segment_terminator ∷ []) cs true true
  unfolding lexeme head_lexeme
  lexeme-end start cs = rw (==_refl d.segment_terminator) refl

  pub lexeme-data :
      (start : Bool) (v rest : Bytes)
      → scan d rest ≡ (some [], rest)
      → lexeme d false start (d.data_element_separator ∷ (escape d v ++ rest))
        ≡ lexeme_of data_element v rest false false
  unfolding lexeme head_lexeme value_lexeme
  lexeme-data start v rest h =
      rw (usable.data_not_end, ==_refl d.data_element_separator, scan-escape d v rest h) refl

  pub lexeme-component :
      (start : Bool) (v rest : Bytes)
      → scan d rest ≡ (some [], rest)
      → lexeme d false start (d.component_separator ∷ (escape d v ++ rest))
        ≡ lexeme_of component v rest false start
  unfolding lexeme head_lexeme value_lexeme
  lexeme-component start v rest h =
      rw
        (
          usable.component_not_end,
          usable.component_not_data,
          ==_refl d.component_separator,
          scan-escape d v rest h,
        )
        refl

  no_letter : (x c : ℕ) → is_alphanumeric x ≡ false → is_alphanumeric c ≡ true → (c == x) ≡ false
  no_letter x c n h = elim (Bool-cases (c == x)) [
    | inr b ↦ b
    | inl b ↦ cc (ap is_alphanumeric ((==_iff c x).0 b), h, n)
  ]

  read_tag :
      (tag : Bytes) (c : ℕ) (cs : Bytes)
      → All (λ b. is_alphanumeric b ≡ true) tag
      → is_alphanumeric c ≡ false
      → tag_lexeme (tag ++ c ∷ cs) ≡ lexeme_of segment_tag tag (c ∷ cs) false true
  read_tag tag c cs t n =
      let (taken, dropped) = tag_taken tag c cs t n in
      λ i. lexeme_of segment_tag (taken i) (dropped i) false true

  no_space_dropped :
      (b : ℕ) (cs : Bytes) → is_alphanumeric b ≡ true → drop_while is_whitespace (b ∷ cs) ≡ b ∷ cs
  unfolding drop_while
  no_space_dropped b cs h = rw (letter_no_space b h) refl

  pub lexeme-tag :
      (after : Bool) (tag : Bytes) (c : ℕ) (cs : Bytes)
      → IsTag tag
      → is_alphanumeric c ≡ false
      → lexeme d after true (tag ++ c ∷ cs) ≡ lexeme_of segment_tag tag (c ∷ cs) false true
  unfolding lexeme head_lexeme
  lexeme-tag after [] c cs t n = absurd (t.0 refl)
  lexeme-tag true (b ∷ tag) c cs t n =
      rw (no_space_dropped b (tag ++ c ∷ cs) t.1.0, lexeme)
        (rw (t.1.0, head_lexeme) (read_tag (b ∷ tag) c cs t.1 n))
  lexeme-tag false (b ∷ tag) c cs t n =
      rw
        (
          no_letter d.segment_terminator b usable.end_no_letter t.1.0,
          no_letter d.data_element_separator b usable.data_no_letter t.1.0,
          no_letter d.component_separator b usable.component_no_letter t.1.0,
          t.1.0,
        )
        (read_tag (b ∷ tag) c cs t.1 n)

pub lexeme-nil :
    (d : Delimiters) (after start : Bool) → (lexeme d after start []).kind ≡ end_of_input
unfolding lexeme head_lexeme drop_while
lexeme-nil d true start = refl
lexeme-nil d false start = refl
