-- ===== src/Lexer/Printing.antt =====
-- Segments printed with the service characters of delimiters.go, values escaped by the release
-- character: what the scanner of lexer.go is meant to read back.
use edifact_parser.Base.{
  true, false, ◌||◌, some, List, [], ◌∷◌, ◌++◌, Bytes, All, ◌==◌, if◌then◌else◌, ◌≡◌, ◌≢◌, ap, ◌∙◌,
  arith, Bool-cases, inl, inr, ==_refl,
}
use edifact_parser.Delimiters.{Delimiters}
use edifact_parser.Token.{TokenType, segment_tag, data_element, component, segment_end}
use edifact_parser.Lexer.{is_alphanumeric}
use edifact_parser.Lexer.Value.{
  is_structural, is_release, push, scan, scan-release, scan_stop, scan_go,
}

-- A value behind a data element separator, or behind a component separator.
pub data Part : Type 0 where
  element sub_element : Bytes → Part

pub record Segment : Type 0 where
  pub tag : Bytes
  pub parts : List Part

unfoldable pub escape : Delimiters → Bytes → Bytes
escape d [] = []
escape d (c ∷ cs) =
    let rest = escape d cs in
    if is_release d c || is_structural d c then d.release_character ∷ c ∷ rest else c ∷ rest

unfoldable pub print_parts : Delimiters → List Part → Bytes → Bytes
unfolding escape
print_parts d [] tail = tail
print_parts d (element v ∷ ps) tail =
    d.data_element_separator ∷ (escape d v ++ print_parts d ps tail)
print_parts d (sub_element v ∷ ps) tail =
    d.component_separator ∷ (escape d v ++ print_parts d ps tail)

unfoldable pub print_segments : Delimiters → List Segment → Bytes
unfolding print_parts
print_segments d [] = []
print_segments d (s ∷ ss) =
    s.tag ++ print_parts d s.parts (d.segment_terminator ∷ print_segments d ss)

-- The tokens of printed segments, each with its text.
unfoldable pub part_tokens : List Part → List (TokenType × Bytes) → List (TokenType × Bytes)
part_tokens [] ts = ts
part_tokens (element v ∷ ps) ts = (data_element, v) ∷ part_tokens ps ts
part_tokens (sub_element v ∷ ps) ts = (component, v) ∷ part_tokens ps ts

unfoldable pub segment_tokens : Delimiters → List Segment → List (TokenType × Bytes)
unfolding part_tokens
segment_tokens d [] = []
segment_tokens d (s ∷ ss) =
    (segment_tag, s.tag)
    ∷ part_tokens s.parts ((segment_end, d.segment_terminator ∷ []) ∷ segment_tokens d ss)

-- Service characters that can be told from each other and from letters and digits.
pub record IsUsable (d : Delimiters) : Type 0 where
  pub component_not_data : (d.component_separator == d.data_element_separator) ≡ false
  pub component_not_end : (d.component_separator == d.segment_terminator) ≡ false
  pub data_not_end : (d.data_element_separator == d.segment_terminator) ≡ false
  pub component_not_release : is_release d d.component_separator ≡ false
  pub data_not_release : is_release d d.data_element_separator ≡ false
  pub end_not_release : is_release d d.segment_terminator ≡ false
  pub component_no_letter : is_alphanumeric d.component_separator ≡ false
  pub data_no_letter : is_alphanumeric d.data_element_separator ≡ false
  pub end_no_letter : is_alphanumeric d.segment_terminator ≡ false

-- Tags are letters and digits, at least one.
abbrev pub IsTag : Bytes → Type 0
IsTag tag = (tag ≢ []) × All (λ c. is_alphanumeric c ≡ true) tag

abbrev pub AreTagged : List Segment → Type 0
AreTagged ss = All (λ s. IsTag s.tag) ss

module _ (d : Delimiters) where
  pub scan-escape :
      (v rest : Bytes)
      → scan d rest ≡ (some [], rest)
      → scan d (escape d v ++ rest) ≡ (some v, rest)
  unfolding escape
  scan-escape [] rest h = h
  scan-escape (c ∷ v) rest h = elim (Bool-cases (is_release d c || is_structural d c)) [
    | inl b ↦ rw b (
        scan-release d d.release_character c (escape d v ++ rest) (==_refl d.release_character)
        ∙ ap (push c) (scan-escape v rest h))
    | inr b ↦ rw b (
        scan_go d c (escape d v ++ rest) (ground (arith, b)) (ground (arith, b))
        ∙ ap (push c) (scan-escape v rest h))
  ]

module _ (d : Delimiters) (usable : IsUsable d) where
  stops_data :
      (cs : Bytes)
      → scan d (d.data_element_separator ∷ cs) ≡ (some [], d.data_element_separator ∷ cs)
  stops_data cs = scan_stop d d.data_element_separator cs usable.data_not_release (ground arith)

  stops_component :
      (cs : Bytes) → scan d (d.component_separator ∷ cs) ≡ (some [], d.component_separator ∷ cs)
  stops_component cs =
      scan_stop d d.component_separator cs usable.component_not_release (ground arith)

  pub stops_end :
      (cs : Bytes) → scan d (d.segment_terminator ∷ cs) ≡ (some [], d.segment_terminator ∷ cs)
  stops_end cs = scan_stop d d.segment_terminator cs usable.end_not_release (ground arith)

  -- A value ends where the parts that follow begin, or the segment ends.
  pub stops_parts :
      (ps : List Part) (cs : Bytes)
      → scan d (print_parts d ps (d.segment_terminator ∷ cs))
        ≡ (some [], print_parts d ps (d.segment_terminator ∷ cs))
  unfolding print_parts
  stops_parts [] cs = stops_end cs
  stops_parts (element v ∷ ps) cs = stops_data _
  stops_parts (sub_element v ∷ ps) cs = stops_component _
