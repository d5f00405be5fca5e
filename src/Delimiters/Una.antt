-- ===== src/Delimiters/Una.antt =====
-- What `ParseUNA` accepts.
use edifact_parser.Base.{◌∷◌, ◌++◌, [], ◌≡◌, arith, Bytes, codes, bytes_eq, ◌↔◌}
use edifact_parser.Delimiters.{Delimiters, ok, parse_una}

-- The UNA segment that names these delimiters.
abbrev pub una_string : Delimiters → Bytes
una_string d =
    codes "UNA"
    ++ d.component_separator ∷ d.data_element_separator ∷ d.decimal_notation ∷ d.release_character
      ∷ d.repetition_separator ∷ d.segment_terminator ∷ []

parse_una-una_string : (d : Delimiters) (rest : Bytes) → parse_una (una_string d ++ rest) ≡ ok d
unfolding parse_una bytes_eq
parse_una-una_string d rest = ground arith

una_string-parse_una :
    (bs : Bytes) (d : Delimiters)
    → parse_una bs ≡ ok d
    → (rest : Bytes) × (bs ≡ una_string d ++ rest)
unfolding parse_una bytes_eq
una_string-parse_una (a ∷ b ∷ c ∷ x ∷ y ∷ z ∷ u ∷ v ∷ w ∷ rest) d h = (rest, ground arith)
una_string-parse_una _ d h = ground arith

-- `ParseUNA` returns delimiters exactly on the bytes that begin with the UNA segment naming them,
-- whatever stands behind that segment.
pub parse_una-ok_iff :
    (bs : Bytes) (d : Delimiters)
    → (parse_una bs ≡ ok d) ↔ ((rest : Bytes) × (bs ≡ una_string d ++ rest))
parse_una-ok_iff bs d = (una_string-parse_una bs d, λ (rest, e). rw e (parse_una-una_string d rest))
