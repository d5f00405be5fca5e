-- ===== src/Delimiters.antt =====
-- adapters/inbound/edifact/delimiters.go: the service characters, and `ParseUNA`.
pub mod Una
use edifact_parser.Base.{
  ℕ, Bool, List, Bytes, codes, bytes_eq, length, take, get_or, ltb, ◌==◌, if◌then◌else◌, not,
}

pub record Delimiters : Type 0 where
  pub component_separator : ℕ
  pub data_element_separator : ℕ
  pub decimal_notation : ℕ
  pub release_character : ℕ
  pub repetition_separator : ℕ
  pub segment_terminator : ℕ

abbrev pub una_prefix : Bytes
una_prefix = codes "UNA"

abbrev pub una_length : ℕ
una_length = 9

abbrev pub default_delimiters : Delimiters
default_delimiters = record {
  component_separator = b':';
  data_element_separator = b'+';
  decimal_notation = b'.';
  release_character = b'?';
  repetition_separator = b'*';
  segment_terminator = b'\'';
}

-- The wrapped sentinel, with what its message prints.
pub data UnaError : Type 0 where
  invalid_length : ℕ → UnaError
  invalid_prefix : Bytes → UnaError

pub data UnaResult : Type 0 where
  ok : Delimiters → UnaResult
  err : UnaError → UnaResult

unfoldable pub parse_una : Bytes → UnaResult
unfolding bytes_eq
parse_una bs =
    if ltb (length bs) una_length
    then err (invalid_length (length bs))
    else if not (bytes_eq (take 3 bs) una_prefix)
    then err (invalid_prefix (take 3 bs))
    else ok (record {
      component_separator = get_or bs 3 0;
      data_element_separator = get_or bs 4 0;
      decimal_notation = get_or bs 5 0;
      release_character = get_or bs 6 0;
      repetition_separator = get_or bs 7 0;
      segment_terminator = get_or bs 8 0;
    })

unfoldable pub is_release_char : Delimiters → ℕ → Bool
is_release_char d b = b == d.release_character
