-- ===== src/Parser/State.antt =====
-- The data of parser.go, the parser's state, and its small methods.
use edifact_parser.Base.{
  ℕ, ◌+◌, Bool, true, false, ◌&&◌, Option, none, some, List, [], ◌∷◌, ◌++◌, Bytes, length, ltb,
  get_or, bytes_eq, if◌then◌else◌,
}
use edifact_parser.Token.{Token, TokenType, is_segment_tag_type}
use edifact_parser.Lexer.{Lexer, next_token}

-- Integers that `fmt.Sscanf` can read; `negsuc n` is -(n + 1).
pub data ℤ : Type 0 where
  pos : ℕ → ℤ
  negsuc : ℕ → ℤ

-- What the parser takes from Go's standard library: `time.Parse` at the layout "060102:1504",
-- to seconds since Go's zero time; `fmt.Sscanf` with "%d"; the hex digest of SHA-256.
pub record Stdlib : Type 0 where
  pub time_parse : Bytes → Option ℕ
  pub scan_int : Bytes → Option ℤ
  pub sha256_hex : Bytes → Bytes

-- The messages of parser.go's errors, each with what it prints.
pub data ErrorText : Type 0 where
  missing_unb missing_unz : ErrorText
  invalid_unb invalid_unh invalid_unz : ℕ → ErrorText
  invalid_date_time : Bytes → ErrorText
  empty_sender empty_receiver empty_reference : ErrorText
  empty_message_reference empty_message_type : ErrorText
  expected_unt : Bytes → ErrorText
  mismatched_message_count : ℤ → ℕ → ErrorText
  mismatched_reference : Bytes → Bytes → ErrorText
  unexpected_token : TokenType → Bytes → ErrorText

pub record ParseError : Type 0 where
  pub line : ℕ
  pub column : ℕ
  pub message : ErrorText

-- The keys "tag", "de1", "de2", … of a segment's map, and its values.
pub data Key : Type 0 where
  tag : Key
  de : ℕ → Key

pub data Value : Type 0 where
  single : Bytes → Value
  multiple : List Bytes → Value

pub record ParsedMessage : Type 0 where
  pub message_type : Bytes
  pub message_version : Bytes
  pub message_release : Bytes
  pub message_reference : Bytes
  pub subscription_id : Bytes
  pub segments : List (List (Key × Value))

pub record ParseResult : Type 0 where
  pub sender_id : Bytes
  pub sender_qualifier : Bytes
  pub receiver_id : Bytes
  pub receiver_qualifier : Bytes
  pub reference : Bytes
  pub prepared_at : ℕ
  pub content_hash : Bytes
  pub messages : List ParsedMessage
  pub subscriptions : List Bytes

pub record Segment : Type 0 where
  pub tag : Bytes
  pub data_elements : List (List Bytes)
  pub line : ℕ
  pub column : ℕ

pub record Parser : Type 0 where
  pub lexer : Lexer
  pub current_token : Token
  pub errors : List ParseError
  pub raw_data : Bytes

unfoldable pub advance : Parser → Parser
advance p = let (t, l) = next_token p.lexer in record p { lexer = l; current_token = t }

unfoldable pub is_segment_tag : Parser → Bytes → Bool
is_segment_tag p t = is_segment_tag_type p.current_token.kind && bytes_eq p.current_token.value t

unfoldable pub add_error : Parser → ℕ → ℕ → ErrorText → Parser
add_error p line column message = record p {
  errors = p.errors ++ record { line = line; column = column; message = message } ∷ [];
}

-- `none` is Go's nil error.
abbrev pub errors_or_nil : List ParseError → Option (List ParseError)
errors_or_nil [] = none
errors_or_nil (e ∷ es) = some (e ∷ es)

unfoldable pub combined_error : Parser → Option (List ParseError)
combined_error p = errors_or_nil p.errors

element_value : List Bytes → Value
element_value (e ∷ []) = single e
element_value es = multiple es

element_fields : ℕ → List (List Bytes) → List (Key × Value)
element_fields i [] = []
element_fields i (e ∷ es) = (de (i + 1), element_value e) ∷ element_fields (i + 1) es

unfoldable pub segment_to_map : Bytes → Segment → List (Key × Value)
unfolding element_fields element_value
segment_to_map t seg = (tag, single t) ∷ element_fields 0 seg.data_elements

-- `if len(e) > i { x = e[i] }`
unfoldable pub component_or : List Bytes → ℕ → Bytes → Bytes
component_or e i x = if ltb i (length e) then get_or e i [] else x

abbrev pub is_empty : Bytes → Bool
is_empty [] = true
is_empty (_ ∷ _) = false

-- `if text == "" { p.addError(…) }`
unfoldable pub require : Bytes → Segment → ErrorText → Parser → Parser
unfolding add_error
require value seg message p = if is_empty value then add_error p seg.line seg.column message else p
