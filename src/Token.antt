-- ===== src/Token.antt =====
-- adapters/inbound/edifact/token.go: lexical tokens and the names of their types.
use edifact_parser.Base.{ℕ, Bool, true, false, Bytes, codes}

pub data TokenType : Type 0 where
  una segment_tag data_element component segment_end end_of_input error : TokenType

pub record Token : Type 0 where
  pub value : Bytes
  pub kind : TokenType
  pub line : ℕ
  pub column : ℕ

-- The table `tokenTypeNames`, which `TokenType.String` looks up. The default `Unknown(%d)` is for
-- numbers that are no token type.
pub token_type_name : TokenType → Bytes
token_type_name una = codes "UNA"
token_type_name segment_tag = codes "SegmentTag"
token_type_name data_element = codes "DataElement"
token_type_name component = codes "Component"
token_type_name segment_end = codes "SegmentEnd"
token_type_name end_of_input = codes "EOF"
token_type_name error = codes "Error"

abbrev pub is_segment_tag_type : TokenType → Bool
is_segment_tag_type segment_tag = true
is_segment_tag_type _ = false

abbrev pub is_segment_end_type : TokenType → Bool
is_segment_end_type segment_end = true
is_segment_end_type _ = false

abbrev pub is_eof_type : TokenType → Bool
is_eof_type end_of_input = true
is_eof_type _ = false
