-- ===== src/Lexer/Stuck.antt =====
-- `NextToken` of lexer.go at a byte that starts no token: the error token does not step over it.
use edifact_parser.Base.{ℕ, false, ◌∷◌, ◌≡◌, arith, Bytes}
use edifact_parser.Token.{error}
use edifact_parser.Lexer.{Lexer, next_token, scan_token, is_alphanumeric}
use edifact_parser.Lexer.Stream.{view, view-cons}
use edifact_parser.Lexer.Value.{is_structural}

-- The scanner stands inside a segment, at a byte that is neither a delimiter nor part of a tag.
pub record IsUnexpected (l : Lexer) (c : ℕ) (cs : Bytes) : Type 0 where
  pub remains : view l ≡ c ∷ cs
  pub inside : l.after_segment_end ≡ false
  pub no_delimiter : is_structural l.delimiters c ≡ false
  pub no_tag : is_alphanumeric c ≡ false

pub IsUnexpected-next_token :
    (l : Lexer) {c : ℕ} {cs : Bytes}
    → IsUnexpected l c cs
    → ((next_token l).0.kind ≡ error) × ((next_token l).1 ≡ l)
unfolding next_token scan_token
IsUnexpected-next_token l u = ground (arith, view-cons l u.remains)
