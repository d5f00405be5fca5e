-- ===== src/Lexer/Quote.antt =====
-- The Go verb %q at a byte, with which lexer.go prints an unexpected character: a character
-- literal in single quotes, printable runes as UTF-8, all else escaped.
use Prim.Native.Nat.{◌/◌, ◌%◌}
use edifact_parser.Base.{
  ℕ, ◌+◌, ◌-◌, Bool, not, ◌&&◌, ◌||◌, [], ◌∷◌, ◌++◌, Bytes, codes, ltb, leb, ◌==◌, if◌then◌else◌,
}

hex_digit : ℕ → ℕ
hex_digit n = if ltb n 10 then b'0' + n else b'a' + (n - 10)

is_print : ℕ → Bool
is_print r = (leb 0x20 r && ltb r 0x7f) || (leb 0xa1 r && leb r 0xff && not (r == 0xad))

utf8 : ℕ → Bytes
utf8 r = if ltb r 0x80 then r ∷ [] else (0xc0 + r / 64) ∷ (0x80 + r % 64) ∷ []

escaped_rune : ℕ → Bytes
unfolding hex_digit is_print utf8
escaped_rune r =
    if r == b'\'' || r == b'\\'
    then b'\\' ∷ r ∷ []
    else if is_print r
    then utf8 r
    else if r == 7
    then codes "\\a"
    else if r == 8
    then codes "\\b"
    else if r == 12
    then codes "\\f"
    else if r == 10
    then codes "\\n"
    else if r == 13
    then codes "\\r"
    else if r == 9
    then codes "\\t"
    else if r == 11
    then codes "\\v"
    else if ltb r 0x20 || r == 0x7f
    then codes "\\x" ++ hex_digit (r / 16) ∷ hex_digit (r % 16) ∷ []
    else codes "\\u00" ++ hex_digit (r / 16) ∷ hex_digit (r % 16) ∷ []

unfoldable pub quote_byte : ℕ → Bytes
unfolding escaped_rune
quote_byte r = b'\'' ∷ (escaped_rune r ++ b'\'' ∷ [])
