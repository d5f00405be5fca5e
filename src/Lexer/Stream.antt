-- ===== src/Lexer/Stream.antt =====
-- The bytes that the scanner of lexer.go has still to read, and what its moves do to them. The
-- one byte of lookahead and the end-of-input flag disappear in this view.
use edifact_parser.Base.{
  ℕ, ◌≤◌, Bool, true, false, [], ◌∷◌, ◌≡◌, refl, arith, Bytes, length, ◌==◌, if◌then◌else◌,
}
use edifact_parser.Delimiters.{Delimiters}
use edifact_parser.Lexer.{new_lexer, Lexer, advance, rounds}

-- A zero byte ends the input for the scanner.
abbrev pub until_nul : Bytes → Bytes
until_nul [] = []
until_nul (c ∷ cs) = if c == 0 then [] else c ∷ until_nul cs

abbrev pub ahead : Lexer → Bytes
ahead l = if l.at_eof then [] else l.reader

pub view : Lexer → Bytes
view l = until_nul (l.current ∷ l.peek ∷ ahead l)

pub view-advance : (l : Lexer) → (l.current == 0) ≡ false → view l ≡ l.current ∷ view (advance l)
unfolding view advance
view-advance l h = ground arith

pub view-eof : (l : Lexer) → (l.current == 0) ≡ true → view l ≡ []
unfolding view
view-eof l h = ground arith

pub length-until_nul : (bs : Bytes) → length (until_nul bs) ≤ length bs
length-until_nul [] = omega arith
length-until_nul (c ∷ cs) = ground (arith, length-until_nul cs)

pub view-le-rounds : (l : Lexer) → length (view l) ≤ rounds l
unfolding view
view-le-rounds l = ground (arith, length-until_nul (l.reader))

pub view-set_flags :
    (l : Lexer) (after start : Bool)
    → view (record l { after_segment_end = after; at_segment_start = start }) ≡ view l
unfolding view
view-set_flags l after start = refl

pub view-new_lexer : (bs : Bytes) (d : Delimiters) → view (new_lexer bs d) ≡ until_nul bs
unfolding view new_lexer
view-new_lexer [] d = refl
view-new_lexer (c ∷ []) d = ground arith
view-new_lexer (c ∷ e ∷ cs) d = refl

-- The byte at hand is the first that remains.
pub view-cons :
    (l : Lexer) {c : ℕ} {cs : Bytes}
    → view l ≡ c ∷ cs
    → ((l.current == 0) ≡ false) × (l.current ≡ c)
unfolding view
view-cons l h = ground arith
