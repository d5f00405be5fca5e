-- ===== src/Lexer/Value.antt =====
-- `lexValue` of lexer.go against a reading of the bytes that knows nothing of the scanner.
use mathlib.Core.Option
use edifact_parser.Base.{
  ℕ, zero, suc, ◌≤◌, Bool, true, false, ◌||◌, Option, none, some, [], ◌∷◌, ◌++◌, ◌≡◌, refl, ap, sym,
  ◌∙◌, inl, inr, arith, append_assoc, append-nil, Bytes, length, ◌==◌, Bool-cases,
}
use edifact_parser.Delimiters.{Delimiters, is_release_char}
use edifact_parser.Lexer.{Lexer, advance, is_delimiter, value_loop}
use edifact_parser.Lexer.Stream.{view, view-advance, view-eof}
use edifact_parser.Lexer.Moves.{
  Moves, Moves-refl, Moves-advance, Moves-trans, SameFlags, SameFlags-refl, SameFlags-advance,
  SameFlags-trans, eq-nil-of-length,
}

abbrev pub is_structural : Delimiters → ℕ → Bool
is_structural d b =
    b == d.component_separator || b == d.data_element_separator || b == d.segment_terminator

abbrev pub is_release : Delimiters → ℕ → Bool
is_release d b = b == d.release_character

abbrev pub push : ℕ → Option Bytes × Bytes → Option Bytes × Bytes
push c (o, rest) = (Option.map (λ t. c ∷ t) o, rest)

-- The value at the head of `bs`, `none` where a release character has nothing to release, and
-- the bytes behind it.
unfoldable pub scan : Delimiters → Bytes → Option Bytes × Bytes
scan d [] = (some [], [])
scan d (c ∷ []) = elim (is_release d c) [
  | true ↦ (none, c ∷ [])
  | false ↦ elim (is_structural d c) [ true ↦ (some [], c ∷ []) | false ↦ (some (c ∷ []), []) ]
]
scan d (c ∷ e ∷ cs) = elim (is_release d c) [
  | true ↦ push e (scan d cs)
  | false ↦ elim (is_structural d c) [
    | true ↦ (some [], c ∷ e ∷ cs)
    | false ↦ push c (scan d (e ∷ cs))
  ]
]

module _ (d : Delimiters) (c : ℕ) where
  pub scan-release_nil : is_release d c ≡ true → scan d (c ∷ []) ≡ (none, c ∷ [])
  unfolding scan
  scan-release_nil h = ground arith

  pub scan-release :
      (e : ℕ) (cs : Bytes) → is_release d c ≡ true → scan d (c ∷ e ∷ cs) ≡ push e (scan d cs)
  unfolding scan
  scan-release e cs h = ground arith

  pub scan_stop :
      (cs : Bytes)
      → is_release d c ≡ false
      → is_structural d c ≡ true
      → scan d (c ∷ cs) ≡ (some [], c ∷ cs)
  unfolding scan
  scan_stop [] h s = ground arith
  scan_stop (e ∷ cs) h s = ground arith

  pub scan_go :
      (cs : Bytes)
      → is_release d c ≡ false
      → is_structural d c ≡ false
      → scan d (c ∷ cs) ≡ push c (scan d cs)
  unfolding scan
  scan_go [] h s = ground arith
  scan_go (e ∷ cs) h s = ground arith

pub record ValueRead (l : Lexer) (buf : Bytes) (r : Option Bytes × Lexer) : Type 0 where
  pub taken : Bytes
  pub moves : Moves l r.1 taken
  pub flags : SameFlags l r.1
  pub text : r.0 ≡ Option.map (λ t. buf ++ t) (scan l.delimiters (view l)).0
  pub stops : view r.1 ≡ (scan l.delimiters (view l)).1

module _ (l : Lexer) (buf : Bytes) where
  ValueRead-stop : scan l.delimiters (view l) ≡ (some [], view l) → ValueRead l buf (some buf, l)
  ValueRead-stop h = record {
    taken = [];
    moves = Moves-refl l;
    flags = SameFlags-refl l;
    text = rw (h, append-nil);
    stops = rw h;
  }

  ValueRead-dangling : scan l.delimiters (view l) ≡ (none, view l) → ValueRead l buf (none, l)
  ValueRead-dangling h = record {
    taken = [];
    moves = Moves-refl l;
    flags = SameFlags-refl l;
    text = rw h;
    stops = rw h;
  }

  map-push :
      (c : ℕ) (s : Option Bytes × Bytes)
      → Option.map (λ t. (buf ++ c ∷ []) ++ t) s.0 ≡ Option.map (λ t. buf ++ t) (push c s).0
  map-push c (none, rest) = refl
  map-push c (some t, rest) = ap some (append_assoc buf (c ∷ []) t)

  ValueRead-go :
      {m : Lexer} {taken : Bytes} {r : Option Bytes × Lexer} (c : ℕ)
      → Moves l m taken
      → SameFlags l m
      → scan l.delimiters (view l) ≡ push c (scan l.delimiters (view m))
      → ValueRead m (buf ++ c ∷ []) r
      → ValueRead l buf r
  ValueRead-go {m} {taken} c mv fl same v =
      let e = same ∙ ap (λ d. push c (scan d (view m))) (sym mv.same_delimiters) in
      record {
        taken = taken ++ v.taken;
        moves = Moves-trans mv v.moves;
        flags = SameFlags-trans fl v.flags;
        text = v.text ∙ map-push c (scan m.delimiters (view m)) ∙ rw e;
        stops = v.stops ∙ rw e;
      }

current-advance : (l : Lexer) → (advance l).current ≡ l.peek
unfolding advance
current-advance l = ground arith

-- A step over a byte that stands for itself.
value_go :
    (l : Lexer) (buf : Bytes) {r : Option Bytes × Lexer}
    → (l.current == 0) ≡ false
    → is_release l.delimiters l.current ≡ false
    → is_structural l.delimiters l.current ≡ false
    → ValueRead (advance l) (buf ++ l.current ∷ []) r
    → ValueRead l buf r
value_go l buf live rel str v =
    ValueRead-go l buf l.current (Moves-advance l live) (SameFlags-advance l)
      (rw (view-advance l live) (scan_go l.delimiters l.current (view (advance l)) rel str)) v

-- The two steps over a release character and the byte that it releases.
value_release :
    (l : Lexer) (buf : Bytes) {r : Option Bytes × Lexer}
    → (l.current == 0) ≡ false
    → (l.peek == 0) ≡ false
    → is_release l.delimiters l.current ≡ true
    → ValueRead (advance (advance l)) (buf ++ (advance l).current ∷ []) r
    → ValueRead l buf r
value_release l buf live peek rel v =
    let next : ((advance l).current == 0) ≡ false = rw (current-advance l) peek in
    ValueRead-go l buf (advance l).current
      (Moves-trans (Moves-advance l live) (Moves-advance (advance l) next))
      (SameFlags-trans (SameFlags-advance l) (SameFlags-advance (advance l)))
      (rw (view-advance l live, view-advance (advance l) next)
        (scan-release l.delimiters l.current (advance l).current _ rel))
      v

value_dangling :
    (l : Lexer) (buf : Bytes)
    → (l.current == 0) ≡ false
    → (l.peek == 0) ≡ true
    → is_release l.delimiters l.current ≡ true
    → ValueRead l buf (none, l)
value_dangling l buf live peek rel =
    let end : view (advance l) ≡ [] = view-eof (advance l) (rw (current-advance l) peek) in
    ValueRead-dangling l buf
      (rw (view-advance l live, end) (scan-release_nil l.delimiters l.current rel))

value_end : (l : Lexer) (buf : Bytes) → view l ≡ [] → ValueRead l buf (some buf, l)
unfolding scan
value_end l buf h = ValueRead-stop l buf (rw h refl)

pub value_loop-ValueRead :
    (n : ℕ) (l : Lexer) (buf : Bytes) → length (view l) ≤ n → ValueRead l buf (value_loop n l buf)
unfolding value_loop is_delimiter is_release_char
value_loop-ValueRead zero l buf h = value_end l buf (eq-nil-of-length (view l) 0 h refl)
value_loop-ValueRead (suc n) l buf h = elim (Bool-cases (l.current == 0)) [
  | inl e ↦ rw (e, value_loop) (value_end l buf (view-eof l e))
  | inr live ↦ elim (Bool-cases (is_release l.delimiters l.current)) [
    | inl rel ↦ elim (Bool-cases (l.peek == 0)) [
      | inl p ↦ rw (live, rel, p, value_loop) (value_dangling l buf live p rel)
      | inr p ↦
          rw (live, rel, p, value_loop)
            (value_release l buf live p rel (
              value_loop-ValueRead n _ _
                (ground (arith, view-advance l live, view-advance (advance l), current-advance l))))
    ]
    | inr rel ↦ elim (Bool-cases (is_structural l.delimiters l.current)) [
      | inl s ↦
          rw (live, rel, s, value_loop)
            (ValueRead-stop l buf (
              rw (view-advance l live) (scan_stop l.delimiters l.current (view (advance l)) rel s)))
      | inr s ↦
          rw (live, rel, s, value_loop)
            (value_go l buf live rel s
              (value_loop-ValueRead n _ _ (ground (arith, view-advance l live))))
    ]
  ]
]
