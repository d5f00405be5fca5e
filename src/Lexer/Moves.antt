-- ===== src/Lexer/Moves.antt =====
-- What the scanner of lexer.go consumes, and how `line` and `column` follow it.
use edifact_parser.Base.{
  ℕ, zero, suc, ◌+◌, ◌≤◌, Bool, true, false, not, ◌&&◌, List, [], ◌∷◌, ◌++◌, ◌≡◌, refl, ap, sym,
  ◌∙◌, inl, inr, arith, append_assoc, append-nil, Bytes, length, take_while, drop_while, ◌==◌,
  if◌then◌else◌, Bool-cases,
}
use edifact_parser.Lexer.{
  Lexer, advance, rounds, skip_loop, tag_loop, is_whitespace, is_alphanumeric,
  skip_inter_segment_whitespace,
}
use edifact_parser.Lexer.Stream.{view, view-advance, view-eof, view-le-rounds}

abbrev pub line_after : ℕ → Bytes → ℕ
line_after n [] = n
line_after n (c ∷ cs) = line_after (if c == b'\n' then n + 1 else n) cs

abbrev pub column_after : ℕ → Bytes → ℕ
column_after n [] = n
column_after n (c ∷ cs) = column_after (if c == b'\n' then 1 else n + 1) cs

-- From `l` to `m` the scanner steps over the bytes `taken`.
pub record Moves (l m : Lexer) (taken : Bytes) : Type 0 where
  pub consumed : view l ≡ taken ++ view m
  pub same_delimiters : m.delimiters ≡ l.delimiters
  pub line_at : m.line ≡ line_after l.line taken
  pub column_at : m.column ≡ column_after l.column taken

-- The two flags that only whole tokens change.
pub record SameFlags (l m : Lexer) : Type 0 where
  pub same_after : m.after_segment_end ≡ l.after_segment_end
  pub same_start : m.at_segment_start ≡ l.at_segment_start

pub Moves-refl : (l : Lexer) → Moves l l []
Moves-refl l = record { consumed = refl; same_delimiters = refl; line_at = refl; column_at = refl }

pub Moves-advance : (l : Lexer) → (l.current == 0) ≡ false → Moves l (advance l) (l.current ∷ [])
Moves-advance l h = record {
  consumed = view-advance l h;
  same_delimiters = unfold advance in ground arith;
  line_at = unfold advance in ground arith;
  column_at = unfold advance in ground arith;
}

pub SameFlags-refl : (l : Lexer) → SameFlags l l
SameFlags-refl l = record { same_after = refl; same_start = refl }

pub SameFlags-advance : (l : Lexer) → SameFlags l (advance l)
unfolding advance
SameFlags-advance l = ground arith

pub SameFlags-trans : {l m k : Lexer} → SameFlags l m → SameFlags m k → SameFlags l k
SameFlags-trans a b = record {
  same_after = b.same_after ∙ a.same_after;
  same_start = b.same_start ∙ a.same_start;
}

pub line_after-append :
    (n : ℕ) (xs ys : Bytes) → line_after n (xs ++ ys) ≡ line_after (line_after n xs) ys
line_after-append n [] ys = refl
line_after-append n (x ∷ xs) ys = line_after-append (if x == b'\n' then n + 1 else n) xs ys

pub column_after-append :
    (n : ℕ) (xs ys : Bytes) → column_after n (xs ++ ys) ≡ column_after (column_after n xs) ys
column_after-append n [] ys = refl
column_after-append n (x ∷ xs) ys = column_after-append (if x == b'\n' then 1 else n + 1) xs ys

pub Moves-trans :
    {l m k : Lexer} {xs ys : Bytes} → Moves l m xs → Moves m k ys → Moves l k (xs ++ ys)
Moves-trans {l} {m} {k} {xs} {ys} a b = record {
  consumed = a.consumed ∙ ap (λ t. xs ++ t) b.consumed ∙ sym (append_assoc xs ys (view k));
  same_delimiters = b.same_delimiters ∙ a.same_delimiters;
  line_at = b.line_at ∙ ap (λ n. line_after n ys) a.line_at ∙ sym (line_after-append l.line xs ys);
  column_at =
      b.column_at
      ∙ ap (λ n. column_after n ys) a.column_at
      ∙ sym (column_after-append l.column xs ys);
}

pub eq-nil-of-length : {A : Type 0} (xs : List A) (n : ℕ) → length xs ≤ n → n ≡ 0 → xs ≡ []
eq-nil-of-length [] n h e = refl
eq-nil-of-length (x ∷ xs) n h e = absurd (omega arith)

-- A loop that steps while `p` holds takes the longest run of such bytes, and stops behind it.
pub record Takes (p : ℕ → Bool) (l m : Lexer) : Type 0 where
  pub moves : Moves l m (take_while p (view l))
  pub stops : view m ≡ drop_while p (view l)
  pub flags : SameFlags l m

module _ (p : ℕ → Bool) where
  view-stop :
      (l : Lexer)
      → (not (l.current == 0) && p l.current) ≡ false
      → (take_while p (view l) ≡ []) × (drop_while p (view l) ≡ view l)
  unfolding take_while drop_while
  view-stop l h = ground (arith, view-eof l, view-advance l)

  view-go :
      (l : Lexer)
      → (not (l.current == 0) && p l.current) ≡ true
      → ((l.current == 0) ≡ false)
        × (take_while p (view l) ≡ l.current ∷ take_while p (view (advance l)))
        × (drop_while p (view l) ≡ drop_while p (view (advance l)))
  unfolding take_while drop_while
  view-go l h = ground (arith, view-advance l)

  pub Takes-stop : (l : Lexer) → (not (l.current == 0) && p l.current) ≡ false → Takes p l l
  Takes-stop l h = record {
    moves = rw ((view-stop l h).0) (Moves-refl l);
    stops = sym (view-stop l h).1;
    flags = SameFlags-refl l;
  }

  pub Takes-go :
      (l m : Lexer)
      → (not (l.current == 0) && p l.current) ≡ true
      → Takes p (advance l) m
      → Takes p l m
  Takes-go l m h t =
      let (live, taken, rest) = view-go l h in
      record {
        moves = rw taken (Moves-trans (Moves-advance l live) t.moves);
        stops = t.stops ∙ sym rest;
        flags = SameFlags-trans (SameFlags-advance l) t.flags;
      }

  -- With no byte to read the test of such a loop fails.
  pub view-stuck : (l : Lexer) → length (view l) ≤ 0 → (not (l.current == 0) && p l.current) ≡ false
  view-stuck l h = ground (arith, view-advance l)

  pub view-shrinks :
      (l : Lexer) (n : ℕ)
      → (not (l.current == 0) && p l.current) ≡ true
      → length (view l) ≤ suc n
      → length (view (advance l)) ≤ n
  view-shrinks l n h e = ground (arith, view-advance l)

skip_loop-Takes : (n : ℕ) (l : Lexer) → length (view l) ≤ n → Takes is_whitespace l (skip_loop n l)
unfolding skip_loop
skip_loop-Takes zero l h = Takes-stop is_whitespace l (view-stuck is_whitespace l h)
skip_loop-Takes (suc n) l h = elim (Bool-cases (not (l.current == 0) && is_whitespace l.current)) [
  | inl go ↦
      rw (go, skip_loop)
        (Takes-go is_whitespace l _ go
          (skip_loop-Takes n (advance l) (view-shrinks is_whitespace l n go h)))
  | inr stop ↦ rw (stop, skip_loop) (Takes-stop is_whitespace l stop)
]

pub skip-Takes : (l : Lexer) → Takes is_whitespace l (skip_inter_segment_whitespace l)
unfolding skip_inter_segment_whitespace
skip-Takes l = skip_loop-Takes (rounds l) l (view-le-rounds l)

pub record TagRead (l : Lexer) (buf : Bytes) (r : Bytes × Lexer) : Type 0 where
  pub takes : Takes is_alphanumeric l r.1
  pub text : r.0 ≡ buf ++ take_while is_alphanumeric (view l)

pub tag_loop-TagRead :
    (n : ℕ) (l : Lexer) (buf : Bytes) → length (view l) ≤ n → TagRead l buf (tag_loop n l buf)
unfolding tag_loop
tag_loop-TagRead zero l buf h =
    let stop = view-stuck is_alphanumeric l h in
    record {
      takes = Takes-stop is_alphanumeric l stop;
      text = rw (view-stop is_alphanumeric l stop).0 (sym (append-nil buf));
    }
tag_loop-TagRead (suc n) l buf h =
    elim (Bool-cases (not (l.current == 0) && is_alphanumeric l.current)) [
      | inl go ↦
          let ih =
            tag_loop-TagRead n (advance l) (buf ++ l.current ∷ [])
              (view-shrinks is_alphanumeric l n go h) in
          rw (go, tag_loop)
            (record {
              takes = Takes-go is_alphanumeric l _ go ih.takes;
              text = ih.text ∙ rw (append_assoc, (view-go is_alphanumeric l go).1);
            })
      | inr stop ↦
          rw (stop, tag_loop)
            (record {
              takes = Takes-stop is_alphanumeric l stop;
              text = rw (view-stop is_alphanumeric l stop).0 (sym (append-nil buf));
            })
    ]
