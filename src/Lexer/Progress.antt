-- ===== src/Lexer/Progress.antt =====
-- Every token of lexer.go but the end of input and an error shortens what remains.
use edifact_parser.Base.{
  ℕ, suc, ◌≤◌, ◌<◌, Bool, true, false, ◌&&◌, Option, none, some, [], ◌∷◌, ◌≡◌, refl, sym, ◌⊎◌, inl,
  inr, arith, Bytes, length, drop_while, ◌==◌, if_ind,
}
use mathlib.Core.Path.{subst}
use edifact_parser.Base.Lists.{length-drop_while}
use edifact_parser.Delimiters.{Delimiters}
use edifact_parser.Token.{TokenType, end_of_input, error, data_element, component}
use edifact_parser.Lexer.{Lexer, next_token, is_alphanumeric, is_whitespace}
use edifact_parser.Lexer.Stream.{view}
use edifact_parser.Lexer.Value.{scan}
use edifact_parser.Lexer.Lexeme.{Lexeme, value_lexeme, tag_lexeme, head_lexeme, lexeme}
use edifact_parser.Lexer.Refines.{observe, next_token-lexeme}

length-scan : (d : Delimiters) (bs : Bytes) → length (scan d bs).1 ≤ length bs
unfolding scan
length-scan d [] = omega arith
length-scan d (c ∷ []) = ground arith
length-scan d (c ∷ e ∷ cs) = ground (arith, length-scan d cs, length-scan d (e ∷ cs))

-- The three ways in which a token leaves `n` bytes that remained.
abbrev pub Consumes : Lexeme → ℕ → Type 0
Consumes x n = ((x.kind ≡ end_of_input) × (x.rest ≡ [])) ⊎ (x.kind ≡ error) ⊎ (length x.rest < n)

Consumes-value :
    (kind : TokenType) (a s : Bool) (r : Option Bytes × Bytes) (n : ℕ)
    → length r.1 < n
    → Consumes (value_lexeme kind a s r) n
unfolding value_lexeme
Consumes-value kind a s (none, rest) n h = inr (inl refl)
Consumes-value kind a s (some t, rest) n h = inr (inr h)

Consumes-tag :
    (c : ℕ) (cs : Bytes)
    → is_alphanumeric c ≡ true
    → Consumes (tag_lexeme (c ∷ cs)) (length (c ∷ cs))
unfolding drop_while
Consumes-tag c cs h = inr (inr (ground (arith, length-drop_while is_alphanumeric cs)))

and-right : (a b : Bool) → (a && b) ≡ true → b ≡ true
and-right a b h = ground arith

Consumes-head :
    (d : Delimiters) (a s : Bool) (bs : Bytes) → Consumes (head_lexeme d a s bs) (length bs)
unfolding head_lexeme
Consumes-head d a s [] = inl (refl, refl)
Consumes-head d a s (c ∷ cs) =
    let value = λ (k : TokenType) (t : Bool).
      Consumes-value k a t (scan d cs) (suc (length cs)) (omega (arith, length-scan d cs)) in
    if_ind P (a && is_alphanumeric c) (λ h. Consumes-tag c cs (and-right a _ h))
      λ _.
        if_ind P (c == d.segment_terminator) (λ _. inr (inr (omega arith)))
          λ _.
            if_ind P (c == d.data_element_separator) (λ _. value data_element false)
              λ _.
                if_ind P (c == d.component_separator) (λ _. value component s)
                  λ _.
                    if_ind P (s && is_alphanumeric c) (λ h. Consumes-tag c cs (and-right s _ h))
                      λ _. inr (inl refl)
  where
    P : Lexeme → Type 0
    P x = Consumes x (suc (length cs))

Consumes-mono : (x : Lexeme) {m n : ℕ} → m ≤ n → Consumes x m → Consumes x n
Consumes-mono x h (inl e) = inl e
Consumes-mono x h (inr (inl e)) = inr (inl e)
Consumes-mono x h (inr (inr l)) = inr (inr (omega arith))

Consumes-lexeme :
    (d : Delimiters) (a s : Bool) (bs : Bytes) → Consumes (lexeme d a s bs) (length bs)
unfolding lexeme
Consumes-lexeme d a s bs =
    if_ind (λ b. Consumes (head_lexeme d a s b) (length bs)) a
      (λ _.
        Consumes-mono (head_lexeme d a s (drop_while is_whitespace bs))
          (length-drop_while is_whitespace bs) (Consumes-head d a s (drop_while is_whitespace bs)))
      (λ _. Consumes-head d a s bs)

-- A call of `NextToken` reports the end of input, and nothing remains; or it reports an error; or
-- fewer bytes remain than before.
pub next_token-progress :
    (l : Lexer)
    → (((next_token l).0.kind ≡ end_of_input) × (view (next_token l).1 ≡ []))
      ⊎ ((next_token l).0.kind ≡ error)
      ⊎ (length (view (next_token l).1) < length (view l))
unfolding observe
next_token-progress l =
    subst (λ x. Consumes x (length (view l))) (sym (next_token-lexeme l))
      (Consumes-lexeme l.delimiters l.after_segment_end l.at_segment_start (view l))
