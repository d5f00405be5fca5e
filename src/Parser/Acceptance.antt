-- ===== src/Parser/Acceptance.antt =====
-- Errors of parser.go are never taken back: what holds of the results when none was recorded.
pub mod Messages
pub mod Trailer
pub mod Loop
pub mod Header
pub mod Result
use mathlib.Core.Path.{subst}
use edifact_parser.Base.{
  ℕ, zero, suc, ◌+◌, ◌≤◌, ◌<◌, Bool, true, false, not, ◌&&◌, ◌||◌, Option, none, some, List, [],
  ◌∷◌, ◌++◌, ◌≡◌, ◌≢◌, refl, ap, sym, ◌∙◌, ◌⊎◌, inl, inr, arith, append_assoc, append-nil, Bytes,
  codes, length, bytes_eq, take_while, drop_while, ◌==◌, if◌then◌else◌, Bool-cases, Option-cases,
  if_ind, ◌>>=◌, ltb,
}
use edifact_parser.Token.{
  TokenType, error, is_eof_type, segment_end, end_of_input, una, segment_tag, data_element,
  component, is_segment_tag_type,
}
use edifact_parser.Parser.State.{
  Parser, Segment, ParseError, ErrorText, advance, add_error, require, is_empty, unexpected_token,
}
use edifact_parser.Parser.Segments.{Element, read_loop, read_round, read_segment}

-- If no error stands in the list afterwards, none stood there before, and `Q` holds of the result.
pub record Post {A : Type 0} (p : Parser) (o : Option (A × Parser)) (Q : A → Type 0) : Type 0 where
  pub at : (a : A) (q : Parser) → o ≡ some (a, q) → q.errors ≡ [] → (p.errors ≡ []) × Q a

module _ {A : Type 0} {Q : A → Type 0} where
  pub Post-some :
      {p : Parser} (a : A) (q : Parser)
      → (q.errors ≡ [] → (p.errors ≡ []) × Q a)
      → Post p (some (a, q)) Q
  Post-some a q k = record {
    at = λ b r e h.
        let same : q ≡ r = cc in
        let value : a ≡ b = cc in
        let (before, good) = k (ap (λ (x : Parser). x.errors) same ∙ h) in
        (before, subst Q value good);
  }

  pub Post-none : {p : Parser} → Post p none Q
  Post-none = record { at = λ b r e h. cc }

  pub Post-bind :
      {B : Type 0} {R : B → Type 0} {p : Parser} (m : Option (A × Parser))
      (f : A × Parser → Option (B × Parser))
      → Post p m Q
      → ((a : A) (q : Parser) → Post q (f (a, q)) (λ b. Q a → R b))
      → Post p (m >>= f) R
  Post-bind none f h k = record { at = λ b r e i. cc }
  Post-bind (some (a, q)) f h k = record {
    at = λ b r e i.
        let (before, later) = (k a q).at b r e i in
        let (first, good) = h.at a q refl before in (first, later good);
  }

module _ {A : Type 0} {Q : A → Type 0} where
  pub Post-map :
      {R : A → Type 0} {p : Parser} (o : Option (A × Parser))
      → Post p o Q
      → ((a : A) → Q a → R a)
      → Post p o R
  Post-map o h k = record {
    at = λ a q e i. let (before, good) = h.at a q e i in (before, k a good);
  }

  -- Checks between `p` and `q` that only add errors.
  pub Post-before :
      {C : Type 0} {R : A → Type 0} {p q : Parser} (o : Option (A × Parser))
      → (q.errors ≡ [] → (p.errors ≡ []) × C)
      → Post q o Q
      → ((a : A) → C → Q a → R a)
      → Post p o R
  Post-before o c h k = record {
    at = λ a r e i.
        let (before, good) = h.at a r e i in
        let (first, checked) = c before in (first, k a checked good);
  }

pub append-ne-nil : {A : Type 0} (xs : List A) (x : A) → (xs ++ x ∷ []) ≢ []
append-ne-nil [] x e = cc
append-ne-nil (y ∷ ys) x e = cc

pub add_error-ne-nil :
    (p : Parser) (line column : ℕ) (m : ErrorText) → (add_error p line column m).errors ≢ []
unfolding add_error
add_error-ne-nil p line column m = append-ne-nil p.errors _

-- A required text is there if no error was recorded.
pub require-errors :
    (value : Bytes) (seg : Segment) (m : ErrorText) (p : Parser)
    → (require value seg m p).errors ≡ []
    → (p.errors ≡ []) × (value ≢ [])
unfolding require
require-errors [] seg m p h = absurd (add_error-ne-nil p seg.line seg.column m h)
require-errors (c ∷ cs) seg m p h = (h, λ e. cc)

abbrev pub Anything : {A : Type 0} → A → Type 0
Anything _ = Unit

module _ (again : Parser → Segment → Element → Option (Segment × Parser))
    (ih : (p : Parser) (seg : Segment) (e : Element) → Post p (again p seg e) Anything) where
  Post-advance :
      (p : Parser) (seg : Segment) (e : Element) → Post p (again (advance p) seg e) Anything
  unfolding advance
  Post-advance p seg e = record { at = (ih (advance p) seg e).at }

  Post-unexpected :
      (p : Parser) (line column : ℕ) (m : ErrorText) (seg : Segment) (e : Element)
      → Post p (again (advance (add_error p line column m)) seg e) Anything
  unfolding advance
  Post-unexpected p line column m seg e = record {
    at = λ a q k h. absurd (
        add_error-ne-nil p line column m
          ((ih (advance (add_error p line column m)) seg e).at a q k h).0);
  }

  read_round-Post :
      (kind : TokenType) (p : Parser) (seg : Segment) (e : Element)
      → Post p (read_round again kind p seg e) Anything
  unfolding read_round advance
  read_round-Post end_of_input p seg e = Post-some _ p (λ h. (h, tt))
  read_round-Post segment_tag p seg e = Post-some _ p (λ h. (h, tt))
  read_round-Post segment_end p seg e = Post-some _ (advance p) (λ h. (h, tt))
  read_round-Post data_element p seg e = Post-advance p _ _
  read_round-Post component p seg e = Post-advance p _ _
  read_round-Post una p seg e = Post-unexpected p _ _ _ seg e
  read_round-Post error p seg e = Post-unexpected p _ _ _ seg e

read_loop-Post :
    (n : ℕ) (p : Parser) (seg : Segment) (e : Element) → Post p (read_loop n p seg e) Anything
unfolding read_loop
read_loop-Post zero p seg e = Post-none
read_loop-Post (suc n) p seg e =
    read_round-Post (read_loop n) (read_loop-Post n) p.current_token.kind p seg e

pub read_segment-Post : (n : ℕ) (p : Parser) → Post p (read_segment n p) Anything
unfolding read_segment
read_segment-Post n p =
    if_ind (λ (o : Option (Segment × Parser)). Post p o Anything)
      (is_segment_tag_type p.current_token.kind)
      (λ _. Post-advance (read_loop n) (read_loop-Post n) p _ none) (λ _. read_loop-Post n p _ none)
