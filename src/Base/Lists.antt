-- ===== src/Base/Lists.antt =====
-- Lists measured and indexed by native numbers, and their initial runs.
use Prim.Native.Nat.{ℕ, zero, suc, ◌+◌, ◌≤◌}
use mathlib.Core.Path.{◌≡◌, refl}
use mathlib.Core.Bool.{Bool, true, false}
use mathlib.Core.Option.{Option, none, some}
use mathlib.Core.List.{List, [], ◌∷◌, ◌++◌}
use native.Mathlib.Omega.{arith}
use edifact_parser.Base.Tests.{if◌then◌else◌}

module _ {ℓ} {A : Type ℓ} where
  abbrev pub length : List A → ℕ
  length [] = 0
  length (x ∷ xs) = suc (length xs)

  abbrev pub get_or : List A → ℕ → A → A
  get_or [] i d = d
  get_or (x ∷ xs) zero d = x
  get_or (x ∷ xs) (suc i) d = get_or xs i d

  abbrev pub get_elem? : List A → ℕ → Option A
  get_elem? [] i = none
  get_elem? (x ∷ xs) zero = some x
  get_elem? (x ∷ xs) (suc i) = get_elem? xs i

  -- Every element has the property.
  abbrev pub All : (A → Type 0) → List A → Type 0
  All P [] = Unit
  All P (x ∷ xs) = P x × All P xs

  pub All-append : (P : A → Type 0) (xs ys : List A) → All P xs → All P ys → All P (xs ++ ys)
  All-append P [] ys h k = k
  All-append P (x ∷ xs) ys h k = (h.0, All-append P xs ys h.1 k)

  abbrev pub take : ℕ → List A → List A
  take zero xs = []
  take (suc n) [] = []
  take (suc n) (x ∷ xs) = x ∷ take n xs

  abbrev pub drop : ℕ → List A → List A
  drop zero xs = xs
  drop (suc n) [] = []
  drop (suc n) (x ∷ xs) = drop n xs

  pub length-append : (xs ys : List A) → length (xs ++ ys) ≡ length xs + length ys
  length-append [] ys = omega arith
  length-append (x ∷ xs) ys = omega (arith, length-append xs ys)

  module _ (p : A → Bool) where
    unfoldable pub filter : List A → List A
    filter [] = []
    filter (x ∷ xs) = let rest = filter xs in if p x then x ∷ rest else rest

    pub filter-append : (xs ys : List A) → filter (xs ++ ys) ≡ filter xs ++ filter ys
    unfolding filter
    filter-append [] ys = refl
    filter-append (x ∷ xs) ys = ground (arith, filter-append xs ys)

    -- All are kept, or none.
    pub filter-All : (xs : List A) → All (λ x. p x ≡ true) xs → filter xs ≡ xs
    unfolding filter
    filter-All [] h = refl
    filter-All (x ∷ xs) h = ground (arith, h.0, filter-All xs h.1)

    pub filter_none : (xs : List A) → All (λ x. p x ≡ false) xs → filter xs ≡ []
    unfolding filter
    filter_none [] h = refl
    filter_none (x ∷ xs) h = ground (arith, h.0, filter_none xs h.1)

    unfoldable pub take_while : List A → List A
    take_while [] = []
    take_while (x ∷ xs) = if p x then x ∷ take_while xs else []

    unfoldable pub drop_while : List A → List A
    drop_while [] = []
    drop_while (x ∷ xs) = if p x then drop_while xs else x ∷ xs

    pub take_while-append-drop_while : (xs : List A) → take_while xs ++ drop_while xs ≡ xs
    unfolding take_while drop_while
    take_while-append-drop_while [] = refl
    take_while-append-drop_while (x ∷ xs) = ground (arith, take_while-append-drop_while xs)

    pub length-drop_while : (xs : List A) → length (drop_while xs) ≤ length xs
    unfolding drop_while
    length-drop_while [] = omega arith
    length-drop_while (x ∷ xs) = ground (arith, length-drop_while xs)
