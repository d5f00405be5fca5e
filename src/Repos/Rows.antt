-- ===== src/Repos/Rows.antt =====
-- Rows of the table of messages in the order of its key, and what a WHERE clause keeps of them.
use edifact_parser.Base.{
  ℕ, zero, suc, ◌≤◌, ◌<◌, Bool, true, false, ◌&&◌, Option, none, some, List, [], ◌∷◌, ◌++◌, length,
  take, get_elem?, All, filter, filter-append, filter-All, filter_none, ltb, bytes_eq, ◌==◌, ◌≡◌,
  refl, ap, ◌∙◌, arith, if_ind,
}
use edifact_parser.Domain.{Uuid}
use edifact_parser.Repos.Database.{
  MessageRow, Condition, interchange_is, version_is, subscription_is, type_is, id_above,
}

-- What SQL makes of a condition; an equation with NULL does not hold.
abbrev pub option_is : Option Uuid → Uuid → Bool
option_is none id = false
option_is (some x) id = x == id

abbrev pub satisfies_one : Condition → MessageRow → Bool
satisfies_one (interchange_is id) row = row.interchange_id == id
satisfies_one (version_is id) row = row.processing_version_id == id
satisfies_one (subscription_is id) row = option_is row.subscription_id id
satisfies_one (type_is text) row = bytes_eq row.message_type text
satisfies_one (id_above id) row = ltb id row.id

abbrev pub satisfies : List Condition → MessageRow → Bool
satisfies [] row = true
satisfies (c ∷ cs) row = satisfies_one c row && satisfies cs row

-- In ascending order of id, with no id twice: the primary key.
abbrev pub IsAscending : List MessageRow → Type 0
IsAscending [] = Unit
IsAscending (row ∷ rows) = All (λ r. row.id < r.id) rows × IsAscending rows

satisfies-append :
    (cs ds : List Condition) (row : MessageRow)
    → satisfies (cs ++ ds) row ≡ (satisfies cs row && satisfies ds row)
satisfies-append [] ds row = refl
satisfies-append (c ∷ cs) ds row = ground (arith, satisfies-append cs ds row)

pub filter_twice :
    (cs ds : List Condition) (rows : List MessageRow)
    → filter (satisfies (cs ++ ds)) rows ≡ filter (satisfies ds) (filter (satisfies cs) rows)
unfolding filter
filter_twice cs ds [] = refl
filter_twice cs ds (row ∷ rows) =
    ground (arith, filter_twice cs ds rows, satisfies-append cs ds row)

pub All-filter :
    (P : MessageRow → Type 0) (p : MessageRow → Bool) (rows : List MessageRow)
    → All P rows
    → All P (filter p rows)
unfolding filter
All-filter P p [] h = tt
All-filter P p (row ∷ rows) h =
    if_ind (All P) (p row) (λ _. (h.0, All-filter P p rows h.1)) (λ _. All-filter P p rows h.1)

pub IsAscending-filter :
    (p : MessageRow → Bool) (rows : List MessageRow)
    → IsAscending rows
    → IsAscending (filter p rows)
unfolding filter
IsAscending-filter p [] h = tt
IsAscending-filter p (row ∷ rows) h =
    if_ind IsAscending (p row)
      (λ _. (All-filter (λ r. row.id < r.id) p rows h.0, IsAscending-filter p rows h.1))
      (λ _. IsAscending-filter p rows h.1)

All-middle :
    (P : MessageRow → Type 0) (a : List MessageRow) (x : MessageRow) (b : List MessageRow)
    → All P (a ++ x ∷ b)
    → P x
All-middle P [] x b h = h.0
All-middle P (r ∷ a) x b h = All-middle P a x b h.1

IsAscending-behind :
    (a : List MessageRow) (x : MessageRow) (b : List MessageRow)
    → IsAscending (a ++ x ∷ b)
    → All (λ r. x.id < r.id) b
IsAscending-behind [] x b h = h.0
IsAscending-behind (r ∷ a) x b h = IsAscending-behind a x b h.1

-- Behind a row of an ascending list stand those that are above it.
below_or_at :
    (a : List MessageRow) (x : MessageRow) (b : List MessageRow)
    → IsAscending (a ++ x ∷ b)
    → All (λ r. satisfies (id_above x.id ∷ []) r ≡ false) (a ++ x ∷ [])
below_or_at [] x b h = (ground arith, tt)
below_or_at (r ∷ a) x b h =
    let less = All-middle (λ q. r.id < q.id) a x b h.0 in
    (ground (arith, less), below_or_at a x b h.1)

above :
    (b : List MessageRow) (x : MessageRow)
    → All (λ r. x.id < r.id) b
    → All (λ r. satisfies (id_above x.id ∷ []) r ≡ true) b
above [] x h = tt
above (r ∷ b) x h = (ground (arith, h.0), above b x h.1)

-- The rows that are left behind `x`.
pub filter_behind :
    (a : List MessageRow) (x : MessageRow) (b : List MessageRow)
    → IsAscending (a ++ x ∷ b)
    → filter (satisfies (id_above x.id ∷ [])) ((a ++ x ∷ []) ++ b) ≡ b
filter_behind a x b h =
    let p = satisfies (id_above x.id ∷ []) in
    filter-append p (a ++ x ∷ []) b
    ∙ ap (λ l. l ++ filter p b) (filter_none p (a ++ x ∷ []) (below_or_at a x b h))
    ∙ filter-All p b (above b x (IsAscending-behind a x b h))

module _ {A : Type 0} where
  pub All-before : (P : A → Type 0) (a b : List A) → All P (a ++ b) → All P a
  All-before P [] b h = tt
  All-before P (x ∷ a) b h = (h.0, All-before P a b h.1)

  pub take_all : (n : ℕ) (xs : List A) → length xs ≤ n → take n xs ≡ xs
  take_all zero [] h = refl
  take_all zero (x ∷ xs) h = absurd (omega (arith, h))
  take_all (suc n) [] h = refl
  take_all (suc n) (x ∷ xs) h = ap (λ l. x ∷ l) (take_all n xs (omega (arith, h)))

  pub length-take : (n : ℕ) (xs : List A) → n ≤ length xs → length (take n xs) ≡ n
  length-take zero xs h = refl
  length-take (suc n) [] h = absurd (omega (arith, h))
  length-take (suc n) (x ∷ xs) h = ap suc (length-take n xs (omega (arith, h)))

  pub take-take : (n : ℕ) (xs : List A) → take n (take (suc n) xs) ≡ take n xs
  take-take zero xs = refl
  take-take (suc n) [] = refl
  take-take (suc n) (x ∷ xs) = ap (λ l. x ∷ l) (take-take n xs)

  pub take-append :
      (a : List A) (y : A) (b : List A) → take (suc (length a)) (a ++ y ∷ b) ≡ a ++ y ∷ []
  take-append [] y b = refl
  take-append (x ∷ a) y b = ap (λ l. x ∷ l) (take-append a y b)

  pub get_elem?-append : (a : List A) (y : A) → get_elem? (a ++ y ∷ []) (length a) ≡ some y
  get_elem?-append [] y = refl
  get_elem?-append (x ∷ a) y = get_elem?-append a y

  -- The element at a place, and what stands around it.
  pub split_at :
      (m : ℕ) (xs : List A)
      → m < length xs
      → (a : List A) × (y : A) × (b : List A) × (xs ≡ a ++ y ∷ b) × (length a ≡ m)
  split_at m [] h = absurd (omega (arith, h))
  split_at zero (x ∷ xs) h = ([], x, xs, refl, refl)
  split_at (suc m) (x ∷ xs) h =
      let (a, y, b, e, l) = split_at m xs (omega (arith, h)) in
      (x ∷ a, y, b, ap (λ t. x ∷ t) e, ap suc l)
