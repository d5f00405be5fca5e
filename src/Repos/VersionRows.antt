-- ===== src/Repos/VersionRows.antt =====
-- The rows of the table of processing versions under the two statements of `Activate`.
use edifact_parser.Base.{
  suc, true, false, Option, none, some, List, [], ◌∷◌, map, All, filter, ◌==◌, if◌then◌else◌, ◌≡◌,
  ◌≢◌, inl, inr, refl, ap, ◌∙◌, arith, Bool-cases, eq_of-some,
}
use edifact_parser.Domain.{Uuid}
use edifact_parser.Repos.Database.{ProcessingVersionRow}
use edifact_parser.Repos.Versions.{
  interchange_of, deactivated_in, siblings_deactivated, activated_by, version_activated,
  affected_by,
}

-- No id twice: the primary key.
abbrev pub IsKeyed : List ProcessingVersionRow → Type 0
IsKeyed [] = Unit
IsKeyed (row ∷ rows) = All (λ r. row.id ≢ r.id) rows × IsKeyed rows

-- In the interchange `x` the version `id` is active and no other one; other interchanges keep what
-- they have.
abbrev pub only_active : Uuid → Uuid → ProcessingVersionRow → ProcessingVersionRow
only_active x id row =
    if row.interchange_id == x then record row { is_active = row.id == id } else row

-- No row with the id: the statements find nothing.
deactivated_in-none : (rows : List ProcessingVersionRow) → map (deactivated_in none) rows ≡ rows
deactivated_in-none [] = refl
deactivated_in-none (row ∷ rows) = ap (λ l. row ∷ l) (deactivated_in-none rows)

pub siblings-none :
    (id : Uuid) (rows : List ProcessingVersionRow)
    → interchange_of id rows ≡ none
    → siblings_deactivated id rows ≡ rows
unfolding siblings_deactivated
siblings-none id rows h = rw (h, siblings_deactivated) (deactivated_in-none rows)

module _ {A B : Type 0} where
  map-All : (f g : A → B) (xs : List A) → All (λ x. f x ≡ g x) xs → map f xs ≡ map g xs
  map-All f g [] h = refl
  map-All f g (x ∷ xs) h = rw (h.0, map-All f g xs h.1) refl

module _ {A B C : Type 0} where
  map-map : (f : A → B) (g : B → C) (xs : List A) → map g (map f xs) ≡ map (λ x. g (f x)) xs
  map-map f g [] = refl
  map-map f g (x ∷ xs) = ap (λ l. g (f x) ∷ l) (map-map f g xs)

-- The first statement keeps the ids.
deactivated_in-id :
    (x : Option Uuid) (row : ProcessingVersionRow) → (deactivated_in x row).id ≡ row.id
deactivated_in-id none row = refl
deactivated_in-id (some x) row = ground arith

pub affected_by-deactivated :
    (id : Uuid) (x : Option Uuid) (rows : List ProcessingVersionRow)
    → affected_by id (map (deactivated_in x) rows) ≡ affected_by id rows
unfolding affected_by filter
affected_by-deactivated id x [] = refl
affected_by-deactivated id x (row ∷ rows) = elim (Bool-cases (row.id == id)) [
  | inl b ↦ rw (deactivated_in-id x row, b) (ap suc (affected_by-deactivated id x rows))
  | inr b ↦ rw (deactivated_in-id x row, b) (affected_by-deactivated id x rows)
]

-- The rows with an id that is absent, and with one that is present.
pub affected_by-absent :
    (id : Uuid) (rows : List ProcessingVersionRow)
    → interchange_of id rows ≡ none
    → affected_by id rows ≡ 0
unfolding affected_by filter interchange_of
affected_by-absent id [] h = refl
affected_by-absent id (row ∷ rows) h = elim (Bool-cases (row.id == id)) [
  | inl b ↦ cc (rw b at h)
  | inr b ↦ rw b (affected_by-absent id rows (rw b at h))
]

pub affected_by-present :
    (id x : Uuid) (rows : List ProcessingVersionRow)
    → interchange_of id rows ≡ some x
    → affected_by id rows ≢ 0
unfolding affected_by filter interchange_of
affected_by-present id x [] h n = cc
affected_by-present id x (row ∷ rows) h n = elim (Bool-cases (row.id == id)) [
  | inl b ↦ omega (arith, rw b at n)
  | inr b ↦ affected_by-present id x rows (rw b at h) (rw b at n)
]

pub activated_by-absent :
    (id : Uuid) (rows : List ProcessingVersionRow)
    → interchange_of id rows ≡ none
    → version_activated id rows ≡ rows
unfolding version_activated interchange_of
activated_by-absent id [] h = refl
activated_by-absent id (row ∷ rows) h = elim (Bool-cases (row.id == id)) [
  | inl b ↦ cc (rw b at h)
  | inr b ↦ rw b (ap (λ l. row ∷ l) (activated_by-absent id rows (rw b at h)))
]

-- Behind the row with the id there is no other one.
other_ids :
    (id : Uuid) (row : ProcessingVersionRow) (rows : List ProcessingVersionRow)
    → (row.id == id) ≡ true
    → All (λ r. row.id ≢ r.id) rows
    → All (λ r. (r.id == id) ≡ false) rows
other_ids id row [] b h = tt
other_ids id row (r ∷ rows) b h = (ground (arith, b, h.0), other_ids id row rows b h.1)

vacuous :
    (id x : Uuid) (rows : List ProcessingVersionRow)
    → All (λ r. (r.id == id) ≡ false) rows
    → All (λ r. (r.id == id) ≡ true → r.interchange_id ≡ x) rows
vacuous id x [] h = tt
vacuous id x (r ∷ rows) h = (λ t. cc (t, h.0), vacuous id x rows h.1)

-- Wherever the id stands, so does its interchange.
same_interchange :
    (id x : Uuid) (rows : List ProcessingVersionRow)
    → IsKeyed rows
    → interchange_of id rows ≡ some x
    → All (λ r. (r.id == id) ≡ true → r.interchange_id ≡ x) rows
unfolding interchange_of
same_interchange id x [] k h = tt
same_interchange id x (row ∷ rows) k h = elim (Bool-cases (row.id == id)) [
  | inl b ↦ (λ _. eq_of-some (rw b at h), vacuous id x rows (other_ids id row rows b k.0))
  | inr b ↦ (λ t. cc (t, b), same_interchange id x rows k.1 (rw b at h))
]

both_statements :
    (id x : Uuid) (row : ProcessingVersionRow)
    → ((row.id == id) ≡ true → row.interchange_id ≡ x)
    → activated_by id (deactivated_in (some x) row) ≡ only_active x id row
both_statements id x row h = elim (Bool-cases (row.interchange_id == x)) [
  | inl a ↦ elim (Bool-cases (row.id == id)) [ inl b ↦ rw (a, b) refl | inr b ↦ rw (a, b) refl ]
  | inr a ↦ elim (Bool-cases (row.id == id)) [
    | inl b ↦ absurd (ground (arith, h b, a))
    | inr b ↦ rw (a, b) refl
  ]
]

statements_of_rows :
    (id x : Uuid) (rows : List ProcessingVersionRow)
    → All (λ r. (r.id == id) ≡ true → r.interchange_id ≡ x) rows
    → map (λ r. activated_by id (deactivated_in (some x) r)) rows ≡ map (only_active x id) rows
statements_of_rows id x [] h = refl
statements_of_rows id x (row ∷ rows) h =
    rw (both_statements id x row h.0, statements_of_rows id x rows h.1) refl

pub activated_rows :
    (id x : Uuid) (rows : List ProcessingVersionRow)
    → IsKeyed rows
    → interchange_of id rows ≡ some x
    → version_activated id (siblings_deactivated id rows) ≡ map (only_active x id) rows
unfolding version_activated siblings_deactivated
activated_rows id x rows k h =
    rw (h, siblings_deactivated)
      (map-map (deactivated_in (some x)) (activated_by id) rows
        ∙ statements_of_rows id x rows (same_interchange id x rows k h))
