-- ===== src/Repos/Activation.antt =====
-- What `Activate` leaves of the table of processing versions, statement by statement.
use edifact_parser.Base.{
  ℕ, none, some, List, map, ◌==◌, if◌then◌else◌, ◌≡◌, ◌≢◌, inl, inr, refl, ap, sym, ◌∙◌, arith,
  Option-cases,
}
use edifact_parser.Domain.{Uuid, Result, ok, err}
use edifact_parser.Ingestion.Ports
use edifact_parser.Ingestion.Yields.{Result-cases}
use edifact_parser.Repos.Database.{DbError, ProcessingVersionRow, Database}
use edifact_parser.Repos.Versions.{
  interchange_of, siblings_deactivated, version_activated, affected_by, activate_version,
}
use edifact_parser.Repos.Messages.{db_error}
use edifact_parser.Repos.VersionRows.{
  IsKeyed, only_active, siblings-none, affected_by-deactivated, affected_by-absent,
  affected_by-present, activated_by-absent, activated_rows,
}

-- What the repository relies on of the two statements: each either fails and changes nothing, or
-- does to the rows what its text says, and reports how many it affected.
pub record Updates {S : Type 0} (db : Database S) : Type 0 where
  pub table : S → List ProcessingVersionRow
  pub keyed : (s : S) → IsKeyed (table s)
  pub siblings_ok :
      (id : Uuid) (s : S) (n : ℕ)
      → (db.deactivate_siblings id s).0 ≡ ok n
      → table (db.deactivate_siblings id s).1 ≡ siblings_deactivated id (table s)
  pub siblings_err :
      (id : Uuid) (s : S) (e : DbError)
      → (db.deactivate_siblings id s).0 ≡ err e
      → table (db.deactivate_siblings id s).1 ≡ table s
  pub activate_ok :
      (id : Uuid) (s : S) (n : ℕ)
      → (db.activate_version id s).0 ≡ ok n
      → (n ≡ affected_by id (table s))
        × (table (db.activate_version id s).1 ≡ version_activated id (table s))
  pub activate_err :
      (id : Uuid) (s : S) (e : DbError)
      → (db.activate_version id s).0 ≡ err e
      → table (db.activate_version id s).1 ≡ table s

-- The outcomes of `Activate` from the state s, by what its two statements answer: the answer r, and
-- the table after it.
pub data Activation {S : Type 0} (db : Database S) (table : S → List ProcessingVersionRow)
    (id : Uuid) (s : S) (after : List ProcessingVersionRow) (r : Result {0, 0} Ports.RepoError Unit)
    : Type 0 where
  activated :
      (n m : ℕ) (x : Uuid)
      → (db.deactivate_siblings id s).0 ≡ ok n
      → (db.activate_version id (db.deactivate_siblings id s).1).0 ≡ ok m
      → interchange_of id (table s) ≡ some x
      → r ≡ ok tt
      → after ≡ map (only_active x id) (table s)
      → Activation db table id s after r
  not_found :
      (n m : ℕ)
      → (db.deactivate_siblings id s).0 ≡ ok n
      → (db.activate_version id (db.deactivate_siblings id s).1).0 ≡ ok m
      → interchange_of id (table s) ≡ none
      → r ≡ err Ports.processing_version_not_found
      → after ≡ table s
      → Activation db table id s after r
  second_failed :
      (n : ℕ) (e : DbError)
      → (db.deactivate_siblings id s).0 ≡ ok n
      → (db.activate_version id (db.deactivate_siblings id s).1).0 ≡ err e
      → r ≡ err (db_error e)
      → after ≡ siblings_deactivated id (table s)
      → Activation db table id s after r
  first_failed :
      (e : DbError)
      → (db.deactivate_siblings id s).0 ≡ err e
      → r ≡ err (db_error e)
      → after ≡ table s
      → Activation db table id s after r

-- What two statements that succeed leave, by whether the version is there.
data Found (id : Uuid) (before after : List ProcessingVersionRow)
    (r : Result {0, 0} Ports.RepoError Unit) : Type 0 where
  there :
      (x : Uuid)
      → interchange_of id before ≡ some x
      → r ≡ ok tt
      → after ≡ map (only_active x id) before
      → Found id before after r
  absent :
      interchange_of id before ≡ none
      → r ≡ err Ports.processing_version_not_found
      → after ≡ before
      → Found id before after r

-- The last step of `Activate`, on the number of rows that the second statement reports.
outcome :
    (id : Uuid) (before middle after : List ProcessingVersionRow) (n : ℕ)
    → IsKeyed before
    → middle ≡ siblings_deactivated id before
    → n ≡ affected_by id middle
    → after ≡ version_activated id middle
    → Found id before after (if n == 0 then err Ports.processing_version_not_found else ok tt)
unfolding siblings_deactivated
outcome id before middle after n k first count second =
    elim (Option-cases (interchange_of id before)) [
      | inl none_found ↦
          let same : middle ≡ before = first ∙ siblings-none id before none_found in
          let zero : n ≡ 0 =
            count ∙ ap (affected_by id) same ∙ affected_by-absent id before none_found in
          absent none_found (rw zero refl)
            (second ∙ ap (version_activated id) same ∙ activated_by-absent id before none_found)
      | inr (x, at) ↦
          let some_row : n ≢ 0 = λ z. affected_by-present id x before at (
            sym (
              count
              ∙ ap (affected_by id) first
              ∙ affected_by-deactivated id (interchange_of id before) before)
            ∙ z) in
          there x at (ground (arith, some_row))
            (second ∙ ap (version_activated id) first ∙ activated_rows id x before k at)
    ]

module _ {S : Type 0} (db : Database S) (updates : Updates db) where
  -- When both statements of `Activate` succeed it answers ok exactly when the version is there, and
  -- then this is the only active one of its interchange and all else is as it was; when it is not
  -- there the answer says so and the table stays as it is. When the first statement fails its error
  -- is answered and the table stays as it is too. When the second fails its error is answered, and
  -- every version of the interchange is left inactive.
  pub activate_version-Activation :
      (id : Uuid) (s : S)
      → Activation db updates.table id s
          (updates.table (activate_version db id s).1)
          (activate_version db id s).0
  unfolding activate_version
  activate_version-Activation id s = elim (Result-cases (db.deactivate_siblings id s).0) [
    | inr (e, f) ↦
        first_failed e f (rw (f, activate_version) refl)
          (rw (f, activate_version) (updates.siblings_err id s e f))
    | inl (n, f) ↦
        let t = (db.deactivate_siblings id s).1 in
        elim (Result-cases (db.activate_version id t).0) [
          | inr (e, g) ↦ second_failed n e f g (rw (f, g, activate_version) refl) (
              rw (f, g, activate_version)
                (updates.activate_err id t e g ∙ updates.siblings_ok id s n f))
          | inl (m, g) ↦
              let (count, second) = updates.activate_ok id t m g in
              elim (outcome id (updates.table s) (updates.table t)
                (updates.table (db.activate_version id t).1) m (updates.keyed s)
                (updates.siblings_ok id s n f) count second) [
                  | there x at o after ↦
                      activated n m x f g at (rw (f, g, activate_version) o)
                        (rw (f, g, activate_version) after)
                  | absent at o after ↦
                      not_found n m f g at (rw (f, g, activate_version) o)
                        (rw (f, g, activate_version) after)
                ]
        ]
  ]
