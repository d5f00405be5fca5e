-- ===== src/Tests/Activating.antt =====
-- The statements of `Activate` on the small database.
use edifact_parser.Base.{ℕ, ◌==◌, filter, ◌≡◌, refl, sym, arith, Bool-cases, inl, inr}
use edifact_parser.Domain.{Uuid, ok, err}
use edifact_parser.Ingestion.Yields.{ok-injective}
use edifact_parser.Repos.Database.{DbError}
use edifact_parser.Repos.Versions.{
  interchange_of, siblings_deactivated, version_activated, affected_by,
}
use edifact_parser.Repos.Activation.{Updates}
use edifact_parser.Tests.Tables.{Tables, versions, known_version, small_db}
use edifact_parser.Repos.VersionRows.{IsKeyed}

pub siblings-ok :
    (id : Uuid) (s : Tables) (n : ℕ)
    → (small_db.deactivate_siblings id s).0 ≡ ok n
    → versions (small_db.deactivate_siblings id s).1 ≡ siblings_deactivated id (versions s)
unfolding siblings_deactivated interchange_of
siblings-ok id s n e = elim (Bool-cases (1 == id)) [
  | inl a ↦ rw a refl
  | inr a ↦ elim (Bool-cases (2 == id)) [ inl b ↦ rw (a, b) refl | inr b ↦ rw (a, b) refl ]
]

pub activate-ok :
    (id : Uuid) (s : Tables) (n : ℕ)
    → (small_db.activate_version id s).0 ≡ ok n
    → (n ≡ affected_by id (versions s))
      × (versions (small_db.activate_version id s).1 ≡ version_activated id (versions s))
unfolding version_activated affected_by filter
activate-ok id s n e = elim (Bool-cases (1 == id)) [
  | inl a ↦ elim (Bool-cases (2 == id)) [
    | inl b ↦ absurd (ground (arith, a, b))
    | inr b ↦ rw (a, b) (sym (ok-injective (rw a at e)), refl)
  ]
  | inr a ↦ elim (Bool-cases (2 == id)) [
    | inl b ↦ rw (a, b) (sym (ok-injective (rw (a, b) at e)), refl)
    | inr b ↦ rw (a, b) (sym (ok-injective (rw (a, b) at e)), refl)
  ]
]

pub siblings-err :
    (id : Uuid) (s : Tables) (x : DbError) → (small_db.deactivate_siblings id s).0 ≡ err x → ⊥
siblings-err id s x e = elim (Bool-cases (known_version id)) [
  | inl a ↦ cc (rw a at e)
  | inr a ↦ cc (rw a at e)
]

pub activate-err :
    (id : Uuid) (s : Tables) (x : DbError) → (small_db.activate_version id s).0 ≡ err x → ⊥
activate-err id s x e = elim (Bool-cases (1 == id)) [
  | inl a ↦ cc (rw a at e)
  | inr a ↦ elim (Bool-cases (2 == id)) [
    | inl b ↦ cc (rw (a, b) at e)
    | inr b ↦ cc (rw (a, b) at e)
  ]
]

pub two_versions : (s : Tables) → IsKeyed (versions s)
two_versions s = ((ground arith, tt), (tt, tt))

abbrev pub small_db-Updates : Updates small_db
small_db-Updates = record {
  table = versions;
  keyed = λ s. two_versions s;
  siblings_ok = λ id s n e. siblings-ok id s n e;
  siblings_err = λ id s x e. absurd (siblings-err id s x e);
  activate_ok = λ id s n e. activate-ok id s n e;
  activate_err = λ id s x e. absurd (activate-err id s x e);
}
