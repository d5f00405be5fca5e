-- ===== src/Usecases/Health/Aggregate.antt =====
-- `aggregateStatus` of usecases/queries/health.go on any list of checks.
use edifact_parser.Base.{
  ℕ, ◌+◌, ◌≤◌, Bool, true, false, List, [], ◌∷◌, codes, length, bytes_eq, ◌==◌, ◌≡◌, ◌≢◌, ◌↔◌, ◌⊎◌,
  refl, arith, inl, inr, Bool-cases, ap, ==_iff, not,
}
use edifact_parser.Usecases.Health.{HealthCheck, unhealthy, unhealthy_count, aggregate_status}

unhealthy_count-bounds :
    (n : ℕ) (cs : List HealthCheck)
    → (n ≤ unhealthy_count n cs) × (unhealthy_count n cs ≤ n + length cs)
unfolding unhealthy_count
unhealthy_count-bounds n [] = (omega arith, omega arith)
unhealthy_count-bounds n (c ∷ cs) =
    ground (arith, unhealthy_count-bounds n cs, unhealthy_count-bounds (n + 1) cs)

-- Every check of the list has, or has not, this status.
abbrev pub AllHave : Bool → List HealthCheck → Type 0
AllHave b [] = Unit
AllHave b (c ∷ cs) = (bytes_eq c.status unhealthy ≡ b) × AllHave b cs

-- Some check of the list has, or has not, this status.
abbrev pub HasOne : Bool → List HealthCheck → Type 0
HasOne b [] = ⊥
HasOne b (c ∷ cs) = (bytes_eq c.status unhealthy ≡ b) ⊎ HasOne b cs

HasOne-AllHave : (b : Bool) (cs : List HealthCheck) → HasOne b cs → AllHave (not b) cs → ⊥
HasOne-AllHave b [] h all = h
HasOne-AllHave true (c ∷ cs) (inl e) all = cc (e, all.0)
HasOne-AllHave false (c ∷ cs) (inl e) all = cc (e, all.0)
HasOne-AllHave b (c ∷ cs) (inr h) all = HasOne-AllHave b cs h all.1

not_all : (b : Bool) (cs : List HealthCheck) → (AllHave (not b) cs → ⊥) → HasOne b cs
not_all b [] h = absurd (h tt)
not_all true (c ∷ cs) h = elim (Bool-cases (bytes_eq c.status unhealthy)) [
  | inl e ↦ inl e
  | inr e ↦ inr (not_all true cs (λ all. h (e, all)))
]
not_all false (c ∷ cs) h = elim (Bool-cases (bytes_eq c.status unhealthy)) [
  | inl e ↦ inr (not_all false cs (λ all. h (e, all)))
  | inr e ↦ inl e
]

unhealthy_count-none :
    (n : ℕ) (cs : List HealthCheck) → (unhealthy_count n cs ≡ n) ↔ AllHave false cs
unfolding unhealthy_count
unhealthy_count-none n [] = (λ _. tt, λ _. refl)
unhealthy_count-none n (c ∷ cs) = elim (Bool-cases (bytes_eq c.status unhealthy)) [
  | inl b ↦
      rw b
        (λ h. absurd (omega (arith, h, (unhealthy_count-bounds (n + 1) cs).0)), λ (f, _). absurd cc)
  | inr b ↦
      rw b (λ h. (refl, (unhealthy_count-none n cs).0 h), λ (_, h). (unhealthy_count-none n cs).1 h)
]

unhealthy_count-all :
    (n : ℕ) (cs : List HealthCheck) → (unhealthy_count n cs ≡ n + length cs) ↔ AllHave true cs
unfolding unhealthy_count
unhealthy_count-all n [] = (λ _. tt, λ _. omega arith)
unhealthy_count-all n (c ∷ cs) = elim (Bool-cases (bytes_eq c.status unhealthy)) [
  | inl b ↦ rw b (
    λ h. (refl, (unhealthy_count-all (n + 1) cs).0 (omega (arith, h))),
    λ (_, h). omega (arith, (unhealthy_count-all (n + 1) cs).1 h),
  )
  | inr b ↦
      rw b (λ h. absurd (omega (arith, h, (unhealthy_count-bounds n cs).1)), λ (f, _). absurd cc)
]

length-zero : (cs : List HealthCheck) → length cs ≡ 0 → cs ≡ []
length-zero [] h = refl
length-zero (c ∷ cs) h = absurd (omega (arith, h))

-- Of any list of checks: the aggregate is "healthy" exactly when no check is unhealthy, "unhealthy"
-- exactly when there is a check and every check is, and "degraded" exactly when some checks are
-- unhealthy and some are not.
pub aggregate_status_iff :
    (cs : List HealthCheck)
    → ((aggregate_status cs ≡ codes "healthy") ↔ AllHave false cs)
      × ((aggregate_status cs ≡ codes "unhealthy") ↔ ((cs ≢ []) × AllHave true cs))
      × ((aggregate_status cs ≡ codes "degraded") ↔ (HasOne true cs × HasOne false cs))
unfolding aggregate_status
aggregate_status_iff cs =
    let none_iff = unhealthy_count-none 0 cs in
    let all_iff = unhealthy_count-all 0 cs in
    elim (Bool-cases (unhealthy_count 0 cs == 0)) [
      | inl z ↦
          let zero_count = (==_iff (unhealthy_count 0 cs) 0).0 z in
          rw (z, aggregate_status)
            (
              (λ _. none_iff.0 zero_count, λ _. refl),
              (
                λ h. absurd cc,
                λ (ne, h). absurd (ne (length-zero cs (omega (arith, all_iff.1 h, zero_count)))),
              ),
              (λ h. absurd cc, λ (h, _). absurd (HasOne-AllHave true cs h (none_iff.0 zero_count))),
            )
      | inr z ↦ elim (Bool-cases (unhealthy_count 0 cs == length cs)) [
        | inl w ↦
            let full = (==_iff (unhealthy_count 0 cs) (length cs)).0 w in
            rw (z, w, aggregate_status)
              (
                (λ h. absurd cc, λ h. absurd (ground (arith, none_iff.1 h, z))),
                (
                  λ _. (λ e. ground (arith, z, full, ap length e), all_iff.0 (omega (arith, full))),
                  λ _. refl,
                ),
                (
                  λ h. absurd cc,
                  λ (_, h). absurd (HasOne-AllHave false cs h (all_iff.0 (omega (arith, full)))),
                ),
              )
        | inr w ↦
            rw (z, w, aggregate_status)
              (
                (λ h. absurd cc, λ h. absurd (ground (arith, none_iff.1 h, z))),
                (λ h. absurd cc, λ (_, h). absurd (ground (arith, all_iff.1 h, w))),
                (
                  λ _. (
                    not_all true cs (λ h. ground (arith, none_iff.1 h, z)),
                    not_all false cs (λ h. ground (arith, all_iff.1 h, w)),
                  ),
                  λ _. refl,
                ),
              )
      ]
    ]
