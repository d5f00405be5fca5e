-- ===== src/Usecases/Health.antt =====
-- usecases/queries/health.go.
pub mod Aggregate
use edifact_parser.Base.{
  ℕ, ◌+◌, ◌≤◌, Bool, true, false, ◌&&◌, Option, none, some, List, [], ◌∷◌, ◌++◌, Bytes, codes,
  length, bytes_eq, ◌==◌, if◌then◌else◌, ◌≡◌, ◌≢◌, ◌↔◌, ◌⊎◌, refl, arith, inl, inr, Bool-cases, ap,
  ==_iff, not,
}

abbrev pub healthy : Bytes
healthy = codes "healthy"

abbrev pub degraded : Bytes
degraded = codes "degraded"

abbrev pub unhealthy : Bytes
unhealthy = codes "unhealthy"

pub record HealthCheck : Type 0 where
  pub name : Bytes
  pub status : Bytes
  pub message : Bytes

pub record HealthResponse : Type 0 where
  pub status : Bytes
  pub timestamp : ℕ
  pub database : HealthCheck
  pub kafka : HealthCheck

-- `ping` is what `checker.Ping` answers: none, or its error's text.
unfoldable pub check_dependency : Bytes → Option Bytes → HealthCheck
check_dependency name (some e) = record {
  name = name;
  status = unhealthy;
  message = codes "ping failed: " ++ e;
}
check_dependency name none = record { name = name; status = healthy; message = [] }

-- The loop of `aggregateStatus` over its checks.
unfoldable pub unhealthy_count : ℕ → List HealthCheck → ℕ
unhealthy_count n [] = n
unhealthy_count n (c ∷ cs) = unhealthy_count (if bytes_eq c.status unhealthy then n + 1 else n) cs

unfoldable pub aggregate_status : List HealthCheck → Bytes
aggregate_status checks =
    let n = unhealthy_count 0 checks in
    if n == 0 then healthy else if n == length checks then unhealthy else degraded

-- `FetchHealthHandler.Handle`, from the time and the two answers.
unfoldable pub fetch_health : ℕ → Option Bytes → Option Bytes → HealthResponse
fetch_health now database_ping kafka_ping =
    let database = check_dependency (codes "database") database_ping in
    let kafka = check_dependency (codes "kafka") kafka_ping in
    record {
      status = aggregate_status (database ∷ kafka ∷ []);
      timestamp = now;
      database = database;
      kafka = kafka;
    }

unfoldable pub fetch_liveness : ℕ → HealthResponse
fetch_liveness now = record {
  status = healthy;
  timestamp = now;
  database = record { name = codes "database"; status = healthy; message = [] };
  kafka = record { name = codes "kafka"; status = healthy; message = [] };
}

unfoldable pub fetch_readiness : ℕ → Option Bytes → Option Bytes → HealthResponse
fetch_readiness now database_ping kafka_ping =
    let database = check_dependency (codes "database") database_ping in
    let kafka = check_dependency (codes "kafka") kafka_ping in
    record {
      status =
          if bytes_eq database.status healthy && bytes_eq kafka.status healthy
          then healthy
          else unhealthy;
      timestamp = now;
      database = database;
      kafka = kafka;
    }

-- The overall status, from the two answers: both pings answered, or both failed, or one.
abbrev pub health_report : Option Bytes → Option Bytes → Bytes
health_report none none = healthy
health_report (some _) (some _) = unhealthy
health_report _ _ = degraded

-- The health handler reports "healthy" when both pings answer, "unhealthy" when both fail and
-- "degraded" otherwise. The readiness handler reports "healthy" exactly when the health handler
-- does, and it reports "unhealthy" or "healthy" always.
pub fetch_health-status :
    (now : ℕ) (d k : Option Bytes)
    → ((fetch_health now d k).status ≡ health_report d k)
      × (((fetch_readiness now d k).status ≡ healthy) ↔ ((fetch_health now d k).status ≡ healthy))
      × (((fetch_readiness now d k).status ≡ unhealthy)
          ⊎ ((fetch_readiness now d k).status ≡ healthy))
unfolding fetch_health fetch_readiness check_dependency aggregate_status unhealthy_count bytes_eq
fetch_health-status now none none = (refl, (λ _. refl, λ _. refl), inr refl)
fetch_health-status now none (some y) = (refl, (λ h. cc, λ h. cc), inl refl)
fetch_health-status now (some x) none = (refl, (λ h. cc, λ h. cc), inl refl)
fetch_health-status now (some x) (some y) = (refl, (λ h. cc, λ h. cc), inl refl)
