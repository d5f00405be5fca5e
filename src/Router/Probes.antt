-- ===== src/Router/Probes.antt =====
-- What the three health answers say of the two pings.
use edifact_parser.Base.{ℕ, Option, none, some, Bytes, ◌≡◌, refl, bytes_eq}
use edifact_parser.Usecases.Health.{check_dependency, aggregate_status, unhealthy_count}
use edifact_parser.Router.Health.{
  status_healthy, status_degraded, status_unhealthy, CheckStatus, check_ok, check_error,
  GetHealthResponse, health200, health503, ProbeResponse, probe200, probe503, get_health,
  get_readiness, get_liveness,
}

abbrev pub check_reported : Option Bytes → CheckStatus
check_reported none = check_ok
check_reported (some e) = check_error

-- The answer by the pings that fail.
abbrev pub expected_health : Option Bytes → Option Bytes → GetHealthResponse
expected_health none none =
    health200 (record { status = status_healthy; postgres = some check_ok; kafka = some check_ok })
expected_health (some d) (some k) =
    health503
      (record { status = status_unhealthy; postgres = some check_error; kafka = some check_error })
expected_health d k = health200 (record {
  status = status_degraded;
  postgres = some (check_reported d);
  kafka = some (check_reported k);
})

abbrev pub expected_readiness : Option Bytes → Option Bytes → ProbeResponse
expected_readiness none none = probe200
expected_readiness _ _ = probe503

-- `GetHealth` answers 200 and healthy when both pings succeed, 200 and degraded when one of them
-- fails, and 503 and unhealthy when both do, and reports each dependency by its own ping;
-- `GetReadiness` answers 200 exactly when both succeed; `GetLiveness` always does.
pub get_health-pings :
    (now : ℕ) (d k : Option Bytes)
    → (get_health now d k ≡ expected_health d k)
      × (get_readiness now d k ≡ expected_readiness d k)
      × (get_liveness now ≡ probe200)
unfolding get_health get_readiness get_liveness bytes_eq aggregate_status unhealthy_count
    check_dependency
get_health-pings now none none = (refl, refl, refl)
get_health-pings now none (some k) = (refl, refl, refl)
get_health-pings now (some d) none = (refl, refl, refl)
get_health-pings now (some d) (some k) = (refl, refl, refl)
