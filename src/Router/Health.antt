-- ===== src/Router/Health.antt =====
-- adapters/inbound/http/router.go: the three health answers.
use edifact_parser.Base.{ℕ, Option, none, some, Bytes, length, ◌==◌, bytes_eq, if◌then◌else◌}
use edifact_parser.Usecases.Health.{
  HealthCheck, HealthResponse, healthy, degraded, unhealthy, fetch_health, fetch_liveness,
  fetch_readiness,
}

-- `public.HealthStatus`
pub data HealthStatus : Type 0 where
  status_healthy status_degraded status_unhealthy : HealthStatus

-- `public.HealthChecksPostgres` and `public.HealthChecksKafka`.
pub data CheckStatus : Type 0 where
  check_ok check_error : CheckStatus

-- `public.Health`
pub record Health : Type 0 where
  pub status : HealthStatus
  pub postgres : Option CheckStatus
  pub kafka : Option CheckStatus

pub data GetHealthResponse : Type 0 where
  health200 health503 : Health → GetHealthResponse

-- `GetLivenessResponseObject` and `GetReadinessResponseObject`.
pub data ProbeResponse : Type 0 where
  probe200 probe503 : ProbeResponse

unfoldable pub map_health_status : Bytes → HealthStatus
map_health_status status =
    if bytes_eq status healthy
    then status_healthy
    else if bytes_eq status degraded
    then status_degraded
    else status_unhealthy

-- A check without a status is left out.
unfoldable pub check_of : HealthCheck → Option CheckStatus
check_of check =
    if length check.status == 0
    then none
    else some (if bytes_eq check.status healthy then check_ok else check_error)

unfoldable pub to_health_response : HealthResponse → Health
unfolding map_health_status check_of
to_health_response health = record {
  status = map_health_status health.status;
  postgres = check_of health.database;
  kafka = check_of health.kafka;
}

-- `GetHealth`; the query never fails.
unfoldable pub get_health : ℕ → Option Bytes → Option Bytes → GetHealthResponse
unfolding to_health_response fetch_health
get_health now database_ping kafka_ping =
    let result = fetch_health now database_ping kafka_ping in
    if bytes_eq result.status unhealthy
    then health503 (to_health_response result)
    else health200 (to_health_response result)

abbrev pub probe : HealthResponse → ProbeResponse
probe result = if bytes_eq result.status unhealthy then probe503 else probe200

unfoldable pub get_liveness : ℕ → ProbeResponse
unfolding fetch_liveness
get_liveness now = probe (fetch_liveness now)

unfoldable pub get_readiness : ℕ → Option Bytes → Option Bytes → ProbeResponse
unfolding fetch_readiness
get_readiness now database_ping kafka_ping = probe (fetch_readiness now database_ping kafka_ping)
