-- ===== src/Tests/Others.antt =====
-- The properties of the domain's filters and of the health handlers at concrete inputs.
use edifact_parser.Base.{none, some, List, [], ◌∷◌, codes, ◌≡◌, ◌≢◌, ◌↔◌, ◌⊎◌, true, false}
use edifact_parser.Parser.State.{pos}
use edifact_parser.Domain.Filters.{MessageFilter, validate}
use edifact_parser.Domain.Valid.{IsPage, validate-IsPage}
use edifact_parser.Usecases.Health.{
  HealthCheck, aggregate_status, healthy, unhealthy, degraded, fetch_health, fetch_readiness,
  fetch_health-status,
}
use edifact_parser.Usecases.Health.Aggregate.{AllHave, aggregate_status_iff, HasOne}

abbrev large_filter : MessageFilter
large_filter = record {
  subscription_id = none;
  message_type = some (codes "MSCONS");
  interchange_id = none;
  processing_version_id = none;
  limit = pos 250;
  cursor = none;
}

validate-IsPage_example :
    ((validate large_filter).0 ≡ none) × IsPage large_filter (validate large_filter).1
validate-IsPage_example = validate-IsPage large_filter

abbrev checks : List HealthCheck
checks =
    record { name = codes "database"; status = healthy; message = [] }
    ∷ record { name = codes "kafka"; status = unhealthy; message = codes "ping failed: timeout" }
    ∷ []

aggregate_status_iff_example :
    ((aggregate_status checks ≡ codes "healthy") ↔ AllHave false checks)
    × ((aggregate_status checks ≡ codes "unhealthy") ↔ ((checks ≢ []) × AllHave true checks))
    × ((aggregate_status checks ≡ codes "degraded") ↔ (HasOne true checks × HasOne false checks))
aggregate_status_iff_example = aggregate_status_iff checks

fetch_health-status_example :
    ((fetch_health 5 none (some (codes "timeout"))).status ≡ degraded)
    × (((fetch_readiness 5 none (some (codes "timeout"))).status ≡ healthy)
        ↔ ((fetch_health 5 none (some (codes "timeout"))).status ≡ healthy))
    × (((fetch_readiness 5 none (some (codes "timeout"))).status ≡ unhealthy)
        ⊎ ((fetch_readiness 5 none (some (codes "timeout"))).status ≡ healthy))
fetch_health-status_example = fetch_health-status 5 none (some (codes "timeout"))
