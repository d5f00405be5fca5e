-- ===== src/Tests/Paged.antt =====
-- The properties of the pages, of the processing versions and of the health answers at concrete
-- inputs.
use edifact_parser.Base.{none, some, codes, bytes_eq, ◌≡◌, refl, ◌⊎◌}
use edifact_parser.Parser.State.{pos}
use edifact_parser.Domain.Filters.{MessageFilter}
use edifact_parser.Repos.Activation.{Activation, activate_version-Activation}
use edifact_parser.Repos.Versions.{activate_version}
use edifact_parser.Router.Reads.{ListMessagesParams}
use edifact_parser.Router.Probes.{expected_health, expected_readiness, get_health-pings}
use edifact_parser.Router.Health.{get_health, get_readiness, get_liveness, probe200}
use edifact_parser.Tests.Tables.{start, small_db, small_outside, versions, small_db-Identified}
use edifact_parser.Tests.Activating.{small_db-Updates}
use edifact_parser.Domain.Entities.{Subscription}
use edifact_parser.Repos.Upsert.{upsert_by_identifier-twice}
use edifact_parser.Repos.Subscriptions.{upsert_by_identifier}
use edifact_parser.Domain.{ok}

abbrev pairs : MessageFilter
pairs = record {
  subscription_id = none;
  message_type = some (codes "MSCONS");
  interchange_id = some 7;
  processing_version_id = none;
  limit = pos 2;
  cursor = none;
}

abbrev two_at_once : ListMessagesParams
two_at_once = record {
  subscription_id = none;
  message_type = none;
  interchange_id = some 7;
  processing_version_id = none;
  limit = some (pos 2);
  cursor = none;
}

activate_version-Activation_example :
    Activation small_db versions 2 start
      (versions (activate_version small_db 2 start).1)
      (activate_version small_db 2 start).0
activate_version-Activation_example = activate_version-Activation small_db small_db-Updates 2 start

get_health-pings_example :
    (get_health 5 none (some (codes "timeout")) ≡ expected_health none (some (codes "timeout")))
    × (get_readiness 5 none (some (codes "timeout"))
        ≡ expected_readiness none (some (codes "timeout")))
    × (get_liveness 5 ≡ probe200)
get_health-pings_example = get_health-pings 5 none (some (codes "timeout"))

no_subscriber :
    (small_db.insert_subscription
      (record { id = 1; identifier = codes "DE1"; created_at = 0 })
      (record start { stamps = 1 })).0
    ≡ ok tt
no_subscriber = refl

same_subscriber :
    (small_db.insert_subscription
      (record { id = 2; identifier = codes "DE1"; created_at = 0 })
      (record start {
        stamps = 2;
        subscriber = some (record { id = 1; identifier = codes "DE1"; created_at = 0 });
      })).0
    ≡ ok tt
unfolding bytes_eq
same_subscriber = refl

upsert_by_identifier-twice_example :
    (x : Subscription) × ((upsert_by_identifier small_db small_outside.new_stamp
        (codes "DE1")
        start).0
      ≡ ok x)
    × ((small_db-Identified.row_of (codes "DE1") start ≡ some x)
        ⊎ ((small_db-Identified.row_of (codes "DE1") start ≡ none) × (x.identifier ≡ codes "DE1")))
    × ((upsert_by_identifier small_db small_outside.new_stamp
          (codes "DE1")
          (upsert_by_identifier small_db small_outside.new_stamp (codes "DE1") start).1).0
        ≡ ok x)
upsert_by_identifier-twice_example =
    upsert_by_identifier-twice small_db small_outside.new_stamp small_db-Identified (codes "DE1")
      start refl no_subscriber same_subscriber
