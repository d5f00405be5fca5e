-- ===== src/Tests/Running.antt =====
-- The properties of the runtime at concrete inputs.
use edifact_parser.Base.{
  true, false, none, List, [], ◌∷◌, ◌++◌, map, ◌≡◌, refl, Option, Bytes, ℕ, zero, suc, codes, ◌↔◌,
}
use edifact_parser.Domain.{ok, Result}
use edifact_parser.Runtime.{
  Resource, meter_provider, database, kafka_writer, tracer, http_server, Environment,
  initialize_dependencies, apply_options, default_options, with_external_db, cleanup,
}
use edifact_parser.Runtime.Built.{
  Override, external_db, option_of, own, complete, Built, initialize_dependencies-Built,
}
use edifact_parser.Runtime.Cleanup.{cleanup-order}
use edifact_parser.Config.{Config, load}
use edifact_parser.Config.Accepted.{IsValid, load-ok_iff}
use edifact_parser.Decorators.{
  Outcome, returned, panicked, bare, ActionName, apply_command_decorators, apply_query_decorators,
}
use edifact_parser.Decorators.Trace.{command_told, query_told, apply_decorators-told}
use edifact_parser.Parser.State.{pos}

abbrev all_well : Environment
all_well = record {
  from_env = none;
  new_resource = none;
  new_meter_provider = none;
  new_metrics = none;
  new_postgres = none;
  new_tracer_provider = none;
}

abbrev test_overrides : List Override
test_overrides = external_db true ∷ []

initialize_dependencies-Built_example :
    Built all_well false true false
      (initialize_dependencies all_well (map option_of test_overrides))
initialize_dependencies-Built_example = initialize_dependencies-Built all_well test_overrides

all_built :
    initialize_dependencies all_well (map option_of test_overrides) ≡ ok (complete true false)
unfolding initialize_dependencies apply_options default_options with_external_db
all_built = refl

abbrev close_all : Resource → List Resource → Option Bytes × List Resource
close_all r log = (none, r ∷ log)

cleanup-order_example :
    (cleanup close_all (complete true false) []).0
    ≡ http_server ∷ tracer ∷ (own false kafka_writer ++ (own true database ++ meter_provider ∷ []))
cleanup-order_example =
    cleanup-order close_all all_well test_overrides (complete true false) [] all_built

abbrev small_config : Config
small_config = record {
  database = record {
    host = codes "db";
    port = pos 5432;
    user = codes "u";
    password = codes "p";
    name = codes "edifact";
    ssl_mode = codes "disable";
    pool_size = pos 20;
  };
  kafka = record {
    brokers = codes "kafka:9092" ∷ [];
    topic = codes "edifact.events";
    partition = pos 1;
  };
  server = record { port = pos 8080 };
  logging = record { level = codes "info"; format = codes "json" };
  otel = record {
    endpoint = codes "localhost:4317";
    service_name = codes "edifact-ingestion";
    enabled = true;
    metrics_enabled = true;
    logs_enabled = true;
  };
}

load-ok_iff_example : (load (ok small_config) ≡ ok small_config) ↔ (
    (◌≡◌ {A = Result {0, 0} Bytes Config} (ok small_config) (ok small_config))
    × IsValid small_config)
load-ok_iff_example = load-ok_iff (ok small_config) small_config

abbrev upload_action : ActionName
upload_action = record { name = codes "IngestFileCommand"; lower = codes "ingestfilecommand" }

-- A handler that counts its calls, and panics at the first.
abbrev fragile : ℕ → Outcome Bytes × ℕ
fragile zero = (panicked, 1)
fragile (suc n) = (returned (codes "ok") none, suc (suc n))

apply_decorators-told_example :
    (apply_command_decorators upload_action true (bare fragile) (0, [])
      ≡ (panicked, (1, command_told upload_action none ++ [])))
    × (apply_query_decorators upload_action true (bare fragile) (0, [])
        ≡ (panicked, (1, query_told upload_action none ++ [])))
apply_decorators-told_example = apply_decorators-told upload_action fragile 0 []
