-- ===== src/Usecases/Application.antt =====
-- usecases/application.go: the check of the dependencies.
use edifact_parser.Base.{Bool, not, Option, none, some, Bytes, codes, if◌then◌else◌}

-- Which of the fields of `Dependencies` are not nil; a logger is a struct.
pub record Given : Type 0 where
  pub ingest_file : Bool
  pub get_interchange : Bool
  pub get_raw_file : Bool
  pub fetch_health : Bool
  pub fetch_liveness : Bool
  pub fetch_readiness : Bool
  pub list_messages : Bool
  pub metrics : Bool
  pub tracer : Bool

-- The message of the panic, none without one.
unfoldable pub validate_dependencies : Given → Option Bytes
validate_dependencies deps =
    if not deps.ingest_file
    then some (codes "IngestFile handler must not be nil")
    else if not deps.get_interchange
    then some (codes "GetInterchange handler must not be nil")
    else if not deps.get_raw_file
    then some (codes "GetRawFile handler must not be nil")
    else if not deps.fetch_health
    then some (codes "FetchHealth handler must not be nil")
    else if not deps.fetch_liveness
    then some (codes "FetchLiveness handler must not be nil")
    else if not deps.fetch_readiness
    then some (codes "FetchReadiness handler must not be nil")
    else if not deps.list_messages
    then some (codes "ListMessages handler must not be nil")
    else if not deps.metrics
    then some (codes "Metrics must not be nil")
    else if not deps.tracer
    then some (codes "Tracer must not be nil")
    else none
