-- ===== src/Runtime.antt =====
-- runtime/deps.go, the options of runtime/dependency_options.go, and the cleanup of
-- runtime/dispatcher.go.
pub mod Built
pub mod Cleanup
use edifact_parser.Base.{
  ℕ, zero, suc, Bool, true, false, Option, none, some, List, [], ◌∷◌, ◌++◌, length, get_elem?,
  Bytes, if◌then◌else◌,
}
use edifact_parser.Usecases.Application.{Given, validate_dependencies}
use edifact_parser.Domain.{Result, ok, err}

-- The resources that are shut down, by the names of their entries.
pub data Resource : Type 0 where
  meter_provider database kafka_writer tracer http_server : Resource

-- Which dependencies are there, and the cleanup functions in the order of their registration.
pub record Dependencies : Type 0 where
  pub config : Bool
  pub logger_set : Bool
  pub resource : Bool
  pub meter_prov : Bool
  pub metrics : Bool
  pub db : Bool
  pub kafka_writer_set : Bool
  pub tracer_prov : Bool
  pub repos : Bool
  pub ingestion : Bool
  pub http_app : Bool
  pub http_server_set : Bool
  pub cleanup_funcs : List Resource

pub data InitError : Type 0 where
  loading_config creating_resource initializing_meter_provider creating_metrics : Bytes → InitError
  initializing_postgres initializing_tracer : Bytes → InitError
  -- A nil pointer that is followed, and the panic of `NewApplication`: nothing is returned.
  nil_pointer : InitError
  application_panic : Bytes → InitError

-- What the constructors that can fail answer: none, or the text of their error.
pub record Environment : Type 0 where
  pub from_env : Option Bytes
  pub new_resource : Option Bytes
  pub new_meter_provider : Option Bytes
  pub new_metrics : Option Bytes
  pub new_postgres : Option Bytes
  pub new_tracer_provider : Option Bytes

abbrev pub DependencyOption : Type 0
DependencyOption = Dependencies → Result InitError Dependencies

-- `if d.x != nil { return nil }`
abbrev pub unless :
    Bool → Dependencies → Result InitError Dependencies → Result InitError Dependencies
unless present d rest = if present then ok d else rest

-- A dependency that is followed: a nil one is a panic.
abbrev pub needs : Bool → Result InitError Dependencies → Result InitError Dependencies
needs present rest = if present then rest else err nil_pointer

abbrev pub check :
    (Bytes → InitError)
    → Option Bytes
    → Result InitError Dependencies
    → Result InitError Dependencies
check wrap none rest = rest
check wrap (some e) rest = err (wrap e)

module _ (env : Environment) where
  unfoldable pub with_config : DependencyOption
  with_config d =
      unless d.config d (check loading_config env.from_env (ok (record d { config = true })))

  unfoldable pub with_logger : DependencyOption
  with_logger d = unless d.logger_set d (needs d.config (ok (record d { logger_set = true })))

  unfoldable pub with_resource : DependencyOption
  with_resource d = unless d.resource d (
      needs d.config (check creating_resource env.new_resource (ok (record d { resource = true }))))

  unfoldable pub with_metrics : DependencyOption
  with_metrics d = unless d.metrics d (
      needs d.config (
        check initializing_meter_provider env.new_meter_provider (
          check creating_metrics env.new_metrics (
            ok (record d {
              meter_prov = true;
              metrics = true;
              cleanup_funcs = d.cleanup_funcs ++ meter_provider ∷ [];
            })))))

  unfoldable pub with_database : DependencyOption
  with_database d = unless d.db d (
      needs d.config (
        check initializing_postgres env.new_postgres
          (ok (record d { db = true; cleanup_funcs = d.cleanup_funcs ++ database ∷ [] }))))

  unfoldable pub with_kafka_writer : DependencyOption
  with_kafka_writer d = unless d.kafka_writer_set d (
      needs d.config (
        ok (record d {
          kafka_writer_set = true;
          cleanup_funcs = d.cleanup_funcs ++ kafka_writer ∷ [];
        })))

  unfoldable pub with_tracing : DependencyOption
  with_tracing d = unless d.tracer_prov d (
      needs d.config (
        check initializing_tracer env.new_tracer_provider
          (ok (record d { tracer_prov = true; cleanup_funcs = d.cleanup_funcs ++ tracer ∷ [] }))))

  unfoldable pub with_repositories : DependencyOption
  with_repositories d = unless d.repos d (ok (record d { repos = true }))

  unfoldable pub with_services : DependencyOption
  with_services d = unless d.ingestion d (ok (record d { ingestion = true }))

  -- The handlers are made on the spot, and a tracer is what the provider gives; an interface that
  -- holds a nil `*metrics.Metrics` is not nil.
  abbrev pub given_of : Dependencies → Given
  given_of d = record {
    ingest_file = true;
    get_interchange = true;
    get_raw_file = true;
    fetch_health = true;
    fetch_liveness = true;
    fetch_readiness = true;
    list_messages = true;
    metrics = true;
    tracer = true;
  }

  unfoldable pub with_application : DependencyOption
  unfolding validate_dependencies
  with_application d = unless d.http_app d (
      needs d.tracer_prov (
        check application_panic (validate_dependencies (given_of d))
          (ok (record d { http_app = true }))))

  unfoldable pub with_http_server : DependencyOption
  with_http_server d = unless d.http_server_set d (
      needs d.config (
        ok (record d {
          http_server_set = true;
          cleanup_funcs = d.cleanup_funcs ++ http_server ∷ [];
        })))

  unfoldable pub default_options : List DependencyOption
  unfolding with_config with_logger with_resource with_metrics with_database with_kafka_writer
      with_tracing with_repositories with_services with_application with_http_server
  default_options =
      with_config ∷ with_logger ∷ with_resource ∷ with_metrics ∷ with_database ∷ with_kafka_writer
      ∷ with_tracing ∷ with_repositories ∷ with_services ∷ with_application ∷ with_http_server ∷ []

-- The overrides, each with whether what it injects is there.
unfoldable pub with_external_config : Bool → DependencyOption
with_external_config given d = ok (record d { config = given })

unfoldable pub with_external_db : Bool → DependencyOption
with_external_db given d = ok (record d { db = given })

unfoldable pub with_external_kafka_writer : Bool → DependencyOption
with_external_kafka_writer given d = ok (record d { kafka_writer_set = given })

abbrev pub nothing : Dependencies
nothing = record {
  config = false;
  logger_set = false;
  resource = false;
  meter_prov = false;
  metrics = false;
  db = false;
  kafka_writer_set = false;
  tracer_prov = false;
  repos = false;
  ingestion = false;
  http_app = false;
  http_server_set = false;
  cleanup_funcs = [];
}

abbrev pub then_apply :
    Result InitError Dependencies
    → (Dependencies → Result InitError Dependencies)
    → Result InitError Dependencies
then_apply (err e) rest = err e
then_apply (ok d) rest = rest d

-- The loop over the options.
unfoldable pub apply_options : List DependencyOption → DependencyOption
apply_options [] d = ok d
apply_options (opt ∷ opts) d = then_apply (opt d) (λ e. apply_options opts e)

unfoldable pub initialize_dependencies :
    Environment → List DependencyOption → Result InitError Dependencies
unfolding apply_options default_options
initialize_dependencies env opts = apply_options (opts ++ default_options env) nothing

-- `cleanup`: the entries from the last to the first, whatever each answers; `closed` collects them.
module _ {S : Type 0} (close : Resource → S → Option Bytes × S) where
  abbrev pub close_entry : Option Resource → List Resource × S → List Resource × S
  close_entry none x = x
  close_entry (some r) (closed, s) = (closed ++ r ∷ [], (close r s).1)

  -- The loop at `idx = n - 1`.
  unfoldable pub cleanup_loop : ℕ → List Resource → List Resource × S → List Resource × S
  cleanup_loop zero entries x = x
  cleanup_loop (suc idx) entries x =
      cleanup_loop idx entries (close_entry (get_elem? entries idx) x)

  unfoldable pub cleanup : Dependencies → S → List Resource × S
  unfolding cleanup_loop
  cleanup d s = cleanup_loop (length d.cleanup_funcs) d.cleanup_funcs ([], s)
