-- ===== src/Runtime/Built.antt =====
-- What `initializeDependencies` makes of the overrides and the defaults, and in which order the
-- resources are shut down.
use edifact_parser.Base.{
  Bool, true, false, Option, none, some, List, [], ◌∷◌, ◌++◌, map, Bytes, ◌≡◌, refl, sym, ◌⊎◌, inl,
  inr,
}
use mathlib.Core.Path.{subst}
use edifact_parser.Domain.{Result, ok, err}
use edifact_parser.Runtime.{
  Resource, meter_provider, database, kafka_writer, tracer, http_server, Dependencies, InitError,
  loading_config, creating_resource, initializing_meter_provider, creating_metrics,
  initializing_postgres, initializing_tracer, Environment, DependencyOption, default_options,
  nothing, with_external_config, with_external_db, with_external_kafka_writer, apply_options,
  initialize_dependencies,
}

-- The three overrides, each with whether what it injects is there.
pub data Override : Type 0 where
  external_config external_db external_kafka_writer : Bool → Override

abbrev pub option_of : Override → DependencyOption
option_of (external_config given) = with_external_config given
option_of (external_db given) = with_external_db given
option_of (external_kafka_writer given) = with_external_kafka_writer given

-- Nothing but what overrides can set.
abbrev pub overridden : Bool → Bool → Bool → Dependencies
overridden a b c = record nothing { config = a; db = b; kafka_writer_set = c }

-- All dependencies, with the cleanup of those that were not injected.
abbrev pub own : Bool → Resource → List Resource
own true r = []
own false r = r ∷ []

abbrev pub complete : Bool → Bool → Dependencies
complete db_given kafka_given = record {
  config = true;
  logger_set = true;
  resource = true;
  meter_prov = true;
  metrics = true;
  db = true;
  kafka_writer_set = true;
  tracer_prov = true;
  repos = true;
  ingestion = true;
  http_app = true;
  http_server_set = true;
  cleanup_funcs =
      meter_provider
      ∷ (own db_given database ++ (own kafka_given kafka_writer ++ tracer ∷ http_server ∷ []));
}

-- The first error among those of the constructors that run, in their order; each stands with
-- whether what it makes was injected, so that it does not run.
abbrev pub first_error : List (Bool × (Bytes → InitError) × Option Bytes) → Option InitError
first_error [] = none
first_error ((true, wrap, e) ∷ rest) = first_error rest
first_error ((false, wrap, none) ∷ rest) = first_error rest
first_error ((false, wrap, some e) ∷ rest) = some (wrap e)

abbrev pub constructors :
    Environment → Bool → Bool → List (Bool × (Bytes → InitError) × Option Bytes)
constructors env config_is db_is =
    (config_is, loading_config, env.from_env)
    ∷ (false, creating_resource, env.new_resource)
    ∷ (false, initializing_meter_provider, env.new_meter_provider)
    ∷ (false, creating_metrics, env.new_metrics)
    ∷ (db_is, initializing_postgres, env.new_postgres)
    ∷ (false, initializing_tracer, env.new_tracer_provider)
    ∷ []

-- The result, from the first error.
abbrev pub Built : Environment → Bool → Bool → Bool → Result InitError Dependencies → Type 0
Built env config_is db_is kafka_is r =
    ((first_error (constructors env config_is db_is) ≡ none) × (r ≡ ok (complete db_is kafka_is)))
    ⊎ ((e : InitError) × (first_error (constructors env config_is db_is) ≡ some e) × (r ≡ err e))

defaults-Built :
    (f r m n p t : Option Bytes) (b c : Bool)
    → let env : Environment = record {
      from_env = f;
      new_resource = r;
      new_meter_provider = m;
      new_metrics = n;
      new_postgres = p;
      new_tracer_provider = t;
    } in
      Built env true b c (apply_options (default_options env) (overridden true b c))
unfolding apply_options default_options
defaults-Built f (some e) m n p t b c = inr (creating_resource e, refl, refl)
defaults-Built f none (some e) n p t b c = inr (initializing_meter_provider e, refl, refl)
defaults-Built f none none (some e) p t b c = inr (creating_metrics e, refl, refl)
defaults-Built f none none none (some e) t false c = inr (initializing_postgres e, refl, refl)
defaults-Built f none none none none (some e) false false = inr (initializing_tracer e, refl, refl)
defaults-Built f none none none none (some e) false true = inr (initializing_tracer e, refl, refl)
defaults-Built f none none none p (some e) true false = inr (initializing_tracer e, refl, refl)
defaults-Built f none none none p (some e) true true = inr (initializing_tracer e, refl, refl)
defaults-Built f none none none none none false false = inl (refl, refl)
defaults-Built f none none none none none false true = inl (refl, refl)
defaults-Built f none none none p none true false = inl (refl, refl)
defaults-Built f none none none p none true true = inl (refl, refl)

env-Built :
    (env : Environment) (f : Option Bytes) (a b c : Bool)
    → Built
        (record env { from_env = f })
        a
        b
        c
        (apply_options (default_options (record env { from_env = f })) (overridden a b c))
unfolding apply_options default_options
env-Built env f true b c =
    defaults-Built f env.new_resource env.new_meter_provider env.new_metrics env.new_postgres
      env.new_tracer_provider b c
env-Built env none false b c =
    defaults-Built none env.new_resource env.new_meter_provider env.new_metrics env.new_postgres
      env.new_tracer_provider b c
env-Built env (some e) false b c = inr (loading_config e, refl, refl)

-- Whether the last override of a kind, if there is one, injects something.
abbrev pub config_given : Bool → List Override → Bool
config_given a [] = a
config_given a (external_config given ∷ os) = config_given given os
config_given a (external_db _ ∷ os) = config_given a os
config_given a (external_kafka_writer _ ∷ os) = config_given a os

abbrev pub db_given : Bool → List Override → Bool
db_given b [] = b
db_given b (external_config _ ∷ os) = db_given b os
db_given b (external_db given ∷ os) = db_given given os
db_given b (external_kafka_writer _ ∷ os) = db_given b os

abbrev pub kafka_given : Bool → List Override → Bool
kafka_given c [] = c
kafka_given c (external_config _ ∷ os) = kafka_given c os
kafka_given c (external_db _ ∷ os) = kafka_given c os
kafka_given c (external_kafka_writer given ∷ os) = kafka_given given os

-- The overrides run first, and only set what they inject.
overrides_first :
    (os : List Override) (rest : List DependencyOption) (a b c : Bool)
    → apply_options (map option_of os ++ rest) (overridden a b c)
      ≡ apply_options rest (overridden (config_given a os) (db_given b os) (kafka_given c os))
unfolding apply_options with_external_config with_external_db with_external_kafka_writer
overrides_first [] rest a b c = refl
overrides_first (external_config given ∷ os) rest a b c = overrides_first os rest given b c
overrides_first (external_db given ∷ os) rest a b c = overrides_first os rest a given c
overrides_first (external_kafka_writer given ∷ os) rest a b c = overrides_first os rest a b given

-- Of the constructors that run, those of the configuration, the resource, the meter provider, the
-- metrics, the database and the tracer provider, in this order and without those whose result is
-- injected, the first that fails gives the error that is returned, wrapped with its own text. When
-- none fails every dependency is set, with one cleanup entry for each resource that was not
-- injected. No option panics.
pub initialize_dependencies-Built :
    (env : Environment) (os : List Override)
    → Built env
        (config_given false os)
        (db_given false os)
        (kafka_given false os)
        (initialize_dependencies env (map option_of os))
unfolding initialize_dependencies
initialize_dependencies-Built env os =
    subst (Built env (config_given false os) (db_given false os) (kafka_given false os))
      (sym (overrides_first os (default_options env) false false false))
      (env-Built env env.from_env (config_given false os) (db_given false os)
        (kafka_given false os))
