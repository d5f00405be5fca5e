-- ===== src/Decorators/Trace.antt =====
-- What the decorators leave of a handler, and what they tell.
use edifact_parser.Base.{true, Option, none, some, List, [], ◌∷◌, Bytes, codes, ◌++◌, ◌≡◌, refl}
use edifact_parser.Decorators.{
  Outcome, returned, panicked, error_of, Level, info, error, debug, span_ok, span_error, Entry,
  logged, latency_recorded, counted, span_started, error_recorded, status_set, event_added,
  span_ended, bare, ActionName, apply_command_decorators, apply_query_decorators,
}

-- What is told of a call that ends with such an error, the latest first.
abbrev pub told : Level → Bytes → Bytes → Bytes → ActionName → Option Bytes → List Entry
told level noun span operation action none =
    logged level action.name (noun ++ codes " completed")
    ∷ counted operation (codes "success")
    ∷ latency_recorded operation
    ∷ span_ended span
    ∷ event_added (span ++ codes ".success")
    ∷ status_set span_ok
    ∷ span_started span
    ∷ logged level action.name (codes "executing " ++ noun)
    ∷ []
told level noun span operation action (some e) =
    logged error action.name (noun ++ codes " failed")
    ∷ counted operation (codes "error")
    ∷ latency_recorded operation
    ∷ span_ended span
    ∷ event_added (span ++ codes ".failure")
    ∷ status_set (span_error e)
    ∷ error_recorded e
    ∷ span_started span
    ∷ logged level action.name (codes "executing " ++ noun)
    ∷ []

abbrev pub command_told : ActionName → Option Bytes → List Entry
command_told action =
    told info (codes "command") (codes "command." ++ action.lower)
      (codes "commands." ++ action.lower) action

abbrev pub query_told : ActionName → Option Bytes → List Entry
query_told action =
    told debug (codes "query") (codes "query." ++ action.lower) (codes "queries." ++ action.lower)
      action

module _ {T R : Type 0} (action : ActionName) where
  outcome_told :
      (r : Outcome R) (u : T) (log : List Entry)
      → (apply_command_decorators action true (bare (λ _. (r, u))) (u, log)
          ≡ (r, (u, command_told action (error_of r) ++ log)))
        × (apply_query_decorators action true (bare (λ _. (r, u))) (u, log)
            ≡ (r, (u, query_told action (error_of r) ++ log)))
  unfolding apply_command_decorators apply_query_decorators
  outcome_told (returned r none) u log = (refl, refl)
  outcome_told (returned r (some e)) u log = (refl, refl)
  outcome_told panicked u log = (refl, refl)

  -- A command or query handler behind its decorators ends as it ends without them and leaves the
  -- same state. What is told in between depends on its error only: that it starts, its span with the
  -- status, the latency and one count, and that it completed or failed. A handler that panics is
  -- told of like one that succeeds.
  pub apply_decorators-told :
      (handle : T → Outcome R × T) (t : T) (log : List Entry)
      → (apply_command_decorators action true (bare handle) (t, log)
          ≡ ((handle t).0, ((handle t).1, command_told action (error_of (handle t).0) ++ log)))
        × (apply_query_decorators action true (bare handle) (t, log)
            ≡ ((handle t).0, ((handle t).1, query_told action (error_of (handle t).0) ++ log)))
  unfolding apply_command_decorators apply_query_decorators
  apply_decorators-told handle t log = outcome_told (handle t).0 (handle t).1 log
