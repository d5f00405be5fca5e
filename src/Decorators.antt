-- ===== src/Decorators.antt =====
-- pkg/decorator: what logging, metrics and tracing do around a handler.
pub mod Trace
use edifact_parser.Base.{
  Bool, true, false, Option, none, some, List, [], ◌∷◌, Bytes, codes, ◌++◌, if◌then◌else◌,
}

-- How a handler ends: with its result and its error, none for nil, or with a panic.
pub data Outcome (R : Type 0) : Type 0 where
  returned : R → Option Bytes → Outcome R
  panicked : Outcome R

-- The named result `err` that a deferred function sees: still nil when the handler panics.
abbrev pub error_of : {R : Type 0} → Outcome R → Option Bytes
error_of (returned r e) = e
error_of panicked = none

pub data Level : Type 0 where
  debug info error : Level

pub data SpanStatus : Type 0 where
  span_ok : SpanStatus
  span_error : Bytes → SpanStatus

-- What the logger, the recorder of metrics and the tracer are told. Durations are left out.
pub data Entry : Type 0 where
  logged : Level → Bytes → Bytes → Entry
  latency_recorded : Bytes → Entry
  counted : Bytes → Bytes → Entry
  span_started : Bytes → Entry
  error_recorded : Bytes → Entry
  status_set : SpanStatus → Entry
  event_added : Bytes → Entry
  span_ended : Bytes → Entry

-- A handler acts on its own state T, and what is told is kept behind it, the latest first.
abbrev pub Handler : Type 0 → Type 0 → Type 0
Handler T R = T × List Entry → Outcome R × (T × List Entry)

abbrev pub emit : {T : Type 0} → Entry → T × List Entry → T × List Entry
emit e (t, log) = (t, e ∷ log)

-- A handler without decorators says nothing.
abbrev pub bare : {T R : Type 0} → (T → Outcome R × T) → Handler T R
bare handle (t, log) = let (r, u) = handle t in (r, (u, log))

-- The type of a command or query by its name, and the name in small letters.
pub record ActionName : Type 0 where
  pub name : Bytes
  pub lower : Bytes

-- The deferred call of the logging decorators.
abbrev pub log_end :
    {T : Type 0} → Level → Bytes → Bytes → Bytes → Option Bytes → T × List Entry → T × List Entry
log_end level name failed completed (some e) s = emit (logged error name failed) s
log_end level name failed completed none s = emit (logged level name completed) s

abbrev pub status_of : Option Bytes → Bytes
status_of none = codes "success"
status_of (some e) = codes "error"

-- The deferred call of the tracing decorators.
abbrev pub span_end : {T : Type 0} → Bytes → Option Bytes → T × List Entry → T × List Entry
span_end span (some e) s =
    emit (event_added (span ++ codes ".failure"))
      (emit (status_set (span_error e)) (emit (error_recorded e) s))
span_end span none s = emit (event_added (span ++ codes ".success")) (emit (status_set span_ok) s)

-- The deferred call of the metrics decorators; the recorder may be nil.
abbrev pub recorded : {T : Type 0} → Bool → Bytes → Option Bytes → T × List Entry → T × List Entry
recorded false operation e s = s
recorded true operation e s =
    emit (counted operation (status_of e)) (emit (latency_recorded operation) s)

module _ {T R : Type 0} (action : ActionName) where
  unfoldable pub command_logging : Handler T R → Handler T R
  command_logging base s =
      let (r, t) = base (emit (logged info action.name (codes "executing command")) s) in
      (
        r,
        log_end info action.name (codes "command failed") (codes "command completed") (error_of r)
            t,
      )

  unfoldable pub query_logging : Handler T R → Handler T R
  query_logging base s =
      let (r, t) = base (emit (logged debug action.name (codes "executing query")) s) in
      (r, log_end debug action.name (codes "query failed") (codes "query completed") (error_of r) t)

  unfoldable pub command_metrics : Bool → Handler T R → Handler T R
  command_metrics present base s =
      let (r, t) = base s in
      (r, recorded present (codes "commands." ++ action.lower) (error_of r) t)

  unfoldable pub query_metrics : Bool → Handler T R → Handler T R
  query_metrics present base s =
      let (r, t) = base s in (r, recorded present (codes "queries." ++ action.lower) (error_of r) t)

  unfoldable pub command_tracing : Handler T R → Handler T R
  command_tracing base s =
      let span = codes "command." ++ action.lower in
      let (r, t) = base (emit (span_started span) s) in
      (r, emit (span_ended span) (span_end span (error_of r) t))

  unfoldable pub query_tracing : Handler T R → Handler T R
  query_tracing base s =
      let span = codes "query." ++ action.lower in
      let (r, t) = base (emit (span_started span) s) in
      (r, emit (span_ended span) (span_end span (error_of r) t))

  unfoldable pub apply_command_decorators : Bool → Handler T R → Handler T R
  unfolding command_logging command_metrics command_tracing
  apply_command_decorators metrics handler =
      command_logging (command_metrics metrics (command_tracing handler))

  unfoldable pub apply_query_decorators : Bool → Handler T R → Handler T R
  unfolding query_logging query_metrics query_tracing
  apply_query_decorators metrics handler =
      query_logging (query_metrics metrics (query_tracing handler))
