-- ===== src/Router/Middleware.antt =====
-- adapters/inbound/http/middleware: what stands around the handlers of the routes, and the two chains
-- in which NewRouter and initMiddlewares of adapters/inbound/http/router.go put it.
use edifact_parser.Base.{
  ℕ, Option, some, List, [], ◌∷◌, Bytes, codes, ◌++◌, if◌then◌else◌, bytes_eq, leb,
}
use edifact_parser.Parser.State.{is_empty}

-- A call of the http.ResponseWriter. What it returns is not looked at.
pub data Call : Type 0 where
  set_header : Bytes → Bytes → Call
  write_header : ℕ → Call
  write : Bytes → Call

-- The value of a panic: a string, an error by its text, or another value as %v prints it.
pub data Recovered : Type 0 where
  text_value error_value other_value : Bytes → Recovered

-- How a handler ends; aborted is the panic with http.ErrAbortHandler.
pub data Ending : Type 0 where
  returned aborted : Ending
  panicked : Recovered → Ending

pub record Request : Type 0 where
  pub method : Bytes
  pub path : Bytes
  -- Header.Get, which is empty for a header that is not there.
  pub header : Bytes → Bytes
  -- The correlation id in the context.
  pub context_id : Option Bytes

-- The calls of the writer in their order, and the ending.
pub record Served : Type 0 where
  pub calls : List Call
  pub ending : Ending

-- What the logger and the metrics are told, a log entry with the correlation id of its context.
-- Durations and stacks are left out.
pub data Note : Type 0 where
  panic_recovered : Option Bytes → Bytes → Bytes → Bytes → Note
  request_completed : Option Bytes → Bytes → Bytes → ℕ → Note
  latency_recorded : Bytes → Note
  counter_incremented : Bytes → Bytes → Note

-- A handler acts on its own state T; the notes are kept behind it, the latest first.
abbrev pub HttpHandler : Type 0 → Type 0
HttpHandler T = Request → T × List Note → Served × (T × List Note)

-- The status of a statusWriter behind such calls: WriteHeader keeps the code, Write does not.
unfoldable pub captured : ℕ → List Call → ℕ
captured n [] = n
captured n (set_header k v ∷ cs) = captured n cs
captured n (write_header c ∷ cs) = captured c cs
captured n (write b ∷ cs) = captured n cs

abbrev pub header_correlation_id : Bytes
header_correlation_id = codes "X-Correlation-ID"

abbrev pub status_internal_server_error : ℕ
status_internal_server_error = 500

abbrev pub err_msg : Recovered → Bytes
err_msg (text_value b) = b
err_msg (error_value b) = b
err_msg (other_value b) = b

-- What PanicRecovery writes.
abbrev pub internal_error : Request → List Call
internal_error r =
    set_header (codes "Content-Type") (codes "application/json")
    ∷ ((if bytes_eq (r.header (codes "Connection")) (codes "Upgrade")
          then []
          else write_header status_internal_server_error ∷ [])
        ++ (write (codes "{\"code\":\"INTERNAL_ERROR\",\"message\":\"internal server error\"}")
            ∷ []))

abbrev pub operation_of : Request → Bytes
operation_of r = r.method ++ codes " " ++ r.path

abbrev pub status_text : ℕ → Bytes
status_text status = if leb 400 status then codes "error" else codes "success"

module _ {T : Type 0} where
  -- The id that the request brings, or a new one.
  abbrev pub chosen : (T → Bytes × T) → Request → T → Bytes × T
  chosen new_uuid r t =
      if is_empty (r.header header_correlation_id)
      then new_uuid t
      else (r.header header_correlation_id, t)

  unfoldable pub correlation_id : (T → Bytes × T) → HttpHandler T → HttpHandler T
  correlation_id new_uuid next r (t, notes) =
      let (cid, u) = chosen new_uuid r t in
      let (s, v) = next (record r { context_id = some cid }) (u, notes) in
      (record s { calls = set_header header_correlation_id cid ∷ s.calls }, v)

  -- The deferred function: it panics again when the handler aborted.
  abbrev pub recover_from : Ending → Request → Served → T × List Note → Served × (T × List Note)
  recover_from returned r s v = (s, v)
  recover_from aborted r s v = (s, v)
  recover_from (panicked p) r s (t, notes) = (
    record { calls = s.calls ++ internal_error r; ending = returned },
    (t, panic_recovered r.context_id (codes "panic: " ++ err_msg p) r.path r.method ∷ notes),
  )

  unfoldable pub panic_recovery : HttpHandler T → HttpHandler T
  panic_recovery next r s = let (served, v) = next r s in recover_from served.ending r served v

  -- Behind next.ServeHTTP, which a panic does not come back from.
  abbrev pub log_completed : Ending → Request → ℕ → T × List Note → T × List Note
  log_completed returned r status (t, notes) =
      (t, request_completed r.context_id r.method r.path status ∷ notes)
  log_completed aborted r status v = v
  log_completed (panicked p) r status v = v

  abbrev pub metered : Ending → Request → ℕ → T × List Note → T × List Note
  metered returned r status (t, notes) = (
    t,
    counter_incremented (operation_of r) (status_text status)
        ∷ latency_recorded (operation_of r)
        ∷ notes,
  )
  metered aborted r status v = v
  metered (panicked p) r status v = v

  unfoldable pub request_logging : HttpHandler T → HttpHandler T
  request_logging next r s =
      let (served, v) = next r s in
      (served, log_completed served.ending r (captured 200 served.calls) v)

  unfoldable pub metrics_middleware : HttpHandler T → HttpHandler T
  metrics_middleware next r s =
      let (served, v) = next r s in (served, metered served.ending r (captured 200 served.calls) v)

  unfoldable pub tracing : HttpHandler T → HttpHandler T
  tracing next r s = next r s

  -- The chain of a route: the generated server applies the list from its first element on.
  unfoldable pub init_middlewares : HttpHandler T → HttpHandler T
  unfolding tracing request_logging metrics_middleware
  init_middlewares next = metrics_middleware (request_logging (tracing next))

  -- A request of a route of the API, behind the chain of the router.
  unfoldable pub serve : (T → Bytes × T) → HttpHandler T → HttpHandler T
  unfolding correlation_id panic_recovery init_middlewares
  serve new_uuid next = correlation_id new_uuid (panic_recovery (init_middlewares next))
