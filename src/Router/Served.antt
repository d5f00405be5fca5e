-- ===== src/Router/Served.antt =====
-- What the middleware leaves of a handler's answer to a request of the API, and what it tells.
use edifact_parser.Base.{
  ℕ, ◌≤◌, ◌<◌, Bool, true, false, some, List, [], ◌∷◌, Bytes, codes, ◌++◌, ◌≡◌, ◌≢◌, ◌⊎◌, bytes_eq,
}
use edifact_parser.Router.Middleware.{
  Call, set_header, write_header, write, Recovered, text_value, error_value, other_value, Ending,
  returned, aborted, panicked, Request, Served, Note, panic_recovered, request_completed,
  latency_recorded, counter_incremented, HttpHandler,
}

-- A handler of a route, which tells nothing itself.
abbrev pub quiet : {T : Type 0} → (Request → T → Served × T) → HttpHandler T
quiet handle r (t, notes) = let (s, u) = handle r t in (s, (u, notes))

-- The answer to an error, to a request whose connection is upgraded or not.
abbrev pub error_calls : Bool → List Call
error_calls true =
    set_header (codes "Content-Type") (codes "application/json")
    ∷ write (codes "{\"code\":\"INTERNAL_ERROR\",\"message\":\"internal server error\"}")
    ∷ []
error_calls false =
    set_header (codes "Content-Type") (codes "application/json")
    ∷ write_header 500
    ∷ write (codes "{\"code\":\"INTERNAL_ERROR\",\"message\":\"internal server error\"}")
    ∷ []

-- The calls of the writer behind the first, and the ending.
abbrev pub answered : Ending → Request → List Call → List Call
answered returned r cs = cs
answered aborted r cs = cs
answered (panicked p) r cs =
    cs ++ error_calls (bytes_eq (r.header (codes "Connection")) (codes "Upgrade"))

abbrev pub final : Ending → Ending
final returned = returned
final aborted = aborted
final (panicked p) = returned

abbrev pub printed : Recovered → Bytes
printed (text_value b) = codes "panic: " ++ b
printed (error_value b) = codes "panic: " ++ b
printed (other_value b) = codes "panic: " ++ b

-- What is told of a request with such a status and such a result, the latest first.
abbrev pub told : Ending → Bytes → Request → ℕ → Bytes → List Note
told returned cid r status result =
    counter_incremented (r.method ++ codes " " ++ r.path) result
    ∷ latency_recorded (r.method ++ codes " " ++ r.path)
    ∷ request_completed (some cid) r.method r.path status
    ∷ []
told aborted cid r status result = []
told (panicked p) cid r status result = panic_recovered (some cid) (printed p) r.path r.method ∷ []

-- No call writes a status.
abbrev pub NoStatus : List Call → Type 0
NoStatus [] = Unit
NoStatus (set_header k v ∷ cs) = NoStatus cs
NoStatus (write_header code ∷ cs) = ⊥
NoStatus (write b ∷ cs) = NoStatus cs

-- The last status that the calls write, or else this one.
abbrev pub IsLastStatus : ℕ → List Call → ℕ → Type 0
IsLastStatus default cs status =
    (NoStatus cs × (status ≡ default))
    ⊎ ((a b : List Call) × (cs ≡ a ++ write_header status ∷ b) × NoStatus b)

abbrev pub IsResult : ℕ → Bytes → Type 0
IsResult status result =
    ((400 ≤ status) × (result ≡ codes "error")) ⊎ ((status < 400) × (result ≡ codes "success"))

-- The correlation id of a request, with the state behind it: the one that the request brings, or
-- else a new one.
abbrev pub IsCid : {T : Type 0} → (T → Bytes × T) → Request → T → Bytes → T → Type 0
IsCid new_uuid r t cid u =
    ((r.header (codes "X-Correlation-ID") ≡ []) × (new_uuid t ≡ (cid, u)))
    ⊎ ((r.header (codes "X-Correlation-ID") ≢ [])
        × (cid ≡ r.header (codes "X-Correlation-ID"))
        × (u ≡ t))

module _ {T : Type 0} (new_uuid : T → Bytes × T) where
  -- The answer of a handler that is called with the correlation id in its context, and what is told.
  abbrev pub IsServed :
      (Request → T → Served × T)
      → Request
      → List Note
      → Bytes
      → T
      → ℕ
      → Bytes
      → Served × (T × List Note)
      → Type 0
  IsServed handle r notes cid u status result x =
      let (s, v) = handle (record r { context_id = some cid }) u in
      IsLastStatus 200 s.calls status
      × IsResult status result
      × (x ≡ (
        record {
          calls = set_header (codes "X-Correlation-ID") cid ∷ answered s.ending r s.calls;
          ending = final s.ending;
        },
        (v, told s.ending cid r status result ++ notes),
      ))
