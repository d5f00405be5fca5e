-- ===== src/Tests/Serving.antt =====
-- A request of the API that is answered, one whose handler panics, and the property of the
-- middleware at the first.
use edifact_parser.Base.{ℕ, ◌+◌, none, some, [], ◌∷◌, Bytes, codes, ◌≡◌, refl}
use edifact_parser.Router.Middleware.{
  set_header, write_header, returned, panicked, text_value, Request, Served, panic_recovered,
  request_completed, latency_recorded, counter_incremented, captured, header_correlation_id, serve,
}
use edifact_parser.Router.Served.{quiet}

abbrev request : Request
request = record {
  method = codes "GET";
  path = codes "/files";
  header = λ _. [];
  context_id = none;
}

abbrev next_id : ℕ → Bytes × ℕ
next_id n = (codes "id", n + 1)

abbrev not_found : Request → ℕ → Served × ℕ
not_found r n = (record { calls = write_header 404 ∷ []; ending = returned }, n + 2)

abbrev panics : Request → ℕ → Served × ℕ
panics r n = (record { calls = []; ending = panicked (text_value (codes "nil map")) }, n)

not_found_served : serve next_id (quiet not_found) request (0, []) ≡ (
  record {
    calls = set_header header_correlation_id (codes "id") ∷ write_header 404 ∷ [];
    ending = returned;
  },
  (
    3,
    counter_incremented (codes "GET /files") (codes "error")
        ∷ latency_recorded (codes "GET /files")
        ∷ request_completed (some (codes "id")) (codes "GET") (codes "/files") 404
        ∷ [],
  ),
)
unfolding serve captured
not_found_served = refl

panic_served : (serve next_id (quiet panics) request (0, [])).1 ≡ (
  1,
  panic_recovered (some (codes "id")) (codes "panic: nil map") (codes "/files") (codes "GET") ∷ [],
)
unfolding serve captured
panic_served = refl
