-- ===== src/Runtime/Cleanup.antt =====
-- The order in which `cleanup` shuts the resources down.
use edifact_parser.Base.{
  ℕ, zero, suc, ◌≤◌, ◌<◌, Bool, true, false, Option, some, List, [], ◌∷◌, ◌++◌, map, Bytes, length,
  take, get_elem?, ◌≡◌, refl, ap, sym, ◌∙◌, arith, append_assoc, append-nil, inl, inr,
}
use edifact_parser.Domain.{ok}
use edifact_parser.Ingestion.Yields.{ok-injective}
use edifact_parser.Repos.Rows.{take_all}
use edifact_parser.Runtime.{
  Resource, meter_provider, database, kafka_writer, tracer, http_server, Dependencies, Environment,
  initialize_dependencies, cleanup, cleanup_loop,
}
use edifact_parser.Runtime.Built.{
  Override, option_of, own, complete, db_given, kafka_given, initialize_dependencies-Built,
}

-- A list from its end to its start.
abbrev pub backwards : List Resource → List Resource
backwards [] = []
backwards (r ∷ rs) = backwards rs ++ r ∷ []

backwards-append : (rs : List Resource) (r : Resource) → backwards (rs ++ r ∷ []) ≡ r ∷ backwards rs
backwards-append [] r = refl
backwards-append (x ∷ rs) r = ap (λ l. l ++ x ∷ []) (backwards-append rs r)

place :
    (n : ℕ) (rs : List Resource)
    → n < length rs
    → (r : Resource) × (get_elem? rs n ≡ some r) × (take (suc n) rs ≡ take n rs ++ r ∷ [])
place n [] h = absurd (omega (arith, h))
place zero (r ∷ rs) h = (r, refl, refl)
place (suc n) (x ∷ rs) h =
    let (r, at, more) = place n rs (omega (arith, h)) in (r, at, ap (λ l. x ∷ l) more)

module _ {S : Type 0} (close : Resource → S → Option Bytes × S) where
  cleanup_loop-backwards :
      (n : ℕ) (rs closed : List Resource) (s : S)
      → n ≤ length rs
      → (cleanup_loop close n rs (closed, s)).0 ≡ closed ++ backwards (take n rs)
  unfolding cleanup_loop
  cleanup_loop-backwards zero rs closed s h = sym (append-nil closed)
  cleanup_loop-backwards (suc n) rs closed s h =
      let (r, at, more) = place n rs (omega (arith, h)) in
      rw (at, more, backwards-append (take n rs) r, cleanup_loop)
        (cleanup_loop-backwards n rs (closed ++ r ∷ []) (close r s).1 (omega (arith, h))
          ∙ append_assoc closed (r ∷ []) (backwards (take n rs)))

  cleanup-backwards : (d : Dependencies) (s : S) → (cleanup close d s).0 ≡ backwards d.cleanup_funcs
  unfolding cleanup
  cleanup-backwards d s =
      cleanup_loop-backwards (length d.cleanup_funcs) d.cleanup_funcs [] s (omega arith)
      ∙ ap backwards (take_all (length d.cleanup_funcs) d.cleanup_funcs (omega arith))

  complete-backwards :
      (b c : Bool)
      → backwards (complete b c).cleanup_funcs
        ≡ http_server ∷ tracer ∷ (own c kafka_writer ++ (own b database ++ meter_provider ∷ []))
  complete-backwards false false = refl
  complete-backwards false true = refl
  complete-backwards true false = refl
  complete-backwards true true = refl

  -- Once the dependencies are built, whatever was injected, shutting down closes the HTTP server
  -- first, then the tracer, the Kafka writer, the database and the meter provider, each once, also
  -- when closing one of them fails; a Kafka writer or a database that was injected is not closed.
  pub cleanup-order :
      (env : Environment) (os : List Override) (d : Dependencies) (s : S)
      → initialize_dependencies env (map option_of os) ≡ ok d
      → (cleanup close d s).0
        ≡ http_server
          ∷ tracer
          ∷ (own (kafka_given false os) kafka_writer
              ++ (own (db_given false os) database ++ meter_provider ∷ []))
  cleanup-order env os d s e = elim (initialize_dependencies-Built env os) [
    | inr (x, _, f) ↦ cc (e, f)
    | inl (_, f) ↦
        let same : d ≡ complete (db_given false os) (kafka_given false os) =
          ok-injective (sym e ∙ f) in
        cleanup-backwards d s
        ∙ ap (λ x. backwards x.cleanup_funcs) same
        ∙ complete-backwards (db_given false os) (kafka_given false os)
  ]
