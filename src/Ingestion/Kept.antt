-- ===== src/Ingestion/Kept.antt =====
-- The interchange that `persistAndPublish` stores, once its transaction is over.
use edifact_parser.Base.{◌≡◌, ap, sym, ◌∙◌, inl, inr, eq_of-some, Bytes}
use edifact_parser.Parser.State.{ParseResult}
use edifact_parser.Domain.{ok}
use edifact_parser.Domain.Interchange.{Interchange}
use edifact_parser.Ingestion.Ports
use edifact_parser.Ingestion.Yields.{Result-cases}
use edifact_parser.Ingestion.Persist.{Lasts}
use edifact_parser.Ingestion.Chain.{IsOf, persist-Yields}
use edifact_parser.Ingestion.Service.{replied, stop, stop_duplicate, persist, persist_and_publish}

pub replied-injective : {a b : Ports.IngestResult} → replied a ≡ replied b → a ≡ b
replied-injective h = eq_of-some (ap (λ x. x.result) h)

module _ {S : Type 0} (ports : Ports.Ports S) (parser_version : Bytes)
    (K : Interchange → S → Type 0) (lasts : (i : Interchange) → Lasts ports parser_version (K i))
    (made : (i : Interchange) (s : S) (u : Unit)
      → (ports.create_interchange i s).0 ≡ ok u
      → K i (ports.create_interchange i s).1) where
  pub persist_and_publish-IsOf :
      (raw hash : Bytes) (parsed : ParseResult) (s : S) (r : Ports.IngestResult)
      → (persist_and_publish ports parser_version raw hash parsed s).0 ≡ replied r
      → IsOf ports parser_version K lasts made parsed raw hash r
          (persist_and_publish ports parser_version raw hash parsed s).1
  unfolding persist_and_publish
  persist_and_publish-IsOf raw hash parsed s r e = elim (Result-cases (ports.begin s).0) [
    | inr (x, o) ↦ cc (rw (o, persist_and_publish) at e)
    | inl (u, o) ↦
        elim (Result-cases (persist ports parser_version raw hash parsed (ports.begin s).1).0) [
          | inr (stop x, q) ↦ cc (rw (o, q, persist_and_publish) at e)
          | inr (stop_duplicate x, q) ↦ cc (rw (o, q, persist_and_publish) at e)
          | inl (a, q) ↦
              let (report, (i, id, made_of, parties, kept)) =
                persist-Yields ports parser_version K lasts made raw hash parsed (ports.begin s).1 a
                  q in
              let result : a ≡ r = replied-injective (rw (o, q, persist_and_publish) at e) in
              (
                i,
                ap (λ x. x.interchange_id) (sym result) ∙ id,
                made_of,
                parties,
                rw (o, persist_and_publish)
                    ((lasts i).rollback
                      (persist ports parser_version raw hash parsed (ports.begin s).1).1 kept),
              )
        ]
  ]
