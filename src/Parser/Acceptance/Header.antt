-- ===== src/Parser/Acceptance/Header.antt =====
-- The header of parser.go: what holds when UNB is read without an error.
use edifact_parser.Base.{
  ℕ, Option, none, some, List, [], ◌≡◌, ◌≢◌, inl, inr, arith, Bytes, length, if◌then◌else◌,
  Option-cases, if_ind, ltb, get_or, eq_of-some,
}
use edifact_parser.Parser.State.{
  Stdlib, Parser, Segment, ParseResult, ParseError, add_error, combined_error, empty_sender,
  empty_receiver, empty_reference, invalid_unb,
}
use edifact_parser.Parser.Segments.{read_segment}
use edifact_parser.Parser.Headers.{
  parse_unb, unb_elements, unb_required, unb_min_data_elements, unb_date, unb_parties,
}
use edifact_parser.Parser.Interchange.{empty_result}
use edifact_parser.Parser.Acceptance.{require-errors}
use mathlib.Core.Path.{subst}
use edifact_parser.Parser.Acceptance.Trailer.{errors_or_nil-none, add_error-combined}
use edifact_parser.Parser.Acceptance.Loop.{LoopInv}

-- A header that passed its checks, with nothing parsed behind it yet.
pub record IsHeader (hash : Bytes) (r : ParseResult) : Type 0 where
  pub sender : r.sender_id ≢ []
  pub receiver : r.receiver_id ≢ []
  pub reference : r.reference ≢ []
  pub hash_is : r.content_hash ≡ hash
  pub no_messages : r.messages ≡ []
  pub no_subscriptions : r.subscriptions ≡ []

pub IsHeader-LoopInv : (hash : Bytes) (r : ParseResult) → IsHeader hash r → LoopInv (r, [])
IsHeader-LoopInv hash r h = record {
  named = rw h.no_messages tt;
  distinct = rw h.no_subscriptions tt;
  same_set = λ b. rw h.no_subscriptions;
  complete = λ b. rw (h.no_subscriptions, h.no_messages);
}

unb_date-keeps :
    (std : Stdlib) (seg : Segment) (e : List Bytes) (r : ParseResult) (p : Parser)
    → ((unb_date std seg e r p).0.messages ≡ r.messages)
      × ((unb_date std seg e r p).0.subscriptions ≡ r.subscriptions)
      × ((unb_date std seg e r p).0.content_hash ≡ r.content_hash)
unfolding unb_date
unb_date-keeps std seg e r p = ground arith

unb_required-errors :
    (seg : Segment) (r : ParseResult) (p : Parser)
    → (unb_required seg r p).errors ≡ []
    → (r.sender_id ≢ []) × (r.receiver_id ≢ []) × (r.reference ≢ [])
unfolding unb_required
unb_required-errors seg r p h =
    let (h1, reference) = require-errors r.reference seg empty_reference _ h in
    let (h2, receiver) = require-errors r.receiver_id seg empty_receiver _ h1 in
    let (h3, sender) = require-errors r.sender_id seg empty_sender p h2 in
    (sender, receiver, reference)

module _ (std : Stdlib) (hash : Bytes) where
  unb_elements-IsHeader :
      (seg : Segment) (p : Parser)
      → (unb_elements std seg (empty_result hash) p).0.0 ≡ none
      → IsHeader hash (unb_elements std seg (empty_result hash) p).0.1
  unfolding unb_elements combined_error unb_parties
  unb_elements-IsHeader seg p h =
      let kept =
        unb_date-keeps std seg (get_or seg.data_elements 3 []) (unb_parties seg (empty_result hash))
          p in
      let (sender, receiver, reference) =
        unb_required-errors seg (unb_elements std seg (empty_result hash) p).0.1 _
          (errors_or_nil-none _ h) in
      record {
        sender = sender;
        receiver = receiver;
        reference = reference;
        hash_is = kept.2;
        no_messages = kept.0;
        no_subscriptions = kept.1;
      }

  abbrev IsHeader? : (Option (List ParseError) × ParseResult) × Parser → Type 0
  IsHeader? x = x.0.0 ≡ none → IsHeader hash x.0.1

  pub parse_unb-IsHeader :
      (n : ℕ) (p : Parser) (x : (Option (List ParseError) × ParseResult) × Parser)
      → parse_unb std n (empty_result hash) p ≡ some x
      → IsHeader? x
  unfolding parse_unb
  parse_unb-IsHeader n p x e = elim (Option-cases (read_segment n p)) [
    | inl o ↦ cc (rw (o, parse_unb) at e)
    | inr ((seg, q), o) ↦
        let branches : IsHeader? (
            if ltb (length seg.data_elements) unb_min_data_elements
            then (
              (
                combined_error
                    (add_error q seg.line seg.column (invalid_unb (length seg.data_elements))),
                empty_result hash,
              ),
              add_error q seg.line seg.column (invalid_unb (length seg.data_elements)),
            )
            else unb_elements std seg (empty_result hash) q) =
          if_ind IsHeader? (ltb (length seg.data_elements) unb_min_data_elements)
            (λ _ h.
              absurd (
                add_error-combined q seg.line seg.column (invalid_unb (length seg.data_elements))
                  h))
            (λ _. unb_elements-IsHeader seg q) in
        subst IsHeader? (eq_of-some (rw (o, parse_unb) at e)) branches
  ]
