-- ===== src/Ingestion/Covered.antt =====
-- `persistAndPublish`: the ids that the messages of a parsed file get for their subscriptions.
use edifact_parser.Base.{
  ℕ, ◌+◌, true, none, some, List, [], ◌∷◌, Bytes, ◌≡◌, ◌≢◌, refl, ◌∙◌, arith, ◌⊎◌, inl, inr,
  bytes_eq, bytes_eq_refl, Bool-cases, All,
}
use edifact_parser.Parser.State.{Stdlib, ParseResult, ParsedMessage}
use edifact_parser.Parser.Interchange.{in_set, parse_file, parsed}
use edifact_parser.Parser.Acceptance.Loop.{mentioned}
use edifact_parser.Parser.Acceptance.Result.{parse_file-IsAccepted}
use edifact_parser.Domain.{Uuid, ok}
use edifact_parser.Ingestion.Action.{wrapped}
use edifact_parser.Ingestion.Ports
use edifact_parser.Ingestion.Accepted.{is_empty-false}
use edifact_parser.Ingestion.Yields.{Yields, Yields-bind, ok-injective}
use edifact_parser.Ingestion.Service.{stop, upsert_subscriptions, lookup_id, subscription_of}

-- The map has an id for this key.
abbrev pub Has : List (Bytes × Uuid) → Bytes → Type 0
Has ids b = (id : Uuid) × (lookup_id b ids ≡ some id)

-- A message without a subscription gets no id, and one with a subscription gets one.
pub record IsCovered (ids : List (Bytes × Uuid)) (m : ParsedMessage) : Type 0 where
  pub without : m.subscription_id ≡ [] → subscription_of ids m.subscription_id ≡ none
  pub with_id :
      m.subscription_id ≢ [] → (id : Uuid) × (subscription_of ids m.subscription_id ≡ some id)

Has-cons :
    (ids : List (Bytes × Uuid)) (c : Bytes) (id : Uuid) (subs : List Bytes) (b : Bytes)
    → (in_set b (c ∷ subs) ≡ true) ⊎ Has ids b
    → (in_set b subs ≡ true) ⊎ Has ((c, id) ∷ ids) b
Has-cons ids c id subs b h = elim (Bool-cases (bytes_eq c b)) [
  | inl e ↦ inr (id, rw e refl)
  | inr e ↦ elim h [ inl k ↦ inl (rw e at k) | inr (i, k) ↦ inr (i, rw e k) ]
]

module _ {S : Type 0} (ports : Ports.Ports S) (parser_version : Bytes) where
  upsert_subscriptions-Has :
      (subs : List Bytes) (ids : List (Bytes × Uuid)) (n : ℕ) (s : S)
      → Yields s
          (upsert_subscriptions ports parser_version subs ids n)
          (λ x _. (b : Bytes) → (in_set b subs ≡ true) ⊎ Has ids b → Has x.0 b)
  unfolding upsert_subscriptions
  upsert_subscriptions-Has [] ids n s =
      λ x e b h. elim h [ inl k ↦ cc | inr k ↦ rw (← ok-injective e) k ]
  upsert_subscriptions-Has (c ∷ subs) ids n s =
      Yields-bind _ (λ _ _. Unit)
        (λ x _. (b : Bytes) → (in_set b (c ∷ subs) ≡ true) ⊎ Has ids b → Has x.0 b) s
        (wrapped (λ e. stop (Ports.upserting_subscription c e)) (ports.upsert_by_identifier c))
        (λ _ _. tt)
        λ sub t _ x e b h.
          upsert_subscriptions-Has subs ((c, sub.id) ∷ ids) (n + 1) t x e b
            (Has-cons ids c sub.id subs b h)

messages-IsCovered :
    (ids : List (Bytes × Uuid)) (ms : List ParsedMessage)
    → ((b : Bytes) → mentioned b ms ≡ true → Has ids b)
    → All (IsCovered ids) ms
messages-IsCovered ids [] h = tt
messages-IsCovered ids (m ∷ ms) h = (
  record {
    without = λ e. ground (arith, e);
    with_id = λ ne.
        let named = is_empty-false m.subscription_id ne in
        let (id, found) =
          h m.subscription_id (ground (arith, named, bytes_eq_refl m.subscription_id)) in
        (id, rw named found);
  },
  messages-IsCovered ids ms (λ b k. h b (ground (arith, k))),
)

-- When the subscriptions of a parsed file have been upserted, the map of their ids gives an id to
-- each of its messages that names a subscription, and none to the others.
pub upsert_subscriptions-IsCovered :
    {S : Type 0} (ports : Ports.Ports S) (parser_version : Bytes) (std : Stdlib) (n : ℕ)
    (file : Bytes) (r : ParseResult) (s : S) (ids : List (Bytes × Uuid)) (k : ℕ)
    → parse_file std n file ≡ some (parsed r)
    → (upsert_subscriptions ports parser_version r.subscriptions [] 0 s).0 ≡ ok (ids, k)
    → All (IsCovered ids) r.messages
upsert_subscriptions-IsCovered ports parser_version std n file r s ids k h e =
    let accepted = parse_file-IsAccepted std n file r h in
    messages-IsCovered ids r.messages λ b m.
      upsert_subscriptions-Has ports parser_version r.subscriptions [] 0 s (ids, k) e b
        (inl (accepted.complete b ∙ m))
