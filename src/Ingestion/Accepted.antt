-- ===== src/Ingestion/Accepted.antt =====
-- What the parser accepts, the domain accepts: the messages and the header of a parsed file.
use edifact_parser.Base.{
  ℕ, false, some, List, [], ◌∷◌, Bytes, length, ◌==◌, ◌≡◌, ◌≢◌, refl, arith, none, All, ◌+◌, ◌++◌,
  Option, ◌⊎◌, inl, inr, Bool-cases, bytes_eq, bytes_eq_iff, ap,
}
use edifact_parser.Parser.State.{ParseResult, ParsedMessage, is_empty, Stdlib}
use edifact_parser.Parser.Interchange.{parse_file, parse_new, new_parser, parsed}
use edifact_parser.Parser.Acceptance.Messages.{IsNamed}
use edifact_parser.Parser.Acceptance.Result.{parse_file-IsAccepted}
use edifact_parser.Domain.{Uuid, Stamp, ok}
use edifact_parser.Domain.Interchange.{Interchange, new_interchange, completed}
use edifact_parser.Domain.Entities.{Message, new_message}
use edifact_parser.Domain.Valid.{IsHexDigest, validate_content_hash_iff}
use edifact_parser.Ingestion.Ports
use edifact_parser.Ingestion.Service.{build_messages, subscription_of, numbered, lookup_id}

-- The segments with their places, from this one on.
abbrev pub AreNumbered : {A : Type 0} → ℕ → List A → List (ℕ × A) → Type 0
AreNumbered n [] [] = Unit
AreNumbered n (x ∷ xs) ((i, y) ∷ ys) = (i ≡ n) × (y ≡ x) × AreNumbered (n + 1) xs ys
AreNumbered n _ _ = ⊥

-- What the map of ids, the latest entry first, has for a key.
abbrev pub IsEntry : List (Bytes × Uuid) → Bytes → Option Uuid → Type 0
IsEntry ids key r =
    (All (λ p. p.0 ≢ key) ids × (r ≡ none))
    ⊎ ((a : List (Bytes × Uuid)) × (id : Uuid) × (b : List (Bytes × Uuid)) × (ids
          ≡ a ++ (key, id) ∷ b)
        × All (λ p. p.0 ≢ key) a
        × (r ≡ some id))

-- No subscription for an empty id, and else what the map has.
abbrev pub IsSubscription : List (Bytes × Uuid) → Bytes → Option Uuid → Type 0
IsSubscription ids key r = ((key ≡ []) × (r ≡ none)) ⊎ ((key ≢ []) × IsEntry ids key r)

-- The stored message of a parsed one.
pub record IsMessageOf (interchange version : Uuid) (ids : List (Bytes × Uuid)) (pm : ParsedMessage)
    (m : Message) : Type 0 where
  pub interchange_is : m.interchange_id ≡ interchange
  pub version_is : m.processing_version_id ≡ version
  pub subscription_is : IsSubscription ids pm.subscription_id m.subscription_id
  pub type_is : m.message_type ≡ pm.message_type
  pub reference_is : m.message_reference ≡ pm.message_reference
  pub segments_are : AreNumbered 0 pm.segments m.segments

abbrev pub AreMessagesOf :
    Uuid → Uuid → List (Bytes × Uuid) → List ParsedMessage → List Message → Type 0
AreMessagesOf i v ids [] [] = Unit
AreMessagesOf i v ids (pm ∷ pms) (m ∷ ms) = IsMessageOf i v ids pm m × AreMessagesOf i v ids pms ms
AreMessagesOf i v ids _ _ = ⊥

pub is_empty-false : (b : Bytes) → b ≢ [] → is_empty b ≡ false
is_empty-false [] h = absurd (h refl)
is_empty-false (x ∷ b) h = refl

numbered-AreNumbered : {A : Type 0} (n : ℕ) (xs : List A) → AreNumbered n xs (numbered n xs)
numbered-AreNumbered n [] = tt
numbered-AreNumbered n (x ∷ xs) = (refl, refl, numbered-AreNumbered (n + 1) xs)

lookup_id-IsEntry : (key : Bytes) (ids : List (Bytes × Uuid)) → IsEntry ids key (lookup_id key ids)
lookup_id-IsEntry key [] = inl (tt, refl)
lookup_id-IsEntry key ((k, id) ∷ rest) = elim (Bool-cases (bytes_eq k key)) [
  | inl b ↦ inr ([], id, rest, ap (λ x. (x, id) ∷ rest) ((bytes_eq_iff k key).0 b), tt, rw b refl)
  | inr b ↦
      let other : k ≢ key = λ e. cc ((bytes_eq_iff k key).1 e, b) in
      elim (lookup_id-IsEntry key rest) [
        | inl (all, e) ↦ inl ((other, all), rw b e)
        | inr (a, x, c, split, all, e) ↦
            inr ((k, id) ∷ a, x, c, ap (λ l. (k, id) ∷ l) split, (other, all), rw b e)
      ]
]

subscription_of-IsSubscription :
    (ids : List (Bytes × Uuid)) (key : Bytes) → IsSubscription ids key (subscription_of ids key)
subscription_of-IsSubscription ids [] = inl (refl, refl)
subscription_of-IsSubscription ids (x ∷ key) = inr (λ h. cc, lookup_id-IsEntry (x ∷ key) ids)

new_message-named :
    (stamp : Stamp) (i v : Uuid) (ids : List (Bytes × Uuid)) (pm : ParsedMessage)
    → IsNamed pm
    → (m : Message) × (new_message stamp i v
          (subscription_of ids pm.subscription_id)
          pm.message_type
          pm.message_reference
          (numbered 0 pm.segments)
        ≡ ok m)
      × IsMessageOf i v ids pm m
unfolding new_message
new_message-named stamp i v ids pm named =
    let typed = is_empty-false pm.message_type named.has_type in
    let referenced = is_empty-false pm.message_reference named.has_reference in
    (
      record {
        id = stamp.id;
        interchange_id = i;
        processing_version_id = v;
        subscription_id = subscription_of ids pm.subscription_id;
        message_type = pm.message_type;
        message_reference = pm.message_reference;
        segments = numbered 0 pm.segments;
        created_at = stamp.now;
      },
      rw (typed, referenced) refl,
      record {
        interchange_is = refl;
        version_is = refl;
        subscription_is = subscription_of-IsSubscription ids pm.subscription_id;
        type_is = refl;
        reference_is = refl;
        segments_are = numbered-AreNumbered 0 pm.segments;
      },
    )

module _ {S : Type 0} (ports : Ports.Ports S) (parser_version : Bytes) (i v : Uuid)
    (ids : List (Bytes × Uuid)) where
  -- Where every parsed message has a type and a reference, `buildMessages` succeeds, with one message
  -- for each in their order: with its type, its reference, its segments in order, and the id stored
  -- for its subscription.
  build_messages-AreMessagesOf :
      (pms : List ParsedMessage) (s : S)
      → All IsNamed pms
      → (ms : List Message) × ((build_messages ports parser_version i v pms ids s).0 ≡ ok ms)
        × AreMessagesOf i v ids pms ms
  unfolding build_messages
  build_messages-AreMessagesOf [] s named = ([], refl, tt)
  build_messages-AreMessagesOf (pm ∷ pms) s (here, rest) =
      let (stamp, t) = ports.new_stamp s in
      let (m, made, is) = new_message-named stamp i v ids pm here in
      let (ms, built, are) = build_messages-AreMessagesOf pms t rest in
      (m ∷ ms, rw (made, built, build_messages) refl, (is, are))

length-positive : (b : Bytes) → b ≢ [] → (length b == 0) ≡ false
length-positive [] h = absurd (h refl)
length-positive (x ∷ b) h = ground arith

new_interchange-named :
    (stamp : Stamp) (r : ParseResult) (raw hash : Bytes)
    → r.sender_id ≢ []
    → r.receiver_id ≢ []
    → r.reference ≢ []
    → raw ≢ []
    → IsHexDigest hash
    → (i : Interchange) × (new_interchange stamp r.sender_id r.sender_qualifier r.receiver_id
          r.receiver_qualifier r.prepared_at r.reference raw hash
        ≡ ok i)
unfolding new_interchange
new_interchange-named stamp r raw hash sender receiver reference content digest =
    let a = is_empty-false r.sender_id sender in
    let b = is_empty-false r.receiver_id receiver in
    let c = is_empty-false r.reference reference in
    let d = length-positive raw content in
    let e = (validate_content_hash_iff hash).1 digest in
    (
      record {
        id = stamp.id;
        sender_id = r.sender_id;
        sender_qualifier = r.sender_qualifier;
        receiver_id = r.receiver_id;
        receiver_qualifier = r.receiver_qualifier;
        prepared_at = r.prepared_at;
        reference = r.reference;
        raw_content = raw;
        content_hash = hash;
        status = completed;
        error_detail = none;
        created_at = stamp.now;
        updated_at = stamp.now;
      },
      rw (a, b, c, d, e) refl,
    )

parsed-ne-nil :
    (std : Stdlib) (n : ℕ) (bs : Bytes) (r : ParseResult)
    → parse_file std n bs ≡ some (parsed r)
    → bs ≢ []
unfolding parse_file parse_new new_parser
parsed-ne-nil std n [] r h e = cc
parsed-ne-nil std n (b ∷ bs) r h e = cc

-- Nothing that the parser accepts is refused by the domain: where SHA-256 prints 64 hex digits, the
-- header of a file that parses makes an interchange with the file's bytes and their digest, and its
-- messages are built, one for each, in their order and with their types, references and numbered
-- segments, whatever ids the subscriptions have.
pub parse_file-IsStorable :
    {S : Type 0} (ports : Ports.Ports S) (parser_version : Bytes) (std : Stdlib) (n : ℕ)
    (file : Bytes) (r : ParseResult) (stamp : Stamp) (i v : Uuid) (ids : List (Bytes × Uuid))
    (s : S)
    → parse_file std n file ≡ some (parsed r)
    → IsHexDigest (std.sha256_hex file)
    → ((interchange : Interchange) × (new_interchange stamp r.sender_id r.sender_qualifier
            r.receiver_id r.receiver_qualifier r.prepared_at r.reference file
            (std.sha256_hex file)
          ≡ ok interchange))
      × ((ms : List Message) × ((build_messages ports parser_version i v r.messages ids s).0
            ≡ ok ms)
          × AreMessagesOf i v ids r.messages ms)
parse_file-IsStorable ports parser_version std n file r stamp i v ids s h digest =
    let accepted = parse_file-IsAccepted std n file r h in
    (
      new_interchange-named stamp r file (std.sha256_hex file) accepted.has_sender
          accepted.has_receiver accepted.has_reference (parsed-ne-nil std n file r h) digest,
      build_messages-AreMessagesOf ports parser_version i v ids r.messages s accepted.named,
    )
