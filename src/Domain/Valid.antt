-- ===== src/Domain/Valid.antt =====
-- What the constructors and the filters of the domain guarantee.
use edifact_parser.Base.{
  ℕ, ◌≤◌, true, false, none, some, [], ◌∷◌, Bytes, codes, length, ◌≡◌, ◌↔◌, refl, arith, bytes_eq,
  bytes_eq_iff, Bool-cases, inl, inr,
}
use edifact_parser.Parser.State.{ℤ, pos, negsuc}
use edifact_parser.Domain.{Uuid, Stamp, ok}
use edifact_parser.Domain.Interchange.{
  validate_content_hash, sha256_hex_len, all_hex, new_interchange, completed, Interchange,
}
use edifact_parser.Domain.Filters.{MessageFilter, validate, above_max, max_page_limit}
use edifact_parser.Domain.Entities.{below_one}
use edifact_parser.Domain.Event.{
  Payload, PayloadValue, set_key, get_key, new_domain_event, new_failed_event, new_ingested_event,
  new_version_created_event, int, DomainEvent, uuid_string, string,
}

pub record IsHexDigest (hash : Bytes) : Type 0 where
  pub digits : length hash ≡ sha256_hex_len
  pub hex : all_hex hash ≡ true

pub validate_content_hash_iff :
    (hash : Bytes) → (validate_content_hash hash ≡ none) ↔ IsHexDigest hash
unfolding validate_content_hash
validate_content_hash_iff hash = (
  λ h. record { digits = ground arith; hex = ground arith },
  λ h. ground (arith, h.digits, h.hex),
)

-- The filter that `Validate` leaves has a limit between 1 and 100.
pub record IsPage (before after : MessageFilter) : Type 0 where
  pub limit : ℕ
  pub limit_is : after.limit ≡ pos limit
  pub at_least : 1 ≤ limit
  pub at_most : limit ≤ max_page_limit
  pub kept : (n : ℕ) → before.limit ≡ pos n → 1 ≤ n → n ≤ max_page_limit → after ≡ before

below_one-small : (l : ℤ) → below_one l ≡ true → (n : ℕ) → l ≡ pos n → 1 ≤ n → ⊥
below_one-small l h n e low = ground (arith, rw e at h)

above_max-large : (l : ℤ) → above_max l ≡ true → (n : ℕ) → l ≡ pos n → n ≤ max_page_limit → ⊥
above_max-large l h n e high = ground (arith, rw e at h)

pub in_range :
    (l : ℤ)
    → below_one l ≡ false
    → above_max l ≡ false
    → (n : ℕ) × (l ≡ pos n) × (1 ≤ n) × (n ≤ max_page_limit)
in_range (pos n) b a = (n, refl, ground arith, ground arith)
in_range (negsuc n) b a = cc

-- `Validate` never fails; it leaves a limit between 1 and 100, and changes nothing of a filter whose
-- limit already is.
pub validate-IsPage : (f : MessageFilter) → ((validate f).0 ≡ none) × IsPage f (validate f).1
unfolding validate
validate-IsPage f = elim (Bool-cases (below_one f.limit)) [
  | inl b ↦
      let small = below_one-small f.limit b in
      rw b (
        refl,
        record {
          limit = 20;
          limit_is = refl;
          at_least = omega arith;
          at_most = omega arith;
          kept = λ n e h _. absurd (small n e h);
        },
      )
  | inr b ↦ elim (Bool-cases (above_max f.limit)) [
    | inl a ↦
        let large = above_max-large f.limit a in
        rw (b, a)
          (
            refl,
            record {
              limit = max_page_limit;
              limit_is = refl;
              at_least = omega arith;
              at_most = omega arith;
              kept = λ n e _ h. absurd (large n e h);
            },
          )
    | inr a ↦
        let (n, e, low, high) = in_range f.limit b a in
        rw (b, a)
          (
            refl,
            record {
              limit = n;
              limit_is = e;
              at_least = low;
              at_most = high;
              kept = λ _ _ _ _. refl;
            },
          )
  ]
]

get_key-set_key :
    (key key' : Bytes) (value : PayloadValue) (payload : Payload)
    → (bytes_eq key key' ≡ true → get_key key' (set_key key value payload) ≡ some value)
      × (bytes_eq key key' ≡ false
          → get_key key' (set_key key value payload) ≡ get_key key' payload)
unfolding get_key set_key
get_key-set_key key key' value [] = ground arith
get_key-set_key key key' value ((k, v) ∷ rest) = ground (
  arith,
  get_key-set_key key key' value rest,
  bytes_eq_iff k key,
  bytes_eq_iff key key',
  bytes_eq_iff k key',
)

-- What every event says of itself, whoever made it.
pub record IsStamped (stamp : Stamp) (id : Uuid) (event_type : Bytes) (e : DomainEvent)
    : Type 0 where
  pub interchange : e.interchange_id ≡ some id
  pub kind : e.event_type ≡ event_type
  pub event_id : get_key (codes "event_id") e.payload ≡ some (uuid_string e.id)
  pub event_kind : get_key (codes "event_type") e.payload ≡ some (string event_type)
  pub of_interchange : get_key (codes "interchange_id") e.payload ≡ some (uuid_string id)

pub new_failed_event-IsStamped :
    (stamp : Stamp) (id : Uuid) (message : Bytes)
    → (e : DomainEvent) × (new_failed_event stamp id message ≡ ok e)
      × IsStamped stamp id (codes "interchange.failed") e
      × (get_key (codes "error") e.payload ≡ some (string message))
unfolding new_failed_event new_domain_event set_key get_key bytes_eq
new_failed_event-IsStamped stamp id message = (
  _,
  refl,
  record {
    interchange = refl;
    kind = refl;
    event_id = refl;
    event_kind = refl;
    of_interchange = refl;
  },
  refl,
)

pub new_ingested_event-IsStamped :
    (stamp : Stamp) (id : Uuid) (n : ℤ) (sender receiver : Bytes)
    → (e : DomainEvent) × (new_ingested_event stamp id n sender receiver ≡ ok e)
      × IsStamped stamp id (codes "interchange.ingested") e
      × (get_key (codes "message_count") e.payload ≡ some (int n))
unfolding new_ingested_event new_domain_event set_key get_key bytes_eq
new_ingested_event-IsStamped stamp id n sender receiver = (
  _,
  refl,
  record {
    interchange = refl;
    kind = refl;
    event_id = refl;
    event_kind = refl;
    of_interchange = refl;
  },
  refl,
)

pub new_version_created_event-IsStamped :
    (stamp : Stamp) (id version : Uuid) (n : ℤ) (parser_version : Bytes)
    → (e : DomainEvent) × (new_version_created_event stamp id version n parser_version ≡ ok e)
      × IsStamped stamp id (codes "version.created") e
      × (get_key (codes "version_id") e.payload ≡ some (uuid_string version))
unfolding new_version_created_event new_domain_event set_key get_key bytes_eq
new_version_created_event-IsStamped stamp id version n parser_version = (
  _,
  refl,
  record {
    interchange = refl;
    kind = refl;
    event_id = refl;
    event_kind = refl;
    of_interchange = refl;
  },
  refl,
)

pub new_interchange-ok :
    (stamp : Stamp) (sender sq receiver rq : Bytes) (at : ℕ) (reference raw hash : Bytes)
    (i : Interchange)
    → new_interchange stamp sender sq receiver rq at reference raw hash ≡ ok i
    → (i.content_hash ≡ hash) × (i.status ≡ completed) × (i.raw_content ≡ raw)
unfolding new_interchange
new_interchange-ok stamp sender sq receiver rq at reference raw hash i e = ground arith

pub new_interchange-parties :
    (stamp : Stamp) (sender sq receiver rq : Bytes) (at : ℕ) (reference raw hash : Bytes)
    (i : Interchange)
    → new_interchange stamp sender sq receiver rq at reference raw hash ≡ ok i
    → (i.sender_id ≡ sender)
      × (i.receiver_id ≡ receiver)
      × (i.reference ≡ reference)
      × (i.prepared_at ≡ at)
unfolding new_interchange
new_interchange-parties stamp sender sq receiver rq at reference raw hash i e = ground arith
