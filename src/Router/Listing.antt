-- ===== src/Router/Listing.antt =====
-- A client of the list of messages that follows its cursors over HTTP, down to the table.
use edifact_parser.Base.{
  ℕ, zero, suc, Option, none, some, List, ◌++◌, Bytes, ◌≡◌, refl, Bool-cases, inl, inr,
}
use edifact_parser.Domain.Entities.{below_one}
use edifact_parser.Domain.Filters.{MessageFilter, validate, above_max}
use edifact_parser.Ingestion.Ports
use edifact_parser.Repos.Database.{Database, Codec}
use edifact_parser.Repos.Service.{Outside, repository_ports}
use edifact_parser.Router.Reads.{
  ListMessagesParams, ListMessagesResponse, messages200, messages500, MessageBody,
  list_messages_response,
}

-- `Validate` changes nothing of a filter that it has validated.
pub validate-validate : (f : MessageFilter) → validate (validate f).1 ≡ validate f
unfolding validate
validate-validate f = elim (Bool-cases (below_one f.limit)) [
  | inl b ↦ rw b refl
  | inr b ↦ elim (Bool-cases (above_max f.limit)) [
    | inl a ↦ rw (b, a) refl
    | inr a ↦ rw (b, a) (rw (b, a) refl)
  ]
]

-- The items that are got one page after the other; nothing when an answer is an error or the fuel
-- runs out.
module _ {S : Type 0} (db : Database S) (codec : Codec) (outside : Outside S)
    (message : Ports.ServiceError → Bytes) where
  abbrev follow_response :
      (ListMessagesParams → S → Option (List MessageBody))
      → ListMessagesParams
      → ListMessagesResponse
      → S
      → Option (List MessageBody)
  follow_response again p (messages500 e) s = none
  follow_response again p (messages200 body) s = elim body.next_cursor [
    | none ↦ some body.items
    | some text ↦ elim (again (record p { cursor = some text }) s) [
      | none ↦ none
      | some rest ↦ some (body.items ++ rest)
    ]
  ]

  unfoldable pub follow_messages : ℕ → ListMessagesParams → S → Option (List MessageBody)
  follow_messages zero p s = none
  follow_messages (suc k) p s =
      let (r, t) = list_messages_response (repository_ports db codec outside) codec message p s in
      follow_response (λ q u. follow_messages k q u) p r t
