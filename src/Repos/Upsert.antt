-- ===== src/Repos/Upsert.antt =====
-- A subscription that is upserted twice.
use edifact_parser.Base.{
  false, Option, none, some, Bytes, ◌≡◌, refl, ap, ◌∙◌, Option-cases, inl, inr, ◌⊎◌,
}
use edifact_parser.Parser.State.{is_empty}
use edifact_parser.Domain.{Stamp, Result, ok, err}
use edifact_parser.Domain.Entities.{Subscription, new_subscription}
use edifact_parser.Repos.Database.{DbError, no_rows, Database}
use edifact_parser.Repos.Subscriptions.{upsert_by_identifier}

-- ON CONFLICT DO NOTHING: the row that is there stays.
abbrev pub kept : Option Subscription → Subscription → Subscription
kept (some y) x = y
kept none x = x

abbrev pub row_or_none : Option Subscription → Result DbError Subscription
row_or_none none = err no_rows
row_or_none (some x) = ok x

-- What the repository relies on of the table of subscriptions, seen as a map from identifiers: the
-- INSERT that succeeds adds a row unless there is one with its identifier, the SELECT answers the
-- row of an identifier and changes nothing, and no identity is drawn from the table.
pub record Identified {S : Type 0} (db : Database S) (new_stamp : S → Stamp × S) : Type 0 where
  pub row_of : Bytes → S → Option Subscription
  pub inserted :
      (x : Subscription) (s : S)
      → (db.insert_subscription x s).0 ≡ ok tt
      → row_of x.identifier (db.insert_subscription x s).1 ≡ some (kept (row_of x.identifier s) x)
  pub selected :
      (b : Bytes) (s : S) → db.select_subscription_by_identifier b s ≡ (row_or_none (row_of b s), s)
  pub stamped : (b : Bytes) (s : S) → row_of b (new_stamp s).1 ≡ row_of b s

module _ {S : Type 0} (db : Database S) (new_stamp : S → Stamp × S)
    (identified : Identified db new_stamp) where
  abbrev pub new_row : Bytes → S → Subscription
  new_row b s = record { id = (new_stamp s).0.id; identifier = b; created_at = (new_stamp s).0.now }

  -- The state behind the INSERT.
  abbrev pub inserted_state : Bytes → S → S
  inserted_state b s = (db.insert_subscription (new_row b s) (new_stamp s).1).1

  row_inserted :
      (b : Bytes) (s : S)
      → (db.insert_subscription (new_row b s) (new_stamp s).1).0 ≡ ok tt
      → identified.row_of b (inserted_state b s) ≡ some (kept (identified.row_of b s) (new_row b s))
  row_inserted b s i =
      identified.inserted (new_row b s) (new_stamp s).1 i
      ∙ ap (λ o. some (kept o (new_row b s))) (identified.stamped b s)

  upsert-kept :
      (b : Bytes) (s : S)
      → is_empty b ≡ false
      → (db.insert_subscription (new_row b s) (new_stamp s).1).0 ≡ ok tt
      → upsert_by_identifier db new_stamp b s
        ≡ (ok (kept (identified.row_of b s) (new_row b s)), inserted_state b s)
  unfolding upsert_by_identifier new_subscription
  upsert-kept b s n i =
      rw (n, upsert_by_identifier)
        (rw (i, upsert_by_identifier)
          (rw (identified.selected b (inserted_state b s), row_inserted b s i) refl))

  -- Upserting an identifier that is not empty returns the row that the table has for it, or else a
  -- new one with this identifier; and doing it again, in the state that this left, returns the same
  -- row, where neither INSERT fails.
  pub upsert_by_identifier-twice :
      (b : Bytes) (s : S)
      → is_empty b ≡ false
      → (db.insert_subscription (new_row b s) (new_stamp s).1).0 ≡ ok tt
      → (db.insert_subscription
          (new_row b (inserted_state b s))
          (new_stamp (inserted_state b s)).1).0
        ≡ ok tt
      → (x : Subscription) × ((upsert_by_identifier db new_stamp b s).0 ≡ ok x)
        × ((identified.row_of b s ≡ some x) ⊎ ((identified.row_of b s ≡ none) × (x.identifier ≡ b)))
        × ((upsert_by_identifier db new_stamp b (upsert_by_identifier db new_stamp b s).1).0 ≡ ok x)
  upsert_by_identifier-twice b s n i j =
      let first = upsert-kept b s n i in
      let second = upsert-kept b (inserted_state b s) n j in
      (
        kept (identified.row_of b s) (new_row b s),
        ap (λ r. r.0) first,
        elim (Option-cases (identified.row_of b s)) [
          | inl o ↦ inr (o, rw o refl)
          | inr (y, o) ↦ inl (rw o refl)
        ],
        ap (λ r. (upsert_by_identifier db new_stamp b r.1).0) first
            ∙ ap (λ r. r.0) second
            ∙ ap (λ o. ok (kept o (new_row b (inserted_state b s)))) (row_inserted b s i),
      )
