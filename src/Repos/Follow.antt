-- ===== src/Repos/Follow.antt =====
-- A client of `ListByFilter` that follows the cursors from page to page.
use edifact_parser.Base.{ℕ, zero, suc, Option, none, some, List, ◌++◌, Bytes}
use edifact_parser.Domain.{Result, ok, err}
use edifact_parser.Domain.Entities.{Message}
use edifact_parser.Domain.Filters.{MessageFilter}
use edifact_parser.Ingestion.Ports
use edifact_parser.Repos.Database.{Database, Codec}
use edifact_parser.Repos.Messages.{list_by_filter}

module _ {S : Type 0} (db : Database S) (codec : Codec) where
  -- A client that asks for a page, then for the page behind the cursor it got, until there is none;
  -- nothing when a page fails or the fuel runs out.
  abbrev pub follow_with :
      (MessageFilter → S → Option (List Message))
      → MessageFilter
      → Result Ports.RepoError (List Message × Option Bytes)
      → S
      → Option (List Message)
  follow_with again f (err e) s = none
  follow_with again f (ok (page, none)) s = some page
  follow_with again f (ok (page, some text)) s = elim (again (record f { cursor = some text }) s) [
    | none ↦ none
    | some rest ↦ some (page ++ rest)
  ]

  unfoldable pub follow : ℕ → MessageFilter → S → Option (List Message)
  follow zero f s = none
  follow (suc k) f s =
      let (r, t) = list_by_filter db codec f s in follow_with (λ g u. follow k g u) f r t
