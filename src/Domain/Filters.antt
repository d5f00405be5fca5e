-- ===== src/Domain/Filters.antt =====
-- filters.go.
use edifact_parser.Base.{ℕ, Bool, true, false, ◌&&◌, Option, none, some, Bytes, ltb, if◌then◌else◌}
use edifact_parser.Parser.State.{ℤ, pos, negsuc}
use edifact_parser.Domain.{Uuid, DomainError}
use edifact_parser.Domain.Entities.{below_one}

abbrev pub default_page_limit : ℤ
default_page_limit = pos 20

abbrev pub max_page_limit : ℕ
max_page_limit = 100

pub record ReprocessFilter : Type 0 where
  pub interchange_id : Option Uuid
  pub sender_id : Option Bytes
  pub message_type : Option Bytes
  pub from_date : Option ℕ
  pub to_date : Option ℕ

pub record MessageFilter : Type 0 where
  pub subscription_id : Option Uuid
  pub message_type : Option Bytes
  pub interchange_id : Option Uuid
  pub processing_version_id : Option Uuid
  pub limit : ℤ
  pub cursor : Option Bytes

abbrev pub is_none {ℓ} : {A : Type ℓ} → Option A → Bool
is_none none = true
is_none (some _) = false

unfoldable pub is_empty : ReprocessFilter → Bool
is_empty f =
    is_none f.interchange_id
    && is_none f.sender_id
    && is_none f.message_type
    && is_none f.from_date
    && is_none f.to_date

-- `f.Limit > MaxPageLimit`
abbrev pub above_max : ℤ → Bool
above_max (pos n) = ltb max_page_limit n
above_max (negsuc n) = false

-- `Validate`: its error, and the filter as the call leaves it.
unfoldable pub validate : MessageFilter → Option DomainError × MessageFilter
validate f =
    let g = if below_one f.limit then record f { limit = default_page_limit } else f in
    let h = if above_max g.limit then record g { limit = pos max_page_limit } else g in (none, h)
