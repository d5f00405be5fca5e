-- ===== src/Repos/Paging.antt =====
-- The pages of `ListByFilter`, followed from cursor to cursor.
use edifact_parser.Base.{
  ℕ, suc, ◌+◌, ◌-◌, true, false, Option, none, some, List, [], ◌∷◌, ◌++◌, map, Bytes, length, take,
  get_elem?, filter, ltb, ◌≡◌, refl, ap, sym, ◌∙◌, arith, Bool-cases, inl, inr, All, ◌⊎◌,
  append_assoc,
}
use edifact_parser.Domain.{Uuid, Result, ok, err}
use edifact_parser.Domain.Entities.{Message, below_one}
use edifact_parser.Domain.Filters.{MessageFilter, validate, above_max}
use edifact_parser.Domain.Valid.{in_range}
use edifact_parser.Ingestion.Ports
use edifact_parser.Parser.State.{pos}
use edifact_parser.Repos.Database.{MessageRow, Condition, MessageSelect, Database, Codec, DbError}
use edifact_parser.Repos.Messages.{
  filter_conditions, row_to_message, rows_to_messages, cursor_condition, page_of, list_by_filter,
  db_error,
}
use edifact_parser.Repos.Rows.{
  satisfies, IsAscending, take_all, length-take, take-take, take-append, get_elem?-append, split_at,
  All-before, All-filter,
}
use mathlib.Core.Path.{subst}

-- What the repository relies on: the table of messages in ascending order of its key; a SELECT that
-- leaves the database as it is and either answers the rows that satisfy its conditions, in this
-- order and as many as its limit allows, or fails; ids that are parsed back from their text; and
-- that the segments column of the rows that are in the table can be read.
pub record Answers {S : Type 0} (db : Database S) (codec : Codec) : Type 0 where
  pub table : S → List MessageRow
  pub ascending : (s : S) → IsAscending (table s)
  pub selects :
      (q : MessageSelect) (s : S)
      → (db.select_messages q s
          ≡ (ok (take q.limit (filter (satisfies q.conditions) (table s))), s))
        ⊎ ((e : DbError) × (db.select_messages q s ≡ (err e, s)))
  pub parses : (id : Uuid) → codec.uuid_parse (codec.uuid_string id) ≡ some id
  pub message : MessageRow → Message
  pub reads : (s : S) → All (λ row. row_to_message codec row ≡ ok (message row)) (table s)

-- The filter as `Validate` leaves it: some limit of at least one row, all else unchanged.
validate-limit :
    (f : MessageFilter) → (m : ℕ) × (validate f ≡ (none, record f { limit = pos (suc m) }))
unfolding validate
validate-limit f = elim (Bool-cases (below_one f.limit)) [
  | inl b ↦ (19, rw b refl)
  | inr b ↦ elim (Bool-cases (above_max f.limit)) [
    | inl a ↦ (99, rw (b, a) refl)
    | inr a ↦
        let (n, e, low, high) = in_range f.limit b a in
        let at : f.limit ≡ pos (suc (n - 1)) = e ∙ ap pos (omega (arith, low)) in
        (n - 1, rw (b, a) (λ k. (none, record f { limit = at k })))
  ]
]

-- A SELECT of the messages of a filter, behind some cursor, that fails.
abbrev pub SelectFails : {S : Type 0} → Database S → MessageFilter → S → Type 0
unfolding filter_conditions
SelectFails db f s =
    (cs : List Condition) × (n : ℕ) × (e : DbError) × (db.select_messages
        (record { conditions = filter_conditions f ++ cs; limit = n }) s
      ≡ (err e, s))

module _ {S : Type 0} (db : Database S) (codec : Codec) (answers : Answers db codec) where
  abbrev AllRead : List MessageRow → Type 0
  AllRead rows = All (λ row. row_to_message codec row ≡ ok (answers.message row)) rows

  rows_to_messages-message :
      (rows : List MessageRow)
      → AllRead rows
      → rows_to_messages codec rows ≡ ok (map answers.message rows)
  unfolding rows_to_messages
  rows_to_messages-message [] h = refl
  rows_to_messages-message (row ∷ rows) h = rw (h.0, rows_to_messages-message rows h.1) refl

  -- A page of the rows `b` that are left: all of them, or some and the place where it ends.
  pub data Page (b : List MessageRow) (r : Result Ports.RepoError (List Message × Option Bytes))
      : Type 0 where
    last : r ≡ ok (map answers.message b, none) → Page b r
    more :
        (a : List MessageRow) (y : MessageRow) (c : List MessageRow)
        → b ≡ a ++ y ∷ c
        → r ≡ ok (map answers.message (a ++ y ∷ []), some (codec.uuid_string y.id))
        → Page b r

  page_of-last :
      (m : ℕ) (rows : List MessageRow)
      → AllRead rows
      → ltb (suc m) (length rows) ≡ false
      → page_of codec (suc m) rows ≡ ok (map answers.message rows, none)
  unfolding page_of
  page_of-last m rows read small =
      rw (small, page_of) (rw (rows_to_messages-message rows read, page_of) (rw small refl))

  page_of-more :
      (m : ℕ) (rows a : List MessageRow) (y : MessageRow)
      → AllRead a
      → ltb (suc m) (length rows) ≡ true
      → take (suc m) rows ≡ a
      → get_elem? a m ≡ some y
      → page_of codec (suc m) rows ≡ ok (map answers.message a, some (codec.uuid_string y.id))
  unfolding page_of
  page_of-more m rows a y read full kept end =
      let place : suc m - 1 ≡ m = omega arith in
      rw (full, page_of)
        (rw (kept, page_of)
          (rw (rows_to_messages-message a read, page_of) (rw (full, place) (rw (kept, end) refl))))

  page_of-Page :
      (m : ℕ) (b : List MessageRow)
      → AllRead b
      → Page b (page_of codec (suc m) (take (suc (suc m)) b))
  unfolding page_of
  page_of-Page m b read = elim (Bool-cases (ltb (suc m) (length b))) [
    | inr small ↦
        let all = take_all (suc (suc m)) b (ground (arith, small)) in
        last (rw all (page_of-last m b read small))
    | inl large ↦
        let (a, y, c, e, l) = split_at m b (ground (arith, large)) in
        let kept : take (suc m) (take (suc (suc m)) b) ≡ a ++ y ∷ [] =
          take-take (suc m) b
          ∙ ap (take (suc m)) e
          ∙ ap (λ k. take (suc k) (a ++ y ∷ c)) (sym l)
          ∙ take-append a y c in
        let full : ltb (suc m) (length (take (suc (suc m)) b)) ≡ true =
          ground (arith, length-take (suc (suc m)) b, large) in
        let end : get_elem? (a ++ y ∷ []) m ≡ some y =
          ap (get_elem? (a ++ y ∷ [])) (sym l) ∙ get_elem?-append a y in
        let read_of : AllRead (a ++ y ∷ []) =
          All-before (λ row. row_to_message codec row ≡ ok (answers.message row)) (a ++ y ∷ []) c
            (subst AllRead (e ∙ sym (append_assoc a (y ∷ []) c)) read) in
        more a y c e (page_of-more m (take (suc (suc m)) b) (a ++ y ∷ []) y read_of full kept end)
  ]

  list_by_filter-page :
      (f : MessageFilter) (s : S) (cs : List Condition) (m : ℕ)
      (rows : Result DbError (List MessageRow))
      → cursor_condition codec f.cursor ≡ ok cs
      → validate f ≡ (none, record f { limit = pos (suc m) })
      → db.select_messages
          (record { conditions = filter_conditions f ++ cs; limit = suc (suc m) })
          s
        ≡ (rows, s)
      → list_by_filter db codec f s
        ≡ (elim rows [ err e ↦ err (db_error e) | ok found ↦ page_of codec (suc m) found ], s)
  unfolding list_by_filter filter_conditions
  list_by_filter-page f s cs m (ok rows) c v h =
      let one_more : suc m + 1 ≡ suc (suc m) = omega arith in
      rw (v, list_by_filter)
        (rw (v, list_by_filter)
          (rw (c, list_by_filter) (rw (one_more, list_by_filter) (rw (h, list_by_filter) refl))))
  list_by_filter-page f s cs m (err e) c v h =
      let one_more : suc m + 1 ≡ suc (suc m) = omega arith in
      rw (v, list_by_filter)
        (rw (v, list_by_filter)
          (rw (c, list_by_filter) (rw (one_more, list_by_filter) (rw (h, list_by_filter) refl))))

  pub list_by_filter-Page :
      (f : MessageFilter) (s : S) (cs : List Condition)
      → cursor_condition codec f.cursor ≡ ok cs
      → ((r : Result Ports.RepoError (List Message × Option Bytes)) × (list_by_filter db codec f s
            ≡ (r, s))
          × Page (filter (satisfies (filter_conditions f ++ cs)) (answers.table s)) r)
        ⊎ SelectFails db f s
  unfolding filter_conditions
  list_by_filter-Page f s cs c =
      let (m, v) = validate-limit f in
      let b = filter (satisfies (filter_conditions f ++ cs)) (answers.table s) in
      elim (answers.selects (record { conditions = filter_conditions f ++ cs; limit = suc (suc m) })
        s) [
          | inr (e, h) ↦ inr (cs, suc (suc m), e, h)
          | inl h ↦ inl (
            page_of codec (suc m) (take (suc (suc m)) b),
            list_by_filter-page f s cs m (ok (take (suc (suc m)) b)) c v h,
            page_of-Page m b (
                All-filter (λ row. row_to_message codec row ≡ ok (answers.message row))
                  (satisfies (filter_conditions f ++ cs)) (answers.table s) (answers.reads s)),
          )
        ]
