-- ===== src/Parser/Headers.antt =====
-- `parseUNB` and `parseUNZ` of parser.go: the interchange header and trailer.
use edifact_parser.Base.{
  ℕ, Bool, true, not, Option, none, some, List, [], ◌∷◌, ◌++◌, Bytes, length, leb, ltb, get_or,
  bytes_eq, ◌==◌, if◌then◌else◌, ◌>>=◌,
}
use edifact_parser.Parser.State.{
  ℤ, pos, negsuc, Stdlib, invalid_unb, invalid_unz, invalid_date_time, empty_sender, empty_receiver,
  empty_reference, mismatched_message_count, mismatched_reference, ParseError, ParseResult, Segment,
  Parser, add_error, combined_error, component_or, require,
}
use edifact_parser.Parser.Segments.{read_segment}

abbrev pub unb_min_data_elements : ℕ
unb_min_data_elements = 5

abbrev pub unz_min_data_elements : ℕ
unz_min_data_elements = 2

-- A returned error, the result as far as it is filled, and the parser.
abbrev pub HeaderResult : Type 0
HeaderResult = (Option (List ParseError) × ParseResult) × Parser

-- Data elements 2 and 3: sender and receiver.
unfoldable pub unb_parties : Segment → ParseResult → ParseResult
unb_parties seg result =
    let sender = get_or seg.data_elements 1 [] in
    let receiver = get_or seg.data_elements 2 [] in
    record result {
      sender_id = component_or sender 0 result.sender_id;
      sender_qualifier = component_or sender 1 result.sender_qualifier;
      receiver_id = component_or receiver 0 result.receiver_id;
      receiver_qualifier = component_or receiver 1 result.receiver_qualifier;
    }

unfoldable pub unb_required : Segment → ParseResult → Parser → Parser
unb_required seg result p =
    require result.reference seg empty_reference
      (require result.receiver_id seg empty_receiver (require result.sender_id seg empty_sender p))

-- `count != len(result.Messages)`
unfoldable pub differs : ℤ → ℕ → Bool
differs (pos k) n = not (k == n)
differs (negsuc _) n = true

-- Data element 2: the reference.
unfoldable pub unz_reference : Segment → List Bytes → ParseResult → Parser → Parser
unz_reference seg [] result p = p
unz_reference seg (text ∷ _) result p =
    if not (bytes_eq text result.reference)
    then add_error p seg.line seg.column (mismatched_reference result.reference text)
    else p

module _ (std : Stdlib) where
  -- Data element 4: date and time.
  unfoldable pub unb_date : Segment → List Bytes → ParseResult → Parser → ParseResult × Parser
  unb_date seg e result p =
      if leb 2 (length e)
      then (let date = get_or e 0 [] ++ (b':' ∷ get_or e 1 []) in
          elim (std.time_parse date) [
            | none ↦ (result, add_error p seg.line seg.column (invalid_date_time date))
            | some t ↦ (record result { prepared_at = t }, p)
          ])
      else (result, p)

  unfoldable pub unb_elements : Segment → ParseResult → Parser → HeaderResult
  unfolding unb_date unb_parties unb_required
  unb_elements seg result p =
      let (dated, q) = unb_date seg (get_or seg.data_elements 3 []) (unb_parties seg result) p in
      let final = record dated {
        reference = component_or (get_or seg.data_elements 4 []) 0 dated.reference;
      } in
      let checked = unb_required seg final q in ((combined_error checked, final), checked)

  unfoldable pub parse_unb : ℕ → ParseResult → Parser → Option HeaderResult
  unfolding unb_elements
  parse_unb n result p = do
    (seg, q) ← read_segment n p
    some (
        if ltb (length seg.data_elements) unb_min_data_elements
        then (let failed =
              add_error q seg.line seg.column (invalid_unb (length seg.data_elements)) in
            ((combined_error failed, result), failed))
        else unb_elements seg result q)

  -- Data element 1: the count. A text that is no number passes.
  unfoldable pub unz_count : Segment → List Bytes → ParseResult → Parser → Parser
  unfolding differs
  unz_count seg [] result p = p
  unz_count seg (text ∷ _) result p = elim (std.scan_int text) [
    | none ↦ p
    | some count ↦
        if differs count (length result.messages)
        then add_error p seg.line seg.column
            (mismatched_message_count count (length result.messages))
        else p
  ]

  unfoldable pub parse_unz : ℕ → ParseResult → Parser → Option (Option (List ParseError) × Parser)
  unfolding unz_count unz_reference
  parse_unz n result p = do
    (seg, q) ← read_segment n p
    let counted = unz_count seg (get_or seg.data_elements 0 []) result q
    let checked = unz_reference seg (get_or seg.data_elements 1 []) result counted
    let failed = add_error q seg.line seg.column (invalid_unz (length seg.data_elements))
    some (
        if ltb (length seg.data_elements) unz_min_data_elements
        then (combined_error failed, failed)
        else (combined_error checked, checked))
