-- ===== src/Parser/Messages.antt =====
-- `parseMessage` of parser.go: one UNH/UNT pair with its body.
use edifact_parser.Base.{
  ℕ, zero, suc, true, false, ◌&&◌, Option, none, some, [], ◌∷◌, ◌++◌, Bytes, codes, length, ltb,
  get_or, bytes_eq, if◌then◌else◌, ◌>>=◌,
}
use edifact_parser.Token.{is_eof_type}
use edifact_parser.Parser.State.{
  invalid_unh, empty_message_reference, empty_message_type, expected_unt, ParsedMessage, Segment,
  Parser, is_segment_tag, add_error, segment_to_map, component_or, require,
}
use edifact_parser.Parser.Segments.{read_segment}

abbrev pub loc_subscription_position : Bytes
loc_subscription_position = codes "172"

abbrev pub segment_tag_unh : Bytes
segment_tag_unh = codes "UNH"

abbrev pub segment_tag_unt : Bytes
segment_tag_unt = codes "UNT"

abbrev pub segment_tag_loc : Bytes
segment_tag_loc = codes "LOC"

abbrev pub unh_min_data_elements : ℕ
unh_min_data_elements = 2

abbrev pub empty_message : ParsedMessage
empty_message = record {
  message_type = [];
  message_version = [];
  message_release = [];
  message_reference = [];
  subscription_id = [];
  segments = [];
}

abbrev pub append_segment : Bytes → Segment → ParsedMessage → ParsedMessage
append_segment t seg msg = record msg { segments = msg.segments ++ segment_to_map t seg ∷ [] }

-- The message reference, the message identifier, and the checks on them.
unfoldable pub unh_header : Segment → Parser → ParsedMessage × Parser
unh_header seg p =
    let identifier = get_or seg.data_elements 1 [] in
    let msg = record empty_message {
      message_reference = component_or (get_or seg.data_elements 0 []) 0 [];
      message_type = component_or identifier 0 [];
      message_version = component_or identifier 1 [];
      message_release = component_or identifier 2 [];
    } in
    (
      append_segment segment_tag_unh seg msg,
      require msg.message_type seg empty_message_type
          (require msg.message_reference seg empty_message_reference p),
    )

-- `LOC+172+<identifier>`
unfoldable pub note_subscription : Segment → ParsedMessage → ParsedMessage
note_subscription seg msg =
    let position = get_or seg.data_elements 0 [] in
    let identifier = get_or seg.data_elements 1 [] in
    if bytes_eq seg.tag segment_tag_loc
      && ltb 0 (length seg.data_elements)
      && (ltb 0 (length position) && bytes_eq (get_or position 0 []) loc_subscription_position)
      && (ltb 1 (length seg.data_elements) && ltb 0 (length identifier))
    then record msg { subscription_id = get_or identifier 0 [] }
    else msg

-- The body, up to UNT or the end of the input.
unfoldable pub body_loop : ℕ → ℕ → ParsedMessage → Parser → Option (ParsedMessage × Parser)
body_loop n zero msg p = none
body_loop n (suc k) msg p = elim (is_eof_type p.current_token.kind) [
  | true ↦ some (msg, p)
  | false ↦ elim (is_segment_tag p segment_tag_unt) [
    | true ↦ some (msg, p)
    | false ↦ do
      (seg, q) ← read_segment n p
      body_loop n k (append_segment seg.tag seg (note_subscription seg msg)) q
  ]
]

unfoldable pub unt_trailer : ℕ → ParsedMessage → Parser → Option (ParsedMessage × Parser)
unt_trailer n msg p = elim (is_segment_tag p segment_tag_unt) [
  | true ↦ do (seg, q) ← read_segment n p; some (append_segment segment_tag_unt seg msg, q)
  | false ↦ some (
    msg,
    add_error p p.current_token.line p.current_token.column (expected_unt msg.message_reference),
  )
]

-- The message is `none` where Go returns an error.
unfoldable pub parse_message : ℕ → Parser → Option (Option ParsedMessage × Parser)
unfolding unh_header body_loop unt_trailer note_subscription
parse_message n p = do
  (seg, q) ← read_segment n p
  if ltb (length seg.data_elements) unh_min_data_elements
      then some (none, add_error q seg.line seg.column (invalid_unh (length seg.data_elements)))
      else (do
        let (msg, checked) = unh_header seg q
        (body, r) ← body_loop n n msg checked
        (whole, s) ← unt_trailer n body r
        some (some whole, s))
