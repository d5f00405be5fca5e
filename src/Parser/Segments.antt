-- ===== src/Parser/Segments.antt =====
-- `readSegment` and `skipSegment` of parser.go. Each loop takes fuel; `none` means that it ran out.
use edifact_parser.Base.{
  ℕ, zero, suc, Option, none, some, List, [], ◌∷◌, ◌++◌, Bytes, if◌then◌else◌,
}
use edifact_parser.Token.{
  TokenType, segment_tag, data_element, component, segment_end, end_of_input, is_segment_tag_type,
}
use edifact_parser.Parser.State.{Parser, Segment, advance, add_error, unexpected_token}

-- The element under construction, `none` where Go has a nil slice.
abbrev pub Element : Type 0
Element = Option (List Bytes)

abbrev pub close : Element → Segment → Segment
close none seg = seg
close (some e) seg = record seg { data_elements = seg.data_elements ++ e ∷ [] }

abbrev pub opened : Element → List Bytes
opened none = []
opened (some e) = e

abbrev Loop : Type 0
Loop = Parser → Segment → Element → Option (Segment × Parser)

-- One round of the loop: the `switch`, with the loop's condition as its case of end of input.
unfoldable pub read_round : Loop → TokenType → Loop
read_round again end_of_input p seg element = some (close element seg, p)
read_round again data_element p seg element =
    again (advance p) (close element seg) (some (p.current_token.value ∷ []))
read_round again component p seg element =
    again (advance p) seg (some (opened element ++ p.current_token.value ∷ []))
read_round again segment_end p seg element = some (close element seg, advance p)
read_round again segment_tag p seg element = some (close element seg, p)
read_round again kind p seg element =
    again
      (advance (
        add_error p p.current_token.line p.current_token.column
          (unexpected_token p.current_token.kind seg.tag)))
      seg element

unfoldable pub read_loop : ℕ → Loop
read_loop zero p seg element = none
read_loop (suc n) p seg element = read_round (read_loop n) p.current_token.kind p seg element

unfoldable pub read_segment : ℕ → Parser → Option (Segment × Parser)
unfolding read_loop read_round
read_segment n p =
    let seg : Segment = record {
      tag = [];
      data_elements = [];
      line = p.current_token.line;
      column = p.current_token.column;
    } in
    if is_segment_tag_type p.current_token.kind
    then read_loop n (advance p) (record seg { tag = p.current_token.value }) none
    else read_loop n p seg none

unfoldable pub skip_round : (Parser → Option Parser) → TokenType → Parser → Option Parser
skip_round again end_of_input p = some p
skip_round again segment_end p = some (advance p)
skip_round again kind p = again (advance p)

unfoldable pub skip_segment : ℕ → Parser → Option Parser
unfolding skip_round
skip_segment zero p = none
skip_segment (suc n) p = skip_round (skip_segment n) p.current_token.kind p
