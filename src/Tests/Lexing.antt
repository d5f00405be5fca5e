-- ===== src/Tests/Lexing.antt =====
-- The properties of delimiters.go and lexer.go at concrete inputs.
use edifact_parser.Base.{[], ◌++◌, Bytes, codes, ◌≡◌, ◌↔◌, ◌⊎◌, ◌<◌, length, List, ◌∷◌, true, refl}
use edifact_parser.Delimiters.{default_delimiters, parse_una}
use edifact_parser.Delimiters
use edifact_parser.Delimiters.Una.{una_string, parse_una-ok_iff}
use edifact_parser.Token.{end_of_input, error}
use edifact_parser.Lexer.{Lexer, new_lexer, next_token, is_alphanumeric}
use edifact_parser.Lexer.Stream.{view, view-new_lexer}
use edifact_parser.Lexer.Lexeme.{lexeme}
use edifact_parser.Lexer.Refines.{observe, next_token-lexeme}
use edifact_parser.Lexer.Positions.{TokenAt, next_token-TokenAt}
use edifact_parser.Lexer.Progress.{next_token-progress}
use edifact_parser.Tests.Parsing.{sample}
use edifact_parser.Lexer.Printing.{
  Segment, element, sub_element, IsUsable, AreTagged, print_segments, print_parts, escape,
  segment_tokens,
}
use edifact_parser.Lexer.RoundTrip.{At, Reads, print_segments-Reads}

abbrev sample_lexer : Lexer
sample_lexer = new_lexer sample default_delimiters

next_token-lexeme_example :
    observe (next_token sample_lexer)
    ≡ lexeme sample_lexer.delimiters sample_lexer.after_segment_end sample_lexer.at_segment_start
        (view sample_lexer)
next_token-lexeme_example = next_token-lexeme sample_lexer

next_token-TokenAt_example : TokenAt sample_lexer (next_token sample_lexer)
next_token-TokenAt_example = next_token-TokenAt sample_lexer

next_token-progress_example :
    (((next_token sample_lexer).0.kind ≡ end_of_input) × (view (next_token sample_lexer).1 ≡ []))
    ⊎ ((next_token sample_lexer).0.kind ≡ error)
    ⊎ (length (view (next_token sample_lexer).1) < length (view sample_lexer))
next_token-progress_example = next_token-progress sample_lexer

parse_una-ok_iff_example :
    (parse_una (codes "UNA:+.?*'UNB") ≡ Delimiters.ok default_delimiters)
    ↔ ((rest : Bytes) × (codes "UNA:+.?*'UNB" ≡ una_string default_delimiters ++ rest))
parse_una-ok_iff_example = parse_una-ok_iff (codes "UNA:+.?*'UNB") default_delimiters

abbrev printed : List Segment
printed =
    record { tag = codes "FTX"; parts = element (codes "it's 1+1") ∷ sub_element (codes "?") ∷ [] }
    ∷ record { tag = codes "X1"; parts = [] }
    ∷ []

default-IsUsable : IsUsable default_delimiters
unfolding is_alphanumeric
default-IsUsable = record {
  component_not_data = refl;
  component_not_end = refl;
  data_not_end = refl;
  component_not_release = refl;
  data_not_release = refl;
  end_not_release = refl;
  component_no_letter = refl;
  data_no_letter = refl;
  end_no_letter = refl;
}

printed-AreTagged : AreTagged printed
unfolding is_alphanumeric
printed-AreTagged = (((λ e. cc), (refl, (refl, (refl, tt)))), (((λ e. cc), (refl, (refl, tt))), tt))

abbrev printed_lexer : Lexer
printed_lexer = new_lexer (print_segments default_delimiters printed) default_delimiters

printed-At :
    At default_delimiters true true (print_segments default_delimiters printed) printed_lexer
unfolding new_lexer print_segments print_parts escape
printed-At = record {
  delimiters_are = refl;
  after_is = refl;
  start_is = refl;
  view_is = view-new_lexer (print_segments default_delimiters printed) default_delimiters;
}

print_segments-Reads_example :
    Reads default_delimiters (segment_tokens default_delimiters printed) printed_lexer
print_segments-Reads_example =
    print_segments-Reads default_delimiters default-IsUsable printed true printed_lexer
      printed-AreTagged printed-At
