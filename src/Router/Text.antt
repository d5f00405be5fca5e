-- ===== src/Router/Text.antt =====
-- `strings.Contains`, which the router calls on the texts of errors.
use edifact_parser.Base.{Bool, ◌||◌, [], ◌∷◌, Bytes, length, take, bytes_eq}

unfoldable pub contains : Bytes → Bytes → Bool
contains [] part = bytes_eq [] part
contains (c ∷ cs) part =
    let later = contains cs part in bytes_eq (take (length part) (c ∷ cs)) part || later
