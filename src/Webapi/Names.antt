-- ===== src/Webapi/Names.antt =====
-- The names that jornada/webapi/_textprops.py lists, as code points.
use jornada_link.Common.{ℕ, List, [], ◌∷◌}

-- `RAW_VALUE_NAMES`
abbrev pub raw_value_names : List (List ℕ)
raw_value_names =
    (b'D' ∷ b'T' ∷ b'S' ∷ b'T' ∷ b'A' ∷ b'R' ∷ b'T' ∷ [])
    ∷ (b'D' ∷ b'T' ∷ b'E' ∷ b'N' ∷ b'D' ∷ [])
    ∷ (b'D' ∷ b'U' ∷ b'E' ∷ [])
    ∷ (b'D' ∷ b'T' ∷ b'S' ∷ b'T' ∷ b'A' ∷ b'M' ∷ b'P' ∷ [])
    ∷ (b'C' ∷ b'O' ∷ b'M' ∷ b'P' ∷ b'L' ∷ b'E' ∷ b'T' ∷ b'E' ∷ b'D' ∷ [])
    ∷ (b'C' ∷ b'R' ∷ b'E' ∷ b'A' ∷ b'T' ∷ b'E' ∷ b'D' ∷ [])
    ∷ (b'L' ∷ b'A' ∷ b'S' ∷ b'T' ∷ b'-' ∷ b'M' ∷ b'O' ∷ b'D' ∷ b'I' ∷ b'F' ∷ b'I' ∷ b'E' ∷ b'D'
        ∷ [])
    ∷ (b'R' ∷ b'E' ∷ b'C' ∷ b'U' ∷ b'R' ∷ b'R' ∷ b'E' ∷ b'N' ∷ b'C' ∷ b'E' ∷ b'-' ∷ b'I' ∷ b'D'
        ∷ [])
    ∷ (b'E' ∷ b'X' ∷ b'D' ∷ b'A' ∷ b'T' ∷ b'E' ∷ [])
    ∷ (b'R' ∷ b'D' ∷ b'A' ∷ b'T' ∷ b'E' ∷ [])
    ∷ (b'D' ∷ b'U' ∷ b'R' ∷ b'A' ∷ b'T' ∷ b'I' ∷ b'O' ∷ b'N' ∷ [])
    ∷ (b'T' ∷ b'R' ∷ b'I' ∷ b'G' ∷ b'G' ∷ b'E' ∷ b'R' ∷ [])
    ∷ (b'R' ∷ b'R' ∷ b'U' ∷ b'L' ∷ b'E' ∷ [])
    ∷ (b'E' ∷ b'X' ∷ b'R' ∷ b'U' ∷ b'L' ∷ b'E' ∷ [])
    ∷ (b'F' ∷ b'R' ∷ b'E' ∷ b'E' ∷ b'B' ∷ b'U' ∷ b'S' ∷ b'Y' ∷ [])
    ∷ (b'T' ∷ b'Z' ∷ b'O' ∷ b'F' ∷ b'F' ∷ b'S' ∷ b'E' ∷ b'T' ∷ b'F' ∷ b'R' ∷ b'O' ∷ b'M' ∷ [])
    ∷ (b'T' ∷ b'Z' ∷ b'O' ∷ b'F' ∷ b'F' ∷ b'S' ∷ b'E' ∷ b'T' ∷ b'T' ∷ b'O' ∷ [])
    ∷ (b'T' ∷ b'Z' ∷ b'U' ∷ b'R' ∷ b'L' ∷ [])
    ∷ (b'U' ∷ b'R' ∷ b'L' ∷ [])
    ∷ (b'A' ∷ b'T' ∷ b'T' ∷ b'A' ∷ b'C' ∷ b'H' ∷ [])
    ∷ (b'A' ∷ b'T' ∷ b'T' ∷ b'E' ∷ b'N' ∷ b'D' ∷ b'E' ∷ b'E' ∷ [])
    ∷ (b'O' ∷ b'R' ∷ b'G' ∷ b'A' ∷ b'N' ∷ b'I' ∷ b'Z' ∷ b'E' ∷ b'R' ∷ [])
    ∷ (b'G' ∷ b'E' ∷ b'O' ∷ [])
    ∷ (b'P' ∷ b'R' ∷ b'I' ∷ b'O' ∷ b'R' ∷ b'I' ∷ b'T' ∷ b'Y' ∷ [])
    ∷ (b'S' ∷ b'E' ∷ b'Q' ∷ b'U' ∷ b'E' ∷ b'N' ∷ b'C' ∷ b'E' ∷ [])
    ∷ (b'P' ∷ b'E' ∷ b'R' ∷ b'C' ∷ b'E' ∷ b'N' ∷ b'T' ∷ b'-' ∷ b'C' ∷ b'O' ∷ b'M' ∷ b'P' ∷ b'L'
        ∷ b'E' ∷ b'T' ∷ b'E' ∷ [])
    ∷ (b'R' ∷ b'E' ∷ b'P' ∷ b'E' ∷ b'A' ∷ b'T' ∷ [])
    ∷ (b'A' ∷ b'C' ∷ b'K' ∷ b'N' ∷ b'O' ∷ b'W' ∷ b'L' ∷ b'E' ∷ b'D' ∷ b'G' ∷ b'E' ∷ b'D' ∷ [])
    ∷ (b'C' ∷ b'A' ∷ b'T' ∷ b'E' ∷ b'G' ∷ b'O' ∷ b'R' ∷ b'I' ∷ b'E' ∷ b'S' ∷ [])
    ∷ (b'R' ∷ b'E' ∷ b'S' ∷ b'O' ∷ b'U' ∷ b'R' ∷ b'C' ∷ b'E' ∷ b'S' ∷ [])
    ∷ (b'R' ∷ b'E' ∷ b'Q' ∷ b'U' ∷ b'E' ∷ b'S' ∷ b'T' ∷ b'-' ∷ b'S' ∷ b'T' ∷ b'A' ∷ b'T' ∷ b'U'
        ∷ b'S' ∷ [])
    ∷ (b'N' ∷ [])
    ∷ (b'A' ∷ b'D' ∷ b'R' ∷ [])
    ∷ (b'O' ∷ b'R' ∷ b'G' ∷ [])
    ∷ (b'N' ∷ b'I' ∷ b'C' ∷ b'K' ∷ b'N' ∷ b'A' ∷ b'M' ∷ b'E' ∷ [])
    ∷ (b'T' ∷ b'E' ∷ b'L' ∷ [])
    ∷ (b'E' ∷ b'M' ∷ b'A' ∷ b'I' ∷ b'L' ∷ [])
    ∷ (b'P' ∷ b'H' ∷ b'O' ∷ b'T' ∷ b'O' ∷ [])
    ∷ (b'L' ∷ b'O' ∷ b'G' ∷ b'O' ∷ [])
    ∷ (b'S' ∷ b'O' ∷ b'U' ∷ b'N' ∷ b'D' ∷ [])
    ∷ (b'K' ∷ b'E' ∷ b'Y' ∷ [])
    ∷ (b'B' ∷ b'D' ∷ b'A' ∷ b'Y' ∷ [])
    ∷ (b'A' ∷ b'N' ∷ b'N' ∷ b'I' ∷ b'V' ∷ b'E' ∷ b'R' ∷ b'S' ∷ b'A' ∷ b'R' ∷ b'Y' ∷ [])
    ∷ (b'R' ∷ b'E' ∷ b'V' ∷ [])
    ∷ (b'T' ∷ b'Z' ∷ [])
    ∷ (b'I' ∷ b'M' ∷ b'P' ∷ b'P' ∷ [])
    ∷ (b'R' ∷ b'E' ∷ b'L' ∷ b'A' ∷ b'T' ∷ b'E' ∷ b'D' ∷ [])
    ∷ (b'M' ∷ b'E' ∷ b'M' ∷ b'B' ∷ b'E' ∷ b'R' ∷ [])
    ∷ (b'S' ∷ b'O' ∷ b'U' ∷ b'R' ∷ b'C' ∷ b'E' ∷ [])
    ∷ (b'G' ∷ b'E' ∷ b'N' ∷ b'D' ∷ b'E' ∷ b'R' ∷ [])
    ∷ (b'C' ∷ b'L' ∷ b'I' ∷ b'E' ∷ b'N' ∷ b'T' ∷ b'P' ∷ b'I' ∷ b'D' ∷ b'M' ∷ b'A' ∷ b'P' ∷ [])
    ∷ (b'L' ∷ b'A' ∷ b'N' ∷ b'G' ∷ [])
    ∷ (b'C' ∷ b'A' ∷ b'L' ∷ b'A' ∷ b'D' ∷ b'R' ∷ b'U' ∷ b'R' ∷ b'I' ∷ [])
    ∷ (b'C' ∷ b'A' ∷ b'L' ∷ b'U' ∷ b'R' ∷ b'I' ∷ [])
    ∷ (b'F' ∷ b'B' ∷ b'U' ∷ b'R' ∷ b'L' ∷ [])
    ∷ (b'X' ∷ b'M' ∷ b'L' ∷ [])
    ∷ (b'X' ∷ b'-' ∷ b'A' ∷ b'B' ∷ b'D' ∷ b'A' ∷ b'T' ∷ b'E' ∷ [])
    ∷ (b'X' ∷ b'-' ∷ b'A' ∷ b'N' ∷ b'N' ∷ b'I' ∷ b'V' ∷ b'E' ∷ b'R' ∷ b'S' ∷ b'A' ∷ b'R' ∷ b'Y'
        ∷ [])
    ∷ (b'X' ∷ b'-' ∷ b'E' ∷ b'V' ∷ b'O' ∷ b'L' ∷ b'U' ∷ b'T' ∷ b'I' ∷ b'O' ∷ b'N' ∷ b'-' ∷ b'A'
        ∷ b'N' ∷ b'N' ∷ b'I' ∷ b'V' ∷ b'E' ∷ b'R' ∷ b'S' ∷ b'A' ∷ b'R' ∷ b'Y' ∷ [])
    ∷ []

-- `MULTI_VALUED_PARAMS`
abbrev pub multi_valued_params : List (List ℕ)
multi_valued_params =
    (b'T' ∷ b'Y' ∷ b'P' ∷ b'E' ∷ [])
    ∷ (b'M' ∷ b'E' ∷ b'M' ∷ b'B' ∷ b'E' ∷ b'R' ∷ [])
    ∷ (b'D' ∷ b'E' ∷ b'L' ∷ b'E' ∷ b'G' ∷ b'A' ∷ b'T' ∷ b'E' ∷ b'D' ∷ b'-' ∷ b'F' ∷ b'R' ∷ b'O'
        ∷ b'M' ∷ [])
    ∷ (b'D' ∷ b'E' ∷ b'L' ∷ b'E' ∷ b'G' ∷ b'A' ∷ b'T' ∷ b'E' ∷ b'D' ∷ b'-' ∷ b'T' ∷ b'O' ∷ [])
    ∷ (b'P' ∷ b'I' ∷ b'D' ∷ [])
    ∷ (b'S' ∷ b'O' ∷ b'R' ∷ b'T' ∷ b'-' ∷ b'A' ∷ b'S' ∷ [])
    ∷ []

-- `_BARE_ENCODINGS`
abbrev pub bare_encodings : List (List ℕ)
bare_encodings =
    (b'Q' ∷ b'U' ∷ b'O' ∷ b'T' ∷ b'E' ∷ b'D' ∷ b'-' ∷ b'P' ∷ b'R' ∷ b'I' ∷ b'N' ∷ b'T' ∷ b'A' ∷ b'B'
      ∷ b'L' ∷ b'E' ∷ [])
    ∷ (b'B' ∷ b'A' ∷ b'S' ∷ b'E' ∷ b'6' ∷ b'4' ∷ [])
    ∷ (b'8' ∷ b'B' ∷ b'I' ∷ b'T' ∷ [])
    ∷ (b'7' ∷ b'B' ∷ b'I' ∷ b'T' ∷ [])
    ∷ (b'B' ∷ [])
    ∷ []

abbrev pub encoding_key : List ℕ
encoding_key = b'E' ∷ b'N' ∷ b'C' ∷ b'O' ∷ b'D' ∷ b'I' ∷ b'N' ∷ b'G' ∷ []

abbrev pub type_key : List ℕ
type_key = b'T' ∷ b'Y' ∷ b'P' ∷ b'E' ∷ []

abbrev pub value_key : List ℕ
value_key = b'V' ∷ b'A' ∷ b'L' ∷ b'U' ∷ b'E' ∷ []

abbrev pub text_kind : List ℕ
text_kind = b'T' ∷ b'E' ∷ b'X' ∷ b'T' ∷ []
