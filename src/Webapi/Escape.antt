-- ===== src/Webapi/Escape.antt =====
-- The escapes of jornada/webapi/_textprops.py.
pub mod RoundTrip
pub mod Split
use jornada_link.Common.{ℕ, Bool, true, false, ◌||◌, List, [], ◌∷◌, ◌++◌, ◌==◌, if◌then◌else◌}
use jornada_link.Webapi.Chars.{backslash, cr, lf, has, replace, replace_pair}

abbrev pub newline_escape : List ℕ
newline_escape = backslash ∷ b'n' ∷ []

-- `escape`
unfoldable pub escape : List ℕ → List ℕ
unfolding replace replace_pair
escape text = replace cr newline_escape (
    replace lf newline_escape (
      replace_pair cr lf newline_escape (
        replace b',' (backslash ∷ b',' ∷ []) (
          replace b';' (backslash ∷ b';' ∷ [])
            (replace backslash (backslash ∷ backslash ∷ []) text)))))

-- what a backslash with this character after it stands for
abbrev pub unescaped : ℕ → ℕ
unescaped c = if (c == b'n') || (c == b'N') then lf else c

-- the loop of `unescape`; a backslash at the end stays
unfoldable pub unescape_loop : List ℕ → List ℕ
unescape_loop [] = []
unescape_loop (c ∷ []) = c ∷ []
unescape_loop (c ∷ d ∷ text) = elim (c == backslash) [
  | true ↦ unescaped d ∷ unescape_loop text
  | false ↦ c ∷ unescape_loop (d ∷ text)
]

unfoldable pub unescape : List ℕ → List ℕ
unfolding unescape_loop
unescape text = if has backslash text then unescape_loop text else text

-- `split_unescaped`, with the part that is being read
unfoldable pub split_loop : ℕ → List ℕ → List ℕ → List (List ℕ)
split_loop separator current [] = current ∷ []
split_loop separator current (c ∷ []) = elim (c == separator) [
  | true ↦ current ∷ [] ∷ []
  | false ↦ (current ++ (c ∷ [])) ∷ []
]
split_loop separator current (c ∷ d ∷ text) = elim (c == backslash) [
  | true ↦ split_loop separator (current ++ (c ∷ d ∷ [])) text
  | false ↦ elim (c == separator) [
    | true ↦ current ∷ split_loop separator [] (d ∷ text)
    | false ↦ split_loop separator (current ++ (c ∷ [])) (d ∷ text)
  ]
]

abbrev pub split_unescaped : List ℕ → ℕ → List (List ℕ)
split_unescaped value separator = split_loop separator [] value
