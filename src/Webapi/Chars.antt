-- ===== src/Webapi/Chars.antt =====
-- The methods of `str` that jornada/webapi/_textprops.py uses, over lists of code points.
use jornada_link.Common.{
  ℕ, Bool, true, false, ◌&&◌, ◌||◌, List, [], ◌∷◌, ◌++◌, any, leb, ◌==◌, if◌then◌else◌,
}

abbrev pub backslash : ℕ
backslash = 0x5C

abbrev pub cr : ℕ
cr = 13

abbrev pub lf : ℕ
lf = 10

abbrev pub tab : ℕ
tab = 9

-- a character of which `str.isspace` is true
unfoldable pub is_space : ℕ → Bool
is_space c =
    (leb 9 c && leb c 13)
    || (leb 28 c && leb c 32)
    || (c == 0x85)
    || (c == 0xA0)
    || (c == 0x1680)
    || (leb 0x2000 c && leb c 0x200A)
    || (c == 0x2028)
    || (c == 0x2029)
    || (c == 0x202F)
    || (c == 0x205F)
    || (c == 0x3000)

-- `c in text`
abbrev pub has : ℕ → List ℕ → Bool
has c text = any (λ d. d == c) text

-- `text.replace(c, new)`, for one character
unfoldable pub replace : ℕ → List ℕ → List ℕ → List ℕ
replace c new [] = []
replace c new (d ∷ text) = (if d == c then new else d ∷ []) ++ replace c new text

-- `text.replace(a + b, new)`, for two characters
unfoldable pub replace_pair : ℕ → ℕ → List ℕ → List ℕ → List ℕ
replace_pair a b new [] = []
replace_pair a b new (c ∷ []) = c ∷ []
replace_pair a b new (c ∷ d ∷ text) = elim ((c == a) && (d == b)) [
  | true ↦ new ++ replace_pair a b new text
  | false ↦ c ∷ replace_pair a b new (d ∷ text)
]

-- `text.split(c)`, for one character
unfoldable pub split : ℕ → List ℕ → List (List ℕ)
split c [] = [] ∷ []
split c (d ∷ text) = elim (d == c) [
  | true ↦ [] ∷ split c text
  | false ↦ elim (split c text) [ [] ↦ (d ∷ []) ∷ [] | piece ∷ pieces ↦ (d ∷ piece) ∷ pieces ]
]

-- `separator.join(pieces)`
unfoldable pub join : List ℕ → List (List ℕ) → List ℕ
join separator [] = []
join separator (piece ∷ []) = piece
join separator (piece ∷ piece' ∷ pieces) = piece ++ (separator ++ join separator (piece' ∷ pieces))

-- `text.lstrip(...)`, for the characters that a test holds of
unfoldable pub strip_left : (ℕ → Bool) → List ℕ → List ℕ
strip_left p [] = []
strip_left p (c ∷ text) = elim (p c) [ true ↦ strip_left p text | false ↦ c ∷ text ]

unfoldable pub strip_right : (ℕ → Bool) → List ℕ → List ℕ
strip_right p [] = []
strip_right p (c ∷ text) = elim (strip_right p text) [
  | [] ↦ if p c then [] else c ∷ []
  | d ∷ rest ↦ c ∷ d ∷ rest
]

-- `text.strip()`
unfoldable pub strip : List ℕ → List ℕ
unfolding is_space strip_left strip_right
strip text = strip_right is_space (strip_left is_space text)
