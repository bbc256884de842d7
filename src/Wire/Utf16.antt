-- ===== src/Wire/Utf16.antt =====
-- Texts as sequences of code points, and Python's UTF-16-LE codec on them.
pub mod RoundTrip
use jornada_link.Common.{
  ℕ, zero, suc, ◌+◌, ◌-◌, ◌*◌, ◌/◌, ◌%◌, ◌<◌, ◌≡◌, ◌≢◌, refl, Bool, true, false, ◌&&◌, ◌||◌, List,
  [], ◌∷◌, ◌++◌, All, arith, ltb, leb, ◌==◌, if◌then◌else◌, length, length-append, ap,
}
use jornada_link.Common.Bits.{le_bytes}

-- A scalar value. A Python text may hold lone surrogates too; `encode` raises for those.
abbrev pub is_scalar : ℕ → Bool
is_scalar c = ltb c 0xD800 || (leb 0xE000 c && ltb c 0x110000)

abbrev pub IsText : List ℕ → Type 0
IsText = All (λ c. is_scalar c ≡ true)

-- The code units of a code point.
unfoldable pub char_units : ℕ → List ℕ
char_units c =
    if ltb c 0x10000
    then c ∷ []
    else (0xD800 + (c - 0x10000) / 0x400) ∷ (0xDC00 + (c - 0x10000) % 0x400) ∷ []

unfoldable pub text_units : List ℕ → List ℕ
unfolding char_units
text_units [] = []
text_units (c ∷ text) = char_units c ++ text_units text

unfoldable pub units_bytes : List ℕ → List ℕ
units_bytes [] = []
units_bytes (u ∷ units) = le_bytes 2 u ++ units_bytes units

-- `text.encode("utf-16-le")`
unfoldable pub encode_utf16 : List ℕ → List ℕ
unfolding text_units units_bytes
encode_utf16 text = units_bytes (text_units text)

abbrev is_high : ℕ → Bool
is_high u = leb 0xD800 u && ltb u 0xDC00

abbrev is_low : ℕ → Bool
is_low u = leb 0xDC00 u && ltb u 0xE000

abbrev join_surrogates : ℕ → ℕ → ℕ
join_surrogates high low = 0x10000 + (high - 0xD800) * 0x400 + (low - 0xDC00)

-- The decoder over bytes with `errors="replace"`: a code unit that stands alone where a pair is
-- needed, and a last odd byte, become U+FFFD; a high surrogate at the end takes an odd byte along.
unfoldable pub decode_utf16 : List ℕ → List ℕ
decode_utf16 [] = []
decode_utf16 (a ∷ []) = 0xFFFD ∷ []
decode_utf16 (a ∷ b ∷ []) =
    let u = a + 256 * b in (if is_high u || is_low u then 0xFFFD else u) ∷ []
decode_utf16 (a ∷ b ∷ c ∷ []) =
    let u = a + 256 * b in
    if is_high u then 0xFFFD ∷ [] else (if is_low u then 0xFFFD else u) ∷ 0xFFFD ∷ []
decode_utf16 (a ∷ b ∷ c ∷ d ∷ rest) =
    let u = a + 256 * b in
    let v = c + 256 * d in
    let after_pair = decode_utf16 rest in
    let after_unit = decode_utf16 (c ∷ d ∷ rest) in
    if is_high u
    then (if is_low v then join_surrogates u v ∷ after_pair else 0xFFFD ∷ after_unit)
    else (if is_low u then 0xFFFD else u) ∷ after_unit

-- `.split("\x00", 1)[0]`
unfoldable pub before_nul : List ℕ → List ℕ
before_nul [] = []
before_nul (c ∷ text) = let rest = before_nul text in if c == 0 then [] else c ∷ rest
