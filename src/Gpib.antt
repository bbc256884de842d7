-- ===== src/Gpib.antt =====
-- jornada/gpib.py: the client of the GPIB gateway. Texts are lists of code points.
pub mod Session
pub mod Lines
pub mod Examples
use jornada_link.Common.{
  ℕ, zero, suc, ◌+◌, ◌-◌, ◌*◌, ◌/◌, ◌%◌, Bool, true, false, not, ◌&&◌, ◌||◌, Option, none, some,
  List, [], ◌∷◌, ◌++◌, map, any, length, ltb, leb, ◌==◌, if◌then◌else◌,
}

abbrev pub lf : ℕ
lf = 0x0A

abbrev pub cr : ℕ
cr = 0x0D

abbrev pub esc : ℕ
esc = 0x1B

abbrev pub plus : ℕ
plus = 0x2B

abbrev pub is_special : ℕ → Bool
is_special b = b == lf || (b == cr || (b == esc || b == plus))

unfoldable pub escape : List ℕ → List ℕ
escape [] = []
escape (b ∷ payload) =
    let rest = escape payload in if is_special b then esc ∷ b ∷ rest else b ∷ rest

-- `line.encode("ascii", "replace")`
unfoldable pub encode_ascii : List ℕ → List ℕ
encode_ascii = map (λ c. if ltb c 0x80 then c else b'?')

-- `data.decode("ascii", "replace")`
unfoldable pub decode_ascii : List ℕ → List ℕ
decode_ascii = map (λ b. if ltb b 0x80 then b else 0xFFFD)

-- `text.rstrip("\r\n")`
unfoldable pub strip_line_end : List ℕ → List ℕ
strip_line_end [] = []
strip_line_end (c ∷ text) = elim (strip_line_end text) [
  | [] ↦ if c == cr || c == lf then [] else c ∷ []
  | d ∷ rest ↦ c ∷ d ∷ rest
]

-- `line.startswith("++")`
abbrev pub is_command : List ℕ → Bool
is_command (a ∷ b ∷ rest) = a == plus && b == plus
is_command line = false

-- What `send_line` sends.
abbrev pub line_bytes : List ℕ → List ℕ
line_bytes line =
    (if is_command line then encode_ascii line else escape (encode_ascii line)) ++ (lf ∷ [])

-- The decimal digits of a number, as `f"{n}"` writes them; `n` has fewer than `fuel` of them.
unfoldable pub digits : ℕ → ℕ → List ℕ
digits zero n = []
digits (suc fuel) n =
    let higher = digits fuel (n / 10) in
    if ltb n 10 then (b'0' + n) ∷ [] else higher ++ ((b'0' + n % 10) ∷ [])

unfoldable pub decimal : ℕ → List ℕ
unfolding digits
decimal n = digits (suc n) n
