-- ===== src/Wire/Examples.antt =====
-- Tests of the wire format, and its theorems at concrete inputs.
use jornada_link.Common.{ℕ, ◌≡◌, refl, some, List, [], ◌∷◌, ◌++◌, drop, arith}
use jornada_link.Common.Bits.{le_bytes}
use jornada_link.Common.Result.{ok}
use jornada_link.Wire.Utf16.{encode_utf16, decode_utf16, text_units}
use jornada_link.Wire.Encode.{u32, wstr, string, optional_string, optional_out}
use jornada_link.Wire.Reader.{Reader, reader, read_optional, read_string}
use jornada_link.Wire.RoundTrip.{Ahead, read_optional-optional_string, read_string-wstr}

abbrev hi : List ℕ
hi = b'H' ∷ b'i' ∷ []

abbrev tail : List ℕ
tail = 7 ∷ 7 ∷ []

wstr-hi : wstr hi ≡ b'H' ∷ 0 ∷ b'i' ∷ 0 ∷ 0 ∷ 0 ∷ []
unfolding wstr encode_utf16 le_bytes
wstr-hi = refl

-- A text outside the basic plane takes two code units; a lone surrogate is replaced.
surrogates : encode_utf16 (0x1F600 ∷ []) ≡ 0x3D ∷ 0xD8 ∷ 0x00 ∷ 0xDE ∷ []
unfolding encode_utf16 le_bytes
surrogates = refl

lone_surrogate : decode_utf16 (0x3D ∷ 0xD8 ∷ b'A' ∷ 0 ∷ b'B' ∷ []) ≡ 0xFFFD ∷ b'A' ∷ 0xFFFD ∷ []
unfolding decode_utf16
lone_surrogate = refl

string-hi : string (some hi) ≡ u32 1 ++ (u32 3 ++ wstr hi)
unfolding string wstr encode_utf16 le_bytes
string-hi = refl

optional-Ahead :
    Ahead (reader (optional_string (some hi) ++ tail) 0) (optional_string (some hi) ++ tail)
unfolding drop
optional-Ahead = record { inside = omega arith; rest = refl }

read_optional-optional_string_example :
    (r' : Reader) × (read_optional (reader (optional_string (some hi) ++ tail) 0)
      ≡ ok (some (wstr hi), r'))
    × Ahead r' tail
unfolding wstr encode_utf16 le_bytes
read_optional-optional_string_example =
    read_optional-optional_string hi tail (omega arith) optional-Ahead

out-Ahead : Ahead (reader (optional_out (some 24) ++ tail) 0) (optional_out (some 24) ++ tail)
unfolding drop
out-Ahead = record { inside = omega arith; rest = refl }

string-Ahead : Ahead (reader (u32 2 ++ (wstr hi ++ tail)) 0) (u32 2 ++ (wstr hi ++ tail))
unfolding drop
string-Ahead = record { inside = omega arith; rest = refl }

read_string-wstr_example :
    (r' : Reader) × (read_string (reader (u32 2 ++ (wstr hi ++ tail)) 0) ≡ ok (hi, r'))
    × Ahead r' tail
unfolding text_units
read_string-wstr_example =
    read_string-wstr hi tail (refl, (refl, tt)) (refl, (refl, tt)) (omega arith) string-Ahead
