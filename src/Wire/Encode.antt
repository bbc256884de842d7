-- ===== src/Wire/Encode.antt =====
-- The encoders of jornada/wire.py. They are pure functions into bytes.
use jornada_link.Common.{ℕ, ◌/◌, ◌%◌, ◌^◌, Option, none, some, List, [], ◌∷◌, ◌++◌, length}
use jornada_link.Common.Bits.{le_bytes}
use jornada_link.Wire.Utf16.{encode_utf16}

-- `value & 0xFFFF`, `value & 0xFFFFFFFF`, packed in little-endian order
unfoldable pub u16 : ℕ → List ℕ
u16 value = le_bytes 2 (value % 2 ^ 16)

unfoldable pub u32 : ℕ → List ℕ
u32 value = le_bytes 4 (value % 2 ^ 32)

unfoldable pub wstr : List ℕ → List ℕ
wstr text = encode_utf16 text ++ (0 ∷ 0 ∷ [])

unfoldable pub string : Option (List ℕ) → List ℕ
string none = u32 0
string (some text) = u32 1 ++ (u32 (length (wstr text) / 2) ++ wstr text)

unfoldable pub optional_string : Option (List ℕ) → List ℕ
optional_string none = u32 0
optional_string (some text) = u32 1 ++ (u32 (length (wstr text)) ++ (u32 1 ++ wstr text))

unfoldable pub optional_in : Option (List ℕ) → List ℕ
optional_in none = u32 0
optional_in (some bytes) = u32 1 ++ (u32 (length bytes) ++ bytes)

unfoldable pub optional_out : Option ℕ → List ℕ
optional_out none = u32 0
optional_out (some size) = u32 1 ++ (u32 size ++ u32 0)

unfoldable pub frame : List ℕ → List ℕ
frame payload = u32 (length payload) ++ payload
