-- ===== src/Wire/Utf16/RoundTrip.antt =====
-- Texts survive UTF-16.
use jornada_link.Common.{
  ℕ, ◌+◌, ◌-◌, ◌*◌, ◌/◌, ◌%◌, ◌<◌, ◌≤◌, ◌≡◌, refl, true, false, List, [], ◌∷◌, ◌++◌, All-append,
  arith, ltb, length, length-append, ap, append_assoc, Bool-cases, inl, inr,
}
use jornada_link.Common.Bits.{le_bytes, AreBytes, IsByte, le_bytes-AreBytes}
use jornada_link.Wire.Utf16.{is_scalar, IsText, text_units, units_bytes, encode_utf16, decode_utf16}

bytes_unit : (u : ℕ) → u < 0x10000 → u % 256 + 256 * (u / 256 % 256) ≡ u
bytes_unit u h = omega arith

decode-unit :
    (u : ℕ) (rest : List ℕ)
    → is_scalar u ≡ true
    → u < 0x10000
    → decode_utf16 (le_bytes 2 u ++ rest) ≡ u ∷ decode_utf16 rest
unfolding decode_utf16 le_bytes
decode-unit u [] h small = ground (arith, bytes_unit u)
decode-unit u (c ∷ []) h small = ground (arith, bytes_unit u)
decode-unit u (c ∷ d ∷ rest) h small = ground (arith, bytes_unit u)

decode-pair :
    (high low : ℕ) (rest : List ℕ)
    → 0xD800 ≤ high
    → high < 0xDC00
    → 0xDC00 ≤ low
    → low < 0xE000
    → decode_utf16 (le_bytes 2 high ++ (le_bytes 2 low ++ rest))
      ≡ (0x10000 + (high - 0xD800) * 0x400 + (low - 0xDC00)) ∷ decode_utf16 rest
unfolding decode_utf16 le_bytes
decode-pair high low rest h1 h2 h3 h4 = ground (arith, bytes_unit high, bytes_unit low)

pub decode-nul : (rest : List ℕ) → decode_utf16 (0 ∷ 0 ∷ rest) ≡ 0 ∷ decode_utf16 rest
unfolding le_bytes
decode-nul rest = decode-unit 0 rest refl (omega arith)

units_bytes-append : (us vs : List ℕ) → units_bytes (us ++ vs) ≡ units_bytes us ++ units_bytes vs
unfolding units_bytes
units_bytes-append [] vs = refl
units_bytes-append (u ∷ us) vs = rw (units_bytes-append us vs, ← append_assoc)

units_bytes-AreBytes : (us : List ℕ) → AreBytes (units_bytes us)
unfolding units_bytes
units_bytes-AreBytes [] = tt
units_bytes-AreBytes (u ∷ us) =
    All-append IsByte (le_bytes 2 u) (units_bytes us) (le_bytes-AreBytes 2 u)
      (units_bytes-AreBytes us)

pub encode_utf16-AreBytes : (text : List ℕ) → AreBytes (encode_utf16 text)
unfolding encode_utf16
encode_utf16-AreBytes text = units_bytes-AreBytes (text_units text)

encode-cons_small :
    (c : ℕ) (text : List ℕ)
    → ltb c 0x10000 ≡ true
    → encode_utf16 (c ∷ text) ≡ le_bytes 2 c ++ encode_utf16 text
unfolding encode_utf16
encode-cons_small c text e = rw e

abbrev high_of : ℕ → ℕ
high_of c = 0xD800 + (c - 0x10000) / 0x400

abbrev low_of : ℕ → ℕ
low_of c = 0xDC00 + (c - 0x10000) % 0x400

encode-cons_large :
    (c : ℕ) (text : List ℕ)
    → ltb c 0x10000 ≡ false
    → encode_utf16 (c ∷ text)
      ≡ le_bytes 2 (high_of c) ++ (le_bytes 2 (low_of c) ++ encode_utf16 text)
unfolding encode_utf16
encode-cons_large c text e = rw e

joined : (c : ℕ) → 0x10000 ≤ c → 0x10000 + (high_of c - 0xD800) * 0x400 + (low_of c - 0xDC00) ≡ c
joined c h = omega arith

-- With any bytes behind it, an encoded text is decoded first.
pub decode-encode-append :
    (text rest : List ℕ)
    → IsText text
    → decode_utf16 (encode_utf16 text ++ rest) ≡ text ++ decode_utf16 rest
decode-encode-append [] rest h = unfold encode_utf16 in refl
decode-encode-append (c ∷ text) rest h = elim (Bool-cases (ltb c 0x10000)) [
  | inl e ↦
      rw
        (
          encode-cons_small c text e,
          append_assoc,
          decode-unit c (encode_utf16 text ++ rest) h.0 (ground arith),
        )
        (ap (◌∷◌ c) (decode-encode-append text rest h.1))
  | inr e ↦
      rw
        (
          encode-cons_large c text e,
          append_assoc,
          append_assoc,
          decode-pair (high_of c) (low_of c) (encode_utf16 text ++ rest) (omega arith)
              (ground arith) (omega arith) (omega arith),
          joined c (ground arith),
        )
        (ap (◌∷◌ c) (decode-encode-append text rest h.1))
]

-- The bytes of a text come in pairs.
pub length-encode_utf16 :
    (text : List ℕ) → length (encode_utf16 text) ≡ 2 * length (text_units text)
unfolding encode_utf16 units_bytes le_bytes
length-encode_utf16 text = go (text_units text)
  where
    go : (us : List ℕ) → length (units_bytes us) ≡ 2 * length us
    go [] = refl
    go (u ∷ us) = omega (arith, length-append (le_bytes 2 u) (units_bytes us), go us)
