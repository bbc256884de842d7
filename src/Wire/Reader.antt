-- ===== src/Wire/Reader.antt =====
-- `Reader` of jornada/wire.py: a cursor over bytes. A method that raises leaves no reader: every
-- caller gives it up.
use jornada_link.Common.{
  ℕ, ◌+◌, ◌*◌, Option, none, some, List, take, drop, length, ltb, ◌==◌, if◌then◌else◌, not,
}
use jornada_link.Common.Bits.{from_le}
use jornada_link.Common.Result.{Result, ok, err}
use jornada_link.Wire.Utf16.{decode_utf16, before_nul}

-- `WireError`, with the size and the offset of the read that failed
pub data WireError : Type 0 where
  short : ℕ → ℕ → WireError

pub record Reader : Type 0 where
  pub bytes : List ℕ
  pub offset : ℕ

-- `Reader(data, offset)`
abbrev pub reader : List ℕ → ℕ → Reader
reader bytes offset = record { bytes = bytes; offset = offset }

abbrev pub Read {ℓ} : Type ℓ → Type ℓ
Read A = Reader → Result WireError (A × Reader)

infixl 5 ◌>>=◌ ◌>>◌
abbrev pub ◌>>=◌ {ℓ κ} : {A : Type ℓ} {B : Type κ} → Read A → (A → Read B) → Read B
◌>>=◌ m f r = elim (m r) [ err e ↦ err e | ok (a, r') ↦ f a r' ]

abbrev pub ◌>>◌ {ℓ κ} : {A : Type ℓ} {B : Type κ} → Read A → Read B → Read B
m >> k = m >>= λ _. k

abbrev pub pure {ℓ} : {A : Type ℓ} → A → Read A
pure a r = ok (a, r)

-- `self.offset += size`
abbrev pub advance : ℕ → Reader → Reader
advance n r = record r { offset = r.offset + n }

-- `take`; sizes come from unsigned fields, so `size < 0` does not arise
unfoldable pub read_bytes : ℕ → Read (List ℕ)
read_bytes size r =
    if ltb (length r.bytes) (r.offset + size)
    then err (short size r.offset)
    else ok (take size (drop r.offset r.bytes), advance size r)

unfoldable pub read_u16 : Read ℕ
read_u16 = do raw ← read_bytes 2; pure (from_le raw)

unfoldable pub read_u32 : Read ℕ
read_u32 = do raw ← read_bytes 4; pure (from_le raw)

unfoldable pub wchars : ℕ → Read (List ℕ)
wchars count = do raw ← read_bytes (count * 2); pure (before_nul (decode_utf16 raw))

unfoldable pub read_string : Read (List ℕ)
read_string = do length ← read_u32; wchars (length + 1)

-- `optional`
unfoldable pub read_optional : Read (Option (List ℕ))
read_optional = do
  has_parameter ← read_u32
  if not (has_parameter == 1) then pure none else do
    size ← read_u32
    has_value ← read_u32
    if not (has_value == 1) then pure none else do raw ← read_bytes size; pure (some raw)
