-- ===== src/Cedb/Pack.antt =====
-- The packing half of jornada/cedb.py.
use jornada_link.Common.{
  ℕ, zero, suc, any, ◌+◌, ◌-◌, ◌*◌, ◌/◌, ◌%◌, ◌^◌, Bool, false, List, [], ◌∷◌, ◌++◌, length, leb,
  ◌==◌, if◌then◌else◌,
}
use jornada_link.Common.Result.{Result, ok, err, ◌>>=◌}
use jornada_link.Wire.Encode.{u16, u32, wstr}
use jornada_link.Cedb.{
  ℤ, pos, negsuc, Float64, Value, i2, i4, ui2, ui4, boolean, r8, filetime, string, blob, missing,
  raw_union, PropVal, kind, align, propid, propval_size, cevt_i2, cevt_i4, cevt_ui2, cevt_ui4,
  cevt_bool, cevt_r8, cevt_filetime, cevt_lpwstr, cevt_blob,
}

-- `bytes(n)`
unfoldable pub zeros : ℕ → List ℕ
zeros zero = []
zeros (suc n) = 0 ∷ zeros n

-- What packing raises: `CedbError` for a type that cannot be packed or a value out of range, and the
-- TypeError or AttributeError of a None where a value is needed.
pub data PackError : Type 0 where
  cannot_pack : ℕ → ℕ → PackError
  out_of_range : ℕ → ℤ → PackError
  no_value : ℕ → PackError

-- `low <= value <= high`, for a range of 32 bits with its sign
abbrev pub fits_signed : ℤ → Bool
fits_signed (pos n) = leb n 0x7FFFFFFF
fits_signed (negsuc n) = leb n 0x7FFFFFFF

-- the same from 0 on
abbrev pub fits_unsigned : ℕ → ℤ → Bool
fits_unsigned high (pos n) = leb n high
fits_unsigned high (negsuc n) = false

-- a number modulo `2 ^ 32`, as `struct.pack("<i", …)` writes it
abbrev pub twos_complement : ℤ → ℕ
twos_complement (pos n) = n
twos_complement (negsuc n) = 2 ^ 32 - suc n

-- a number that is not negative
abbrev pub magnitude : ℤ → ℕ
magnitude (pos n) = n
magnitude (negsuc n) = 0

abbrev signed : ℕ → ℤ → Result PackError (List ℕ)
signed id v =
    if fits_signed v then ok (u32 (twos_complement v) ++ u32 0) else err (out_of_range id v)

abbrev unsigned : ℕ → ℤ → Result PackError (List ℕ)
unsigned id v =
    if fits_unsigned 0xFFFFFFFF v then ok (u32 (magnitude v) ++ u32 0) else err (out_of_range id v)

-- What comes of None: `bool` takes it, no other conversion does.
abbrev pack_missing : ℕ → ℕ → Result PackError (List ℕ)
pack_missing id k =
    if k == cevt_bool
    then ok (u32 0 ++ u32 0)
    else if any (λ j. k == j)
        (cevt_lpwstr ∷ cevt_blob ∷ cevt_i2 ∷ cevt_i4 ∷ cevt_ui2 ∷ cevt_ui4 ∷ cevt_filetime ∷ cevt_r8
          ∷ [])
    then err (no_value id)
    else err (cannot_pack id k)

module _ {F : Float64} where
  -- `_payload_size`; the length of None raises.
  abbrev pub payload : Value F → List ℕ
  payload (string v) = wstr v
  payload (blob v) = v
  payload v = []

  -- `_pack_value`
  abbrev pub pack_value : ℕ → Value F → ℕ → Result PackError (List ℕ)
  pack_value id (string v) offset = ok (u32 offset ++ u32 0)
  pack_value id (blob v) offset = ok (u32 (length v) ++ u32 offset)
  pack_value id (i2 v) offset = signed id v
  pack_value id (i4 v) offset = signed id v
  pack_value id (ui2 v) offset = unsigned id v
  pack_value id (ui4 v) offset = unsigned id v
  pack_value id (boolean v) offset = ok (u32 (if v then 1 else 0) ++ u32 0)
  pack_value id (filetime v) offset =
      if fits_unsigned 0xFFFFFFFFFFFFFFFF v
      then ok (u32 (magnitude v % 2 ^ 32) ++ u32 (magnitude v / 2 ^ 32))
      else err (out_of_range id v)
  pack_value id (r8 v) offset = ok (F.pack_double v)
  pack_value id (missing k) offset = pack_missing id k
  pack_value id (raw_union k v) offset = err (cannot_pack id k)

  -- The part of the header for one property.
  abbrev pub pack_entry : PropVal F → ℕ → Result PackError (List ℕ)
  pack_entry prop offset =
      pack_value prop.prop_id prop.value (if length (payload prop.value) == 0 then 0 else offset)
      >>= λ union.
          ok (u32 (propid prop.prop_id (kind prop.value)) ++ (u16 0 ++ (u16 prop.flags ++ union)))

  -- A payload with the zeros up to the next offset.
  abbrev pub padded : Value F → ℕ → List ℕ
  padded v offset =
      payload v ++ zeros (align (offset + length (payload v)) - offset - length (payload v))

  -- The loop of `pack_record`: what it adds to `header` and to `payloads`.
  unfoldable pub pack_loop : List (PropVal F) → ℕ → Result PackError (List ℕ × List ℕ)
  pack_loop [] offset = ok ([], [])
  pack_loop (prop ∷ props) offset = pack_entry prop offset >>= λ entry.
      pack_loop props (align (offset + length (payload prop.value))) >>= λ rest.
      ok (entry ++ rest.0, padded prop.value offset ++ rest.1)

  unfoldable pub pack_record : List (PropVal F) → Result PackError (List ℕ)
  unfolding pack_loop
  pack_record props =
      pack_loop props (align (length props * propval_size)) >>= λ parts. ok (parts.0 ++ parts.1)
