-- ===== src/Cedb/Unpack.antt =====
-- The unpacking half of jornada/cedb.py.
use jornada_link.Common.{
  ℕ, zero, suc, ◌+◌, ◌-◌, ◌*◌, ◌/◌, ◌%◌, ◌^◌, Bool, not, ◌&&◌, List, [], ◌∷◌, length, take, drop,
  ltb, leb, ◌==◌, if◌then◌else◌,
}
use jornada_link.Common.Bits.{from_le}
use jornada_link.Common.Result.{Result, ok, err, ◌>>=◌}
use jornada_link.Wire.Utf16.{decode_utf16}
use jornada_link.Cedb.{
  ℤ, pos, negsuc, Float64, Value, i2, i4, ui2, ui4, boolean, r8, filetime, string, blob, missing,
  raw_union, PropVal, propval_size, cevt_i2, cevt_i4, cevt_ui2, cevt_ui4, cevt_bool, cevt_r8,
  cevt_filetime, cevt_lpwstr, cevt_blob,
}

-- `CedbError` of the unpacking
pub data UnpackError : Type 0 where
  outside : ℕ → ℕ → UnpackError
  string_outside : ℕ → UnpackError
  too_short : ℕ → ℕ → UnpackError

-- `_slice`; offset and size come from unsigned fields.
unfoldable pub slice : List ℕ → ℕ → ℕ → Result UnpackError (List ℕ)
slice data_ offset size =
    if ltb (length data_) (offset + size)
    then err (outside offset size)
    else ok (take size (drop offset data_))

-- `raw[:end]`: the pairs of bytes before the first that is zero
unfoldable pub until_nul : List ℕ → List ℕ
until_nul (a ∷ b ∷ raw) =
    let rest = until_nul raw in if (a == 0) && (b == 0) then [] else a ∷ b ∷ rest
until_nul raw = []

-- `_read_wstr_at`
unfoldable pub read_wstr_at : List ℕ → ℕ → Result UnpackError (List ℕ)
unfolding until_nul
read_wstr_at data_ offset =
    if leb (length data_) offset
    then err (string_outside offset)
    else ok (decode_utf16 (until_nul (drop offset data_)))

-- `struct.unpack("<h", …)` and `struct.unpack("<i", …)`: the number of `bits` bits as a signed one
abbrev pub from_twos_complement : ℕ → ℕ → ℤ
from_twos_complement bits u = if ltb u (2 ^ (bits - 1)) then pos u else negsuc (2 ^ bits - 1 - u)

-- `flags & CEDB_PROPNOTFOUND`
abbrev pub not_found : ℕ → Bool
not_found flags = flags / 0x100 % 2 == 1

module _ {F : Float64} where
  abbrev text_of : Result UnpackError (List ℕ) → Result UnpackError (Value F)
  text_of r = r >>= λ text. ok (string text)

  abbrev blob_of : Result UnpackError (List ℕ) → Result UnpackError (Value F)
  blob_of r = r >>= λ bytes. ok (blob bytes)

  -- `_unpack_value`, for the eight bytes `val`
  unfoldable pub unpack_value : ℕ → List ℕ → List ℕ → Result UnpackError (Value F)
  unfolding slice read_wstr_at from_le
  unpack_value k val data_ =
      if k == cevt_lpwstr
      then text_of (read_wstr_at data_ (from_le (take 4 val)))
      else if k == cevt_blob
      then blob_of (slice data_ (from_le (drop 4 val)) (from_le (take 4 val)))
      else if k == cevt_i2
      then ok (i2 (from_twos_complement 16 (from_le (take 2 val))))
      else if k == cevt_ui2
      then ok (ui2 (pos (from_le (take 2 val))))
      else if k == cevt_i4
      then ok (i4 (from_twos_complement 32 (from_le (take 4 val))))
      else if k == cevt_ui4
      then ok (ui4 (pos (from_le (take 4 val))))
      else if k == cevt_bool
      then ok (boolean (not (from_le (take 4 val) == 0)))
      else if k == cevt_filetime
      then ok (filetime (pos (from_le (drop 4 val) * 2 ^ 32 + from_le (take 4 val))))
      else if k == cevt_r8
      then ok (r8 (F.unpack_double val))
      else ok (raw_union k val)

  -- one turn of the loop of `unpack_record`, for its sixteen bytes
  unfoldable pub unpack_entry : List ℕ → List ℕ → Result UnpackError (PropVal F)
  unfolding unpack_value
  unpack_entry entry data_ =
      let cepropid = from_le (take 4 entry) in
      let flags = from_le (take 2 (drop 6 entry)) in
      if not_found flags
      then ok (record {
        prop_id = cepropid / 2 ^ 16;
        value = missing (cepropid % 2 ^ 16);
        flags = flags;
      })
      else unpack_value (cepropid % 2 ^ 16) (drop 8 entry) data_ >>= λ v.
          ok (record { prop_id = cepropid / 2 ^ 16; value = v; flags = flags })

  -- the loop of `unpack_record`: `count` entries from `index` on
  unfoldable pub unpack_loop : List ℕ → ℕ → ℕ → Result UnpackError (List (PropVal F))
  unfolding unpack_entry
  unpack_loop data_ index zero = ok []
  unpack_loop data_ index (suc count) =
      unpack_entry (take propval_size (drop (index * propval_size) data_)) data_ >>= λ prop.
      unpack_loop data_ (suc index) count >>= λ props. ok (prop ∷ props)

  unfoldable pub unpack_record : List ℕ → ℕ → Result UnpackError (List (PropVal F))
  unfolding unpack_loop
  unpack_record data_ count =
      if ltb (length data_) (count * propval_size)
      then err (too_short count (length data_))
      else unpack_loop data_ 0 count
