-- ===== src/Cedb/Examples.antt =====
-- Tests of the records, and their theorems at concrete inputs.
use jornada_link.Common.{◌<◌, ◌^◌, ◌≡◌, refl, List, [], ◌∷◌, length, take, drop, arith}
use jornada_link.Common.Result.{ok, ◌>>=◌}
use jornada_link.Common.Bits.{le_bytes, from_le}
use jornada_link.Wire.Encode.{u16, u32, wstr}
use jornada_link.Wire.Utf16.{encode_utf16}
use jornada_link.Cedb.{i2, pos, PropVal}
use jornada_link.Cedb.Pack.{pack_record, pack_loop, zeros}
use jornada_link.Cedb.Unpack.{unpack_record, unpack_loop, unpack_entry, unpack_value}
use jornada_link.Cedb.RoundTrip.{unpack_record-pack_record}
use jornada_link.Cedb.Samples.{
  one_float, one_float-IsExact, contact, contact-IsStored, contact_bytes,
}

pack_record-contact : pack_record contact ≡ ok contact_bytes
unfolding pack_record pack_loop zeros u32 u16 wstr encode_utf16 le_bytes
pack_record-contact = refl

contact-small : length contact_bytes < 2 ^ 32
unfolding pack_record pack_loop zeros u32 u16 wstr encode_utf16 le_bytes
contact-small = omega arith

unpack_record-pack_record_example : unpack_record contact_bytes 3 ≡ ok contact
unpack_record-pack_record_example =
    unpack_record-pack_record one_float-IsExact contact contact_bytes contact-IsStored
      pack_record-contact contact-small

-- A value of type I2 beyond 16 bits is packed, and comes back as another one.
abbrev too_large : List (PropVal one_float)
too_large = record { prop_id = 7; value = i2 (pos 70000); flags = 0 } ∷ []

too_large_back :
    (pack_record too_large >>= λ bytes. ok (unpack_record {F = one_float} bytes 1))
    ≡ ok (ok (record { prop_id = 7; value = i2 (pos 4464); flags = 0 } ∷ []))
unfolding pack_record pack_loop zeros u32 u16 le_bytes from_le take drop unpack_record unpack_loop
    unpack_entry unpack_value
too_large_back = refl
