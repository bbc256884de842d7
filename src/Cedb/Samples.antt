-- ===== src/Cedb/Samples.antt =====
-- A database record for the tests of several modules.
use jornada_link.Common.{ℕ, List, [], ◌∷◌, All, arith, refl}
use jornada_link.Common.Result.{ok, err}
use jornada_link.Cedb.{Float64, IsExact, i2, string, blob, negsuc, PropVal}
use jornada_link.Cedb.Pack.{pack_record}
use jornada_link.Cedb.RoundTrip.{IsStored}

-- One double, of eight zeros.
abbrev pub one_float : Float64
one_float = record {
  Float = Unit {0};
  pack_double = λ x. 0 ∷ 0 ∷ 0 ∷ 0 ∷ 0 ∷ 0 ∷ 0 ∷ 0 ∷ [];
  unpack_double = λ bytes. tt;
}

pub one_float-IsExact : IsExact one_float
one_float-IsExact = record { length_pack = λ x. refl; unpack_pack = λ x. refl }

-- A string, a blob and a negative number.
abbrev pub contact : List (PropVal one_float)
contact =
    record { prop_id = 0x4013; value = string (b'A' ∷ b'b' ∷ []); flags = 0 }
    ∷ record { prop_id = 0x4017; value = blob (1 ∷ 2 ∷ 3 ∷ []); flags = 0 }
    ∷ record { prop_id = 7; value = i2 (negsuc 4); flags = 0 }
    ∷ []

pub contact-IsStored : All IsStored contact
contact-IsStored = ground arith

abbrev pub contact_bytes : List ℕ
contact_bytes = elim (pack_record contact) [ ok bytes ↦ bytes | err e ↦ [] ]
