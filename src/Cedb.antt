-- ===== src/Cedb.antt =====
-- jornada/cedb.py: the records of the object store as they travel over RAPI.
pub mod Pack
pub mod Unpack
pub mod Values
pub mod RoundTrip
pub mod Samples
pub mod Examples
use jornada_link.Common.{
  ℕ, zero, suc, ◌+◌, ◌-◌, ◌*◌, ◌/◌, ◌%◌, ◌^◌, ◌≡◌, Bool, Option, none, some, List, [], ◌∷◌, length,
  ◌==◌, if◌then◌else◌,
}

pub data ℤ : Type 0 where
  pos : ℕ → ℤ
  negsuc : ℕ → ℤ

-- `struct.pack("<d", …)` and `struct.unpack("<d", …)` over some type of floats
pub record Float64 : Type 1 where
  pub Float : Type 0
  pub pack_double : Float → List ℕ
  pub unpack_double : List ℕ → Float

-- A double takes eight bytes, from which it is read back.
pub record IsExact (F : Float64) : Type 0 where
  pub length_pack : (x : F.Float) → length (F.pack_double x) ≡ 8
  pub unpack_pack : (x : F.Float) → F.unpack_double (F.pack_double x) ≡ x

abbrev pub cevt_i2 : ℕ
cevt_i2 = 2

abbrev pub cevt_i4 : ℕ
cevt_i4 = 3

abbrev pub cevt_r8 : ℕ
cevt_r8 = 5

abbrev pub cevt_bool : ℕ
cevt_bool = 11

abbrev pub cevt_ui2 : ℕ
cevt_ui2 = 18

abbrev pub cevt_ui4 : ℕ
cevt_ui4 = 19

abbrev pub cevt_lpwstr : ℕ
cevt_lpwstr = 31

abbrev pub cevt_filetime : ℕ
cevt_filetime = 64

abbrev pub cevt_blob : ℕ
cevt_blob = 65

abbrev pub propval_size : ℕ
propval_size = 16

-- `(size + 3) & ~3`
abbrev pub align : ℕ → ℕ
align size = (size + 3) / 4 * 4

-- `((prop_id & 0xFFFF) << 16) | (kind & 0xFFFF)`
abbrev pub propid : ℕ → ℕ → ℕ
propid prop_id kind = prop_id % 2 ^ 16 * 2 ^ 16 + kind % 2 ^ 16

-- The value of a property together with its CEVT type. `missing` is the None of a property that was
-- not found, `raw_union` the eight bytes that stand for a value of an unknown type.
pub data Value (F : Float64) : Type 0 where
  i2 : ℤ → Value F
  i4 : ℤ → Value F
  ui2 : ℤ → Value F
  ui4 : ℤ → Value F
  boolean : Bool → Value F
  r8 : F.Float → Value F
  filetime : ℤ → Value F
  string : List ℕ → Value F
  blob : List ℕ → Value F
  missing : ℕ → Value F
  raw_union : ℕ → List ℕ → Value F

pub record PropVal (F : Float64) : Type 0 where
  pub prop_id : ℕ
  pub value : Value F
  pub flags : ℕ

pub record Record (F : Float64) : Type 0 where
  pub oid : ℕ
  pub props : List (PropVal F)

module _ {F : Float64} where
  -- `PropVal.kind`
  abbrev pub kind : Value F → ℕ
  kind (i2 v) = cevt_i2
  kind (i4 v) = cevt_i4
  kind (ui2 v) = cevt_ui2
  kind (ui4 v) = cevt_ui4
  kind (boolean v) = cevt_bool
  kind (r8 v) = cevt_r8
  kind (filetime v) = cevt_filetime
  kind (string v) = cevt_lpwstr
  kind (blob v) = cevt_blob
  kind (missing k) = k
  kind (raw_union k v) = k

  -- the loop of `Record.get`
  unfoldable pub find : List (PropVal F) → ℕ → Option (PropVal F)
  find [] prop_id = none
  find (prop ∷ props) prop_id =
      let later = find props prop_id in if prop.prop_id == prop_id then some prop else later

  -- `Record.get`
  abbrev pub get : Record F → ℕ → Option (PropVal F)
  get r prop_id = find r.props prop_id
