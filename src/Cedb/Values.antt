-- ===== src/Cedb/Values.antt =====
-- Each value of a record is read back from the eight bytes that stand for it, and its payload.
use jornada_link.Common.{
  ℕ, suc, ◌+◌, ◌*◌, ◌/◌, ◌%◌, ◌^◌, ◌≤◌, ◌<◌, ◌≡◌, refl, sym, ap, ◌∙◌, true, false, List, [], ◌∷◌,
  ◌++◌, append_assoc, append-nil, length, take, drop, length-append, length-drop,
  take-length-append, drop-length-append, drop-add, All, arith, ltb, leb,
}
use jornada_link.Common.Bits.{le_bytes, from_le}
use jornada_link.Common.Result.{ok}
use jornada_link.Wire.RoundTrip.{length-u32, from_le-u32}
use jornada_link.Wire.Utf16.{
  IsText, encode_utf16, decode_utf16, text_units, units_bytes, char_units,
}
use jornada_link.Wire.Utf16.RoundTrip.{decode-encode-append}
use jornada_link.Wire.RoundTrip.{NoNul}
use jornada_link.Wire.Encode.{u32, wstr}
use jornada_link.Cedb.{
  ℤ, pos, negsuc, Float64, IsExact, Value, i2, i4, ui2, ui4, boolean, r8, filetime, string, blob,
  missing, raw_union, kind,
}
use jornada_link.Cedb.Pack.{
  payload, pack_value, twos_complement, fits_signed, fits_unsigned, magnitude,
}
use jornada_link.Cedb.Unpack.{slice, until_nul, read_wstr_at, from_twos_complement, unpack_value}

-- The bytes lie in the data at this offset.
pub record Holds (data_ : List ℕ) (offset : ℕ) (bytes : List ℕ) : Type 0 where
  pub behind : List ℕ
  pub inside : offset ≤ length data_
  pub there : drop offset data_ ≡ bytes ++ behind

module _ {data_ : List ℕ} {offset : ℕ} where
  pub Holds-room :
      (bytes : List ℕ) → Holds data_ offset bytes → offset + length bytes ≤ length data_
  Holds-room bytes h = omega (
    arith,
    h.inside,
    length-drop offset data_ h.inside,
    ap length h.there,
    length-append bytes h.behind,
  )

  pub Holds-left : (xs ys : List ℕ) → Holds data_ offset (xs ++ ys) → Holds data_ offset xs
  Holds-left xs ys h = record {
    behind = ys ++ h.behind;
    inside = h.inside;
    there = h.there ∙ append_assoc xs ys h.behind;
  }

  pub Holds-right :
      (xs ys : List ℕ) → Holds data_ offset (xs ++ ys) → Holds data_ (offset + length xs) ys
  Holds-right xs ys h = record {
    behind = h.behind;
    inside = omega (arith, Holds-room (xs ++ ys) h, length-append xs ys);
    there =
        drop-add offset (length xs) data_
        ∙ ap (drop (length xs)) (h.there ∙ append_assoc xs ys h.behind)
        ∙ drop-length-append xs (ys ++ h.behind);
  }

  pub Holds-take :
      (bytes : List ℕ) → Holds data_ offset bytes → take (length bytes) (drop offset data_) ≡ bytes
  Holds-take bytes h = ap (take (length bytes)) h.there ∙ take-length-append bytes h.behind

pub take-u32 : (v : ℕ) (rest : List ℕ) → take 4 (u32 v ++ rest) ≡ u32 v
unfolding u32 le_bytes take
take-u32 v rest = refl

pub drop-u32 : (v : ℕ) (rest : List ℕ) → drop 4 (u32 v ++ rest) ≡ rest
unfolding u32 le_bytes drop
drop-u32 v rest = refl

-- The low half of four bytes.
take_two-u32 : (v : ℕ) (rest : List ℕ) → from_le (take 2 (u32 v ++ rest)) ≡ v % 2 ^ 16
unfolding u32 le_bytes take from_le
take_two-u32 v rest = omega arith

not_beyond : {n m : ℕ} → n ≤ m → ltb m n ≡ false
not_beyond h = ground arith

-- A slice that lies in the data is what lies there.
slice-Holds :
    (data_ : List ℕ) (offset : ℕ) (bytes : List ℕ)
    → Holds data_ offset bytes
    → slice data_ offset (length bytes) ≡ ok bytes
unfolding slice
slice-Holds data_ offset bytes h = rw (Holds-take bytes h, not_beyond (Holds-room bytes h)) refl

-- The code units of a text without NUL.
abbrev AreUnits : List ℕ → Type 0
AreUnits = All (λ u. (0 < u) × (u < 0x10000))

until_nul-units :
    (units rest : List ℕ)
    → AreUnits units
    → until_nul (units_bytes units ++ (0 ∷ 0 ∷ rest)) ≡ units_bytes units
unfolding until_nul units_bytes le_bytes
until_nul-units [] rest h = refl
until_nul-units (u ∷ units) rest h = ground (arith, until_nul-units units rest h.1)

text_units-AreUnits : (text : List ℕ) → IsText text → NoNul text → AreUnits (text_units text)
unfolding text_units char_units
text_units-AreUnits [] h n = tt
text_units-AreUnits (c ∷ text) h n = ground (arith, text_units-AreUnits text h.1 n.1)

not_outside : (offset size total : ℕ) → 2 ≤ size → offset + size ≤ total → leb total offset ≡ false
not_outside offset size total h k = ground arith

wstr-longer : (text : List ℕ) → 2 ≤ length (wstr text)
unfolding wstr
wstr-longer text = omega (arith, length-append (encode_utf16 text) (0 ∷ 0 ∷ []))

until_nul-wstr :
    (text rest : List ℕ)
    → IsText text
    → NoNul text
    → until_nul (wstr text ++ rest) ≡ encode_utf16 text
unfolding wstr encode_utf16
until_nul-wstr text rest h n =
    ap until_nul (append_assoc (encode_utf16 text) (0 ∷ 0 ∷ []) rest)
    ∙ until_nul-units (text_units text) rest (text_units-AreUnits text h n)

decode-text : (text : List ℕ) → IsText text → decode_utf16 (encode_utf16 text) ≡ text
unfolding decode_utf16
decode-text text h =
    ap decode_utf16 (sym (append-nil (encode_utf16 text)))
    ∙ decode-encode-append text [] h
    ∙ append-nil text

-- A text that lies in the data is read.
read_wstr_at-Holds :
    (data_ : List ℕ) (offset : ℕ) (text : List ℕ)
    → IsText text
    → NoNul text
    → Holds data_ offset (wstr text)
    → read_wstr_at data_ offset ≡ ok text
unfolding read_wstr_at
read_wstr_at-Holds data_ offset text h n held = rw (
  not_outside offset _ _ (wstr-longer text) (Holds-room (wstr text) held),
  held.there,
  until_nul-wstr text held.behind h n,
  decode-text text h,
)

-- A signed number of `suc bits` bits.
abbrev pub IsSigned : ℕ → ℤ → Type 0
IsSigned bits (pos n) = n < 2 ^ bits
IsSigned bits (negsuc n) = n < 2 ^ bits

-- An unsigned number of `bits` bits.
abbrev pub IsUnsigned : ℕ → ℤ → Type 0
IsUnsigned bits (pos n) = n < 2 ^ bits
IsUnsigned bits (negsuc n) = 1 ≤ 0

two-u32 : (a b : ℕ) → length (u32 a ++ u32 b) ≡ 8
two-u32 a b = omega (arith, length-append (u32 a) (u32 b), length-u32 a, length-u32 b)

signed-fits : (v : ℤ) → IsSigned 31 v → fits_signed v ≡ true
signed-fits (pos n) h = ground arith
signed-fits (negsuc n) h = ground arith

widen : (v : ℤ) → IsSigned 15 v → IsSigned 31 v
widen (pos n) h = omega arith
widen (negsuc n) h = omega arith

from_twos_complement_half :
    (v : ℤ) → IsSigned 15 v → from_twos_complement 16 (twos_complement v % 2 ^ 16) ≡ v
from_twos_complement_half (pos n) h = ground arith
from_twos_complement_half (negsuc n) h = ground arith

from_twos_complement_word :
    (v : ℤ) → IsSigned 31 v → from_twos_complement 32 (twos_complement v) ≡ v
from_twos_complement_word (pos n) h = ground arith
from_twos_complement_word (negsuc n) h = ground arith

twos_complement-lt : (v : ℤ) → IsSigned 31 v → twos_complement v < 2 ^ 32
twos_complement-lt (pos n) h = omega arith
twos_complement-lt (negsuc n) h = omega arith

unsigned-fits :
    (high bits : ℕ) (v : ℤ) → 2 ^ bits ≤ suc high → IsUnsigned bits v → fits_unsigned high v ≡ true
unsigned-fits high bits (pos n) le h = ground arith
unsigned-fits high bits (negsuc n) le h = absurd (omega arith)

magnitude-lt : (bits : ℕ) (v : ℤ) → IsUnsigned bits v → magnitude v < 2 ^ bits
magnitude-lt bits (pos n) h = h
magnitude-lt bits (negsuc n) h = absurd (omega arith)

pos-magnitude : (bits : ℕ) (v : ℤ) → IsUnsigned bits v → pos (magnitude v) ≡ v
pos-magnitude bits (pos n) h = refl
pos-magnitude bits (negsuc n) h = absurd (omega arith)

first-u32 : (a b : ℕ) → a < 2 ^ 32 → from_le (take 4 (u32 a ++ u32 b)) ≡ a
first-u32 a b h = ap from_le (take-u32 a (u32 b)) ∙ from_le-u32 a h

second-u32 : (a b : ℕ) → b < 2 ^ 32 → from_le (drop 4 (u32 a ++ u32 b)) ≡ b
second-u32 a b h = ap from_le (drop-u32 a (u32 b)) ∙ from_le-u32 b h

module _ {F : Float64} where
  -- The values that survive: numbers that their type can hold, texts without NUL, and no None.
  abbrev pub CanStore : Value F → Type 0
  CanStore (i2 v) = IsSigned 15 v
  CanStore (i4 v) = IsSigned 31 v
  CanStore (ui2 v) = IsUnsigned 16 v
  CanStore (ui4 v) = IsUnsigned 32 v
  CanStore (boolean v) = Unit
  CanStore (r8 v) = Unit
  CanStore (filetime v) = IsUnsigned 64 v
  CanStore (string v) = IsText v × NoNul v
  CanStore (blob v) = Unit
  CanStore (missing k) = 1 ≤ 0
  CanStore (raw_union k v) = 1 ≤ 0

  -- A value is packed, and read back where its payload lies at the offset.
  pub record Stored (id offset : ℕ) (v : Value F) : Type 0 where
    pub union : List ℕ
    pub packed : pack_value id v offset ≡ ok union
    pub size : length union ≡ 8
    pub back :
        (data_ : List ℕ)
        → length data_ < 2 ^ 32
        → Holds data_ offset (payload v)
        → unpack_value (kind v) union data_ ≡ ok v

  string-back :
      (data_ : List ℕ) (offset : ℕ) (text : List ℕ)
      → length data_ < 2 ^ 32
      → IsText text
      → NoNul text
      → Holds data_ offset (wstr text)
      → unpack_value {F = F} (kind {F = F} (string text)) (u32 offset ++ u32 0) data_
        ≡ ok (string text)
  unfolding unpack_value
  string-back data_ offset text small h n held = rw (
    take-u32 offset (u32 0),
    from_le-u32 offset (omega (arith, held.inside)),
    read_wstr_at-Holds data_ offset text h n held,
  )

  blob-back :
      (data_ : List ℕ) (offset : ℕ) (bytes : List ℕ)
      → length data_ < 2 ^ 32
      → Holds data_ offset bytes
      → unpack_value {F = F} (kind {F = F} (blob bytes)) (u32 (length bytes) ++ u32 offset) data_
        ≡ ok (blob bytes)
  unfolding unpack_value
  blob-back data_ offset bytes small held = rw (
    take-u32 (length bytes) (u32 offset),
    drop-u32 (length bytes) (u32 offset),
    from_le-u32 offset (omega (arith, held.inside)),
    from_le-u32 (length bytes) (omega (arith, Holds-room bytes held)),
    slice-Holds data_ offset bytes held,
  )

  pub pack_value-Stored :
      IsExact F → (id offset : ℕ) (v : Value F) → CanStore v → Stored id offset v
  unfolding unpack_value
  pack_value-Stored exact id offset (i2 v) h = record {
    union = u32 (twos_complement v) ++ u32 0;
    packed = rw (signed-fits v (widen v h)) refl;
    size = two-u32 (twos_complement v) 0;
    back = λ data_ small held.
        rw (unpack_value, take_two-u32 (twos_complement v) (u32 0), from_twos_complement_half v h)
          refl;
  }
  pack_value-Stored exact id offset (i4 v) h = record {
    union = u32 (twos_complement v) ++ u32 0;
    packed = rw (signed-fits v h) refl;
    size = two-u32 (twos_complement v) 0;
    back = λ data_ small held.
        rw
          (
            unpack_value,
            first-u32 (twos_complement v) 0 (twos_complement-lt v h),
            from_twos_complement_word v h,
          )
          refl;
  }
  pack_value-Stored exact id offset (ui2 v) h = record {
    union = u32 (magnitude v) ++ u32 0;
    packed = rw (unsigned-fits 0xFFFFFFFF 16 v (omega arith) h) refl;
    size = two-u32 (magnitude v) 0;
    back = λ data_ small held.
        rw
          (
            unpack_value,
            take_two-u32 (magnitude v) (u32 0),
            (let e : magnitude v % 2 ^ 16 ≡ magnitude v = omega (arith, magnitude-lt 16 v h) in e),
            pos-magnitude 16 v h,
          )
          refl;
  }
  pack_value-Stored exact id offset (ui4 v) h = record {
    union = u32 (magnitude v) ++ u32 0;
    packed = rw (unsigned-fits 0xFFFFFFFF 32 v (omega arith) h) refl;
    size = two-u32 (magnitude v) 0;
    back = λ data_ small held.
        rw (unpack_value, first-u32 (magnitude v) 0 (magnitude-lt 32 v h), pos-magnitude 32 v h)
          refl;
  }
  pack_value-Stored exact id offset (boolean true) h = record {
    union = u32 1 ++ u32 0;
    packed = refl;
    size = two-u32 1 0;
    back = λ data_ small held. rw (unpack_value, first-u32 1 0 (omega arith)) refl;
  }
  pack_value-Stored exact id offset (boolean false) h = record {
    union = u32 0 ++ u32 0;
    packed = refl;
    size = two-u32 0 0;
    back = λ data_ small held. rw (unpack_value, first-u32 0 0 (omega arith)) refl;
  }
  pack_value-Stored exact id offset (r8 v) h = record {
    union = F.pack_double v;
    packed = refl;
    size = exact.length_pack v;
    back = λ data_ small held. rw (unpack_value, exact.unpack_pack v) refl;
  }
  pack_value-Stored exact id offset (filetime v) h = record {
    union = u32 (magnitude v % 2 ^ 32) ++ u32 (magnitude v / 2 ^ 32);
    packed = rw (unsigned-fits 0xFFFFFFFFFFFFFFFF 64 v (omega arith) h) refl;
    size = two-u32 (magnitude v % 2 ^ 32) (magnitude v / 2 ^ 32);
    back = λ data_ small held.
        rw
          (
            unpack_value,
            first-u32 (magnitude v % 2 ^ 32) (magnitude v / 2 ^ 32) (omega arith),
            second-u32 (magnitude v % 2 ^ 32) (magnitude v / 2 ^ 32)
                (omega (arith, magnitude-lt 64 v h)),
            (let e : magnitude v / 2 ^ 32 * 2 ^ 32 + magnitude v % 2 ^ 32 ≡ magnitude v =
                  omega arith in
                e),
            pos-magnitude 64 v h,
          )
          refl;
  }
  pack_value-Stored exact id offset (string v) h = record {
    union = u32 offset ++ u32 0;
    packed = refl;
    size = two-u32 offset 0;
    back = λ data_ small held. string-back data_ offset v small h.0 h.1 held;
  }
  pack_value-Stored exact id offset (blob v) h = record {
    union = u32 (length v) ++ u32 offset;
    packed = refl;
    size = two-u32 (length v) offset;
    back = λ data_ small held. blob-back data_ offset v small held;
  }
  pack_value-Stored exact id offset (missing k) h = absurd (omega arith)
  pack_value-Stored exact id offset (raw_union k v) h = absurd (omega arith)
