-- ===== src/Cedb/RoundTrip.antt =====
-- A packed record is unpacked to the same properties.
use jornada_link.Common.{
  ℕ, zero, suc, ◌+◌, ◌-◌, ◌*◌, ◌/◌, ◌%◌, ◌^◌, ◌≤◌, ◌<◌, ◌≡◌, refl, sym, ap, ◌∙◌, false, List, [],
  ◌∷◌, ◌++◌, append-nil, length, take, drop, length-append, drop-length-append, All, arith, ltb,
  ◌==◌, if◌then◌else◌,
}
use jornada_link.Common.Bits.{le_bytes, from_le, from_le-le_bytes}
use jornada_link.Common.Result.{ok}
use jornada_link.Wire.Encode.{u16, u32}
use jornada_link.Wire.RoundTrip.{from_le-u32}
use jornada_link.Common.Result.{same_ok}
use jornada_link.Cedb.{Float64, IsExact, Value, PropVal, kind, propid, align, propval_size}
use jornada_link.Cedb.Pack.{zeros, payload, pack_entry, padded, pack_loop, pack_record}
use jornada_link.Cedb.Unpack.{not_found, unpack_value, unpack_entry, unpack_loop, unpack_record}
use jornada_link.Cedb.Values.{
  Holds, Holds-left, Holds-right, Holds-take, take-u32, CanStore, Stored, pack_value-Stored,
}

length-zeros : (n : ℕ) → length (zeros n) ≡ n
unfolding zeros
length-zeros zero = refl
length-zeros (suc n) = omega (arith, length-zeros n)

abbrev entry_bytes : ℕ → ℕ → List ℕ → List ℕ
entry_bytes id flags union = u32 id ++ (u16 0 ++ (u16 flags ++ union))

entry_flags :
    (id flags : ℕ) (union : List ℕ) → take 2 (drop 6 (entry_bytes id flags union)) ≡ u16 flags
unfolding u32 u16 le_bytes take drop
entry_flags id flags union = refl

entry_union : (id flags : ℕ) (union : List ℕ) → drop 8 (entry_bytes id flags union) ≡ union
unfolding u32 u16 le_bytes drop
entry_union id flags union = refl

length-entry_bytes :
    (id flags : ℕ) (union : List ℕ) → length (entry_bytes id flags union) ≡ 8 + length union
unfolding u32 u16 le_bytes
length-entry_bytes id flags union = omega arith

from_le-u16 : (v : ℕ) → v < 2 ^ 16 → from_le (u16 v) ≡ v
unfolding u16
from_le-u16 v h =
    ap (λ n. from_le (le_bytes 2 n)) (let e : v % 2 ^ 16 ≡ v = omega arith in e)
    ∙ from_le-le_bytes 2 v h

positive_is_not_zero : (n : ℕ) → (suc n == 0) ≡ false
positive_is_not_zero n = ground arith

-- A payload without bytes lies everywhere.
Holds-zero :
    (data_ : List ℕ) (offset : ℕ) (bytes : List ℕ)
    → Holds data_ offset bytes
    → Holds data_ (if length bytes == 0 then 0 else offset) bytes
unfolding drop
Holds-zero data_ offset [] h = record { behind = data_; inside = omega arith; there = refl }
Holds-zero data_ offset (b ∷ bytes) h = rw (positive_is_not_zero (length bytes)) h

align-le : (n : ℕ) → n ≤ align n
align-le n = omega arith

Holds-at :
    (data_ : List ℕ) (offset offset' : ℕ) (bytes : List ℕ)
    → offset ≡ offset'
    → Holds data_ offset bytes
    → Holds data_ offset' bytes
Holds-at data_ offset offset' bytes e h = rw (← e) h

entry_taken :
    (data_ entry : List ℕ) (index : ℕ)
    → length entry ≡ 16
    → Holds data_ (index * propval_size) entry
    → take propval_size (drop (index * propval_size) data_) ≡ entry
entry_taken data_ entry index size held =
    ap (λ n. take n (drop (index * propval_size) data_)) (sym size) ∙ Holds-take entry held

long_enough : (data_ : List ℕ) (n : ℕ) → n ≤ length data_ → ltb (length data_) n ≡ false
long_enough data_ n h = ground arith

module _ {F : Float64} where
  -- A property that survives: identifier and flags of 16 bits, not marked as missing, with a value
  -- that its type can hold.
  abbrev pub IsStored : PropVal F → Type 0
  IsStored p =
      (p.prop_id < 2 ^ 16) × (p.flags < 2 ^ 16) × (not_found p.flags ≡ false) × CanStore p.value

  kind-lt : (v : Value F) → CanStore v → kind v < 2 ^ 16
  kind-lt v h = ground arith

  pub record StoredEntry (offset : ℕ) (p : PropVal F) : Type 0 where
    pub entry : List ℕ
    pub packed : pack_entry p offset ≡ ok entry
    pub size : length entry ≡ 16
    pub back :
        (data_ : List ℕ)
        → length data_ < 2 ^ 32
        → Holds data_ offset (payload p.value)
        → unpack_entry entry data_ ≡ ok p

  unpack_entry-bytes :
      (id flags : ℕ) (v : Value F) (union data_ : List ℕ)
      → id < 2 ^ 16
      → flags < 2 ^ 16
      → not_found flags ≡ false
      → kind v < 2 ^ 16
      → unpack_value (kind v) union data_ ≡ ok v
      → unpack_entry (entry_bytes (propid id (kind v)) flags union) data_
        ≡ ok (record { prop_id = id; value = v; flags = flags })
  unfolding unpack_entry
  unpack_entry-bytes id flags v union data_ hi hf hn hk e =
      rw
        (
          unpack_entry,
          take-u32 (propid id (kind v)) (u16 0 ++ (u16 flags ++ union)),
          from_le-u32 (propid id (kind v)) (omega arith),
          entry_flags (propid id (kind v)) flags union,
          from_le-u16 flags hf,
          hn,
          entry_union (propid id (kind v)) flags union,
          (let x : propid id (kind v) % 2 ^ 16 ≡ kind v = omega arith in x),
          (let y : propid id (kind v) / 2 ^ 16 ≡ id = omega arith in y),
          e,
        )
        refl

  pack_entry-StoredEntry :
      IsExact F → (offset : ℕ) (p : PropVal F) → IsStored p → StoredEntry offset p
  pack_entry-StoredEntry exact offset p (hi, hf, hn, hv) =
      let S : Stored p.prop_id (if length (payload p.value) == 0 then 0 else offset) p.value =
        pack_value-Stored exact _ _ p.value hv in
      record {
        entry = entry_bytes (propid p.prop_id (kind p.value)) p.flags S.union;
        packed = rw S.packed refl;
        size =
            omega
              (arith, S.size, length-entry_bytes (propid p.prop_id (kind p.value)) p.flags S.union);
        back = λ data_ small held.
            unpack_entry-bytes p.prop_id p.flags p.value S.union data_ hi hf hn (kind-lt p.value hv)
              (S.back data_ small (Holds-zero data_ offset (payload p.value) held));
      }

  length-padded :
      (v : Value F) (offset : ℕ)
      → offset + length (padded v offset) ≡ align (offset + length (payload v))
  length-padded v offset = omega (
    arith,
    length-append (payload v)
        (zeros (align (offset + length (payload v)) - offset - length (payload v))),
    length-zeros (align (offset + length (payload v)) - offset - length (payload v)),
    align-le (offset + length (payload v)),
  )

  pub record StoredLoop (offset : ℕ) (props : List (PropVal F)) : Type 0 where
    pub header : List ℕ
    pub payloads : List ℕ
    pub packed : pack_loop props offset ≡ ok (header, payloads)
    pub size : length header ≡ length props * propval_size
    pub back :
        (data_ : List ℕ) (index : ℕ)
        → length data_ < 2 ^ 32
        → Holds data_ (index * propval_size) header
        → Holds data_ offset payloads
        → unpack_loop data_ index (length props) ≡ ok props

  unpack_loop-step :
      (data_ entry header : List ℕ) (index : ℕ) (p : PropVal F) (props : List (PropVal F))
      → length entry ≡ 16
      → Holds data_ (index * propval_size) entry
      → unpack_entry entry data_ ≡ ok p
      → unpack_loop data_ (suc index) (length props) ≡ ok props
      → unpack_loop data_ index (suc (length props)) ≡ ok (p ∷ props)
  unfolding unpack_loop
  unpack_loop-step data_ entry header index p props size held e rest =
      rw (unpack_loop, entry_taken data_ entry index size held, e, rest) refl

  unpack_loop-none : (data_ : List ℕ) (index : ℕ) → unpack_loop {F = F} data_ index 0 ≡ ok []
  unfolding unpack_loop
  unpack_loop-none data_ index = refl

  pack_loop-step :
      (p : PropVal F) (props : List (PropVal F)) (offset : ℕ) (entry header payloads : List ℕ)
      → pack_entry p offset ≡ ok entry
      → pack_loop props (align (offset + length (payload p.value))) ≡ ok (header, payloads)
      → pack_loop (p ∷ props) offset ≡ ok (entry ++ header, padded p.value offset ++ payloads)
  unfolding pack_loop
  pack_loop-step p props offset entry header payloads e l = rw (pack_loop, e, l) refl

  pack_loop-StoredLoop :
      IsExact F
      → (props : List (PropVal F)) (offset : ℕ) → All IsStored props
      → StoredLoop offset props
  unfolding pack_loop
  pack_loop-StoredLoop exact [] offset h = record {
    header = [];
    payloads = [];
    packed = refl;
    size = refl;
    back = λ data_ index small held pay. unpack_loop-none data_ index;
  }
  pack_loop-StoredLoop exact (p ∷ props) offset h =
      let E = pack_entry-StoredEntry exact offset p h.0 in
      let L = pack_loop-StoredLoop exact props (align (offset + length (payload p.value))) h.1 in
      record {
        header = E.entry ++ L.header;
        payloads = padded p.value offset ++ L.payloads;
        packed = pack_loop-step p props offset E.entry L.header L.payloads E.packed L.packed;
        size = omega (arith, length-append E.entry L.header, E.size, L.size);
        back = λ data_ index small held pay.
            unpack_loop-step data_ E.entry L.header index p props E.size
              (Holds-left E.entry L.header held)
              (E.back data_ small (
                Holds-left (payload p.value) _ (Holds-left (padded p.value offset) L.payloads pay)))
              (L.back data_ (suc index) small
                (Holds-at data_ (index * propval_size + length E.entry) (suc index * propval_size)
                  L.header (omega (arith, E.size)) (Holds-right E.entry L.header held))
                (Holds-at data_ (offset + length (padded p.value offset)) _ L.payloads
                  (length-padded p.value offset)
                  (Holds-right (padded p.value offset) L.payloads pay)));
      }

  -- Where the loop succeeds, the record is the header and the payloads behind it.
  record_bytes :
      (exact : IsExact F) (props : List (PropVal F)) (h : All IsStored props)
      → let L = pack_loop-StoredLoop exact props (align (length props * propval_size)) h in
        pack_record props ≡ ok (L.header ++ L.payloads)
  unfolding pack_record
  record_bytes exact props h =
      rw
        (
          pack_record,
          (pack_loop-StoredLoop exact props (align (length props * propval_size)) h).packed,
        )
        refl

  -- Every list of properties that survive is packed without an error.
  pub pack_record-ok :
      IsExact F
      → (props : List (PropVal F)) → All IsStored props
      → (bytes : List ℕ) × (pack_record props ≡ ok bytes)
  pack_record-ok exact props h = (_, record_bytes exact props h)

  unpack_parts :
      (props : List (PropVal F)) (offset : ℕ) (L : StoredLoop offset props)
      → offset ≡ length props * propval_size
      → length (L.header ++ L.payloads) < 2 ^ 32
      → unpack_record (L.header ++ L.payloads) (length props) ≡ ok props
  unfolding unpack_record drop
  unpack_parts props offset L e small =
      rw
        (
          unpack_record,
          long_enough (L.header ++ L.payloads) (length props * propval_size)
              (omega (arith, L.size, length-append L.header L.payloads)),
          L.back (L.header ++ L.payloads) 0 small
              (record { behind = L.payloads; inside = omega arith; there = refl })
              (record {
                behind = [];
                inside = omega (arith, L.size, length-append L.header L.payloads);
                there =
                    ap (λ n. drop n (L.header ++ L.payloads)) (e ∙ sym L.size)
                    ∙ drop-length-append L.header L.payloads
                    ∙ sym (append-nil L.payloads);
              }),
        )
        refl

  -- What `pack_record` writes of properties that survive, of less than 2 ^ 32 bytes, `unpack_record`
  -- reads back to the same properties: strings and blobs by the offsets in the header.
  pub unpack_record-pack_record :
      IsExact F
      → (props : List (PropVal F)) (bytes : List ℕ) → All IsStored props
      → pack_record props ≡ ok bytes
      → length bytes < 2 ^ 32
      → unpack_record bytes (length props) ≡ ok props
  unpack_record-pack_record exact props bytes h e small =
      let L = pack_loop-StoredLoop exact props (align (length props * propval_size)) h in
      let same : L.header ++ L.payloads ≡ bytes =
        same_ok _ _ (sym (record_bytes exact props h) ∙ e) in
      ap (λ b. unpack_record b (length props)) (sym same)
      ∙ unpack_parts props (align (length props * propval_size)) L (omega arith) (rw same small)
