-- ===== src/Wire/RoundTrip.antt =====
-- What the readers give back for what the encoders wrote.
use jornada_link.Common.{
  ℕ, ◌+◌, ◌*◌, ◌%◌, ◌^◌, ◌<◌, ◌≤◌, ◌≡◌, ◌∙◌, refl, false, Option, none, some, List, [], ◌∷◌, ◌++◌,
  drop, length, length-append, take-length-append, drop-length-append, drop-add, length-drop, All,
  arith, ◌==◌, ap, append_assoc, append-nil,
}
use jornada_link.Common.Bits.{le_bytes, from_le, length-le_bytes, from_le-le_bytes}
use jornada_link.Common.Result.{ok}
use jornada_link.Wire.Utf16.{IsText, text_units, encode_utf16, decode_utf16, before_nul}
use jornada_link.Wire.Utf16.RoundTrip.{decode-encode-append, decode-nul, length-encode_utf16}
use jornada_link.Wire.Encode.{u16, u32, wstr, optional_string, optional_out}
use jornada_link.Wire.Reader.{
  Reader, advance, read_bytes, read_u16, read_u32, wchars, read_string, read_optional, ◌>>=◌,
}

-- A word of 32 bits takes four bytes, and one of 16 bits takes two.
pub length-u32 : (v : ℕ) → length (u32 v) ≡ 4
unfolding u32
length-u32 v = length-le_bytes 4 (v % 2 ^ 32)

pub length-u16 : (v : ℕ) → length (u16 v) ≡ 2
unfolding u16
length-u16 v = length-le_bytes 2 (v % 2 ^ 16)

pub from_le-u32 : (v : ℕ) → v < 2 ^ 32 → from_le (u32 v) ≡ v
unfolding u32
from_le-u32 v h =
    ap (λ n. from_le (le_bytes 4 n)) (let e : v % 2 ^ 32 ≡ v = omega arith in e)
    ∙ from_le-le_bytes 4 v h

-- The cursor stands in the buffer, with these bytes ahead of it.
pub record Ahead (r : Reader) (ahead : List ℕ) : Type 0 where
  pub inside : r.offset ≤ length r.bytes
  pub rest : drop r.offset r.bytes ≡ ahead

module _ {r : Reader} (xs ys : List ℕ) (h : Ahead r (xs ++ ys)) where
  room : r.offset + length xs ≤ length r.bytes
  room = omega (
    arith,
    h.inside,
    length-drop r.offset r.bytes h.inside,
    length-append xs ys,
    ap length h.rest,
  )

  -- Reading as many bytes as lie in the first part gives that part.
  pub read_bytes_lem : (n : ℕ) → length xs ≡ n → read_bytes n r ≡ ok (xs, advance n r)
  unfolding read_bytes
  read_bytes_lem n e = rw (← e, h.rest, take-length-append xs ys) (ground (arith, room))

  pub advance-Ahead : (n : ℕ) → length xs ≡ n → Ahead (advance n r) ys
  advance-Ahead n e = rw (← e) (record {
    inside = room;
    rest = drop-add r.offset (length xs) r.bytes ∙ rw h.rest (drop-length-append xs ys);
  })

module _ {r : Reader} (v : ℕ) (rest : List ℕ) where
  pub read_u32-u32 : Ahead r (u32 v ++ rest) → read_u32 r ≡ ok (v % 2 ^ 32, advance 4 r)
  unfolding read_u32 u32
  read_u32-u32 h = rw (
    read_bytes_lem (le_bytes 4 (v % 2 ^ 32)) rest h 4 (length-le_bytes 4 (v % 2 ^ 32)),
    read_u32,
    ◌>>=◌,
    from_le-le_bytes 4 (v % 2 ^ 32) (omega arith),
  )

  pub read_u16-u16 : Ahead r (u16 v ++ rest) → read_u16 r ≡ ok (v % 2 ^ 16, advance 2 r)
  unfolding read_u16 u16
  read_u16-u16 h = rw (
    read_bytes_lem (le_bytes 2 (v % 2 ^ 16)) rest h 2 (length-le_bytes 2 (v % 2 ^ 16)),
    read_u16,
    ◌>>=◌,
    from_le-le_bytes 2 (v % 2 ^ 16) (omega arith),
  )

  pub u32-Ahead : Ahead r (u32 v ++ rest) → Ahead (advance 4 r) rest
  unfolding u32
  u32-Ahead h = advance-Ahead (u32 v) rest h 4 (length-le_bytes 4 (v % 2 ^ 32))

  pub u16-Ahead : Ahead r (u16 v ++ rest) → Ahead (advance 2 r) rest
  unfolding u16
  u16-Ahead h = advance-Ahead (u16 v) rest h 2 (length-le_bytes 2 (v % 2 ^ 16))

-- A parameter with its value: 1, the size, 1, the bytes.
read_optional-value :
    {r : Reader} (bytes rest : List ℕ)
    → length bytes < 2 ^ 32
    → Ahead r (u32 1 ++ (u32 (length bytes) ++ (u32 1 ++ (bytes ++ rest))))
    → (r' : Reader) × (read_optional r ≡ ok (some bytes, r')) × Ahead r' rest
unfolding read_optional
read_optional-value {r} bytes rest fits h =
    let size = length bytes in
    let h1 : Ahead (advance 4 r) (u32 size ++ (u32 1 ++ (bytes ++ rest))) = u32-Ahead 1 _ h in
    let h2 : Ahead (advance 4 (advance 4 r)) (u32 1 ++ (bytes ++ rest)) = u32-Ahead size _ h1 in
    let h3 : Ahead (advance 4 (advance 4 (advance 4 r))) (bytes ++ rest) = u32-Ahead 1 _ h2 in
    let same : size % 2 ^ 32 ≡ size = omega arith in
    (
      advance size (advance 4 (advance 4 (advance 4 r))),
      rw (
        read_u32-u32 1 _ h,
        read_optional,
        ◌>>=◌,
        read_u32-u32 size _ h1,
        read_u32-u32 1 _ h2,
        same,
        read_bytes_lem bytes rest h3 size refl,
      ),
      advance-Ahead bytes rest h3 size refl,
    )

-- What `optional_string` writes of a text, `Reader.optional` reads back as its bytes with the
-- terminator, and the cursor then stands behind it. The bytes must be fewer than 2 ^ 32.
pub read_optional-optional_string :
    {r : Reader} (text rest : List ℕ)
    → length (wstr text) < 2 ^ 32
    → Ahead r (optional_string (some text) ++ rest)
    → (r' : Reader) × (read_optional r ≡ ok (some (wstr text), r')) × Ahead r' rest
unfolding optional_string
read_optional-optional_string text rest fits h =
    read_optional-value (wstr text) rest fits (simp append_assoc at h)

-- A parameter that is only announced, by `optional_out`, is read back as absent, and an absent
-- parameter is too: the cursor then stands behind what was written.
pub read_optional-optional_out :
    {r : Reader} (out : Option ℕ) (rest : List ℕ)
    → Ahead r (optional_out out ++ rest)
    → (r' : Reader) × (read_optional r ≡ ok (none, r')) × Ahead r' rest
unfolding optional_out read_optional
read_optional-optional_out {r} none rest h =
    (advance 4 r, rw (read_u32-u32 0 _ h, read_optional, ◌>>=◌), u32-Ahead 0 _ h)
read_optional-optional_out {r} (some size) rest h =
    let h0 : Ahead r (u32 1 ++ (u32 size ++ (u32 0 ++ rest))) = (simp append_assoc at h) in
    let h1 : Ahead (advance 4 r) (u32 size ++ (u32 0 ++ rest)) = u32-Ahead 1 _ h0 in
    let h2 : Ahead (advance 4 (advance 4 r)) (u32 0 ++ rest) = u32-Ahead size _ h1 in
    (
      advance 4 (advance 4 (advance 4 r)),
      rw (read_u32-u32 1 _ h0, read_optional, ◌>>=◌, read_u32-u32 size _ h1, read_u32-u32 0 _ h2),
      u32-Ahead 0 _ h2,
    )

-- A text without NUL.
abbrev pub NoNul : List ℕ → Type 0
NoNul = All (λ c. (c == 0) ≡ false)

pub before_nul-append : (text rest : List ℕ) → NoNul text → before_nul (text ++ 0 ∷ rest) ≡ text
unfolding before_nul
before_nul-append [] rest h = refl
before_nul-append (c ∷ text) rest h = ground (arith, before_nul-append text rest h.1)

-- Decoding the bytes of `wstr` up to the first NUL gives the text, whatever follows.
pub before_nul-decode-wstr :
    (text rest : List ℕ)
    → IsText text
    → NoNul text
    → before_nul (decode_utf16 (wstr text ++ rest)) ≡ text
unfolding wstr
before_nul-decode-wstr text rest valid no_nul =
    rw (append_assoc, decode-encode-append text (0 ∷ 0 ∷ rest) valid, decode-nul rest)
      (before_nul-append text (decode_utf16 rest) no_nul)

length-wstr : (text : List ℕ) → length (wstr text) ≡ (length (text_units text) + 1) * 2
unfolding wstr
length-wstr text =
    omega (arith, length-append (encode_utf16 text) (0 ∷ 0 ∷ []), length-encode_utf16 text)

-- A text without NUL whose length in code units comes first is read back by `Reader.string`.
pub read_string-wstr :
    {r : Reader} (text rest : List ℕ)
    → IsText text
    → NoNul text
    → length (text_units text) < 2 ^ 32
    → Ahead r (u32 (length (text_units text)) ++ (wstr text ++ rest))
    → (r' : Reader) × (read_string r ≡ ok (text, r')) × Ahead r' rest
unfolding read_string wchars
read_string-wstr {r} text rest valid no_nul fits h =
    let n = length (text_units text) in
    let h1 : Ahead (advance 4 r) (wstr text ++ rest) = u32-Ahead n _ h in
    let same : n % 2 ^ 32 ≡ n = omega arith in
    let decoded : before_nul (decode_utf16 (wstr text)) ≡ text =
      (rw append-nil at (before_nul-decode-wstr text [] valid no_nul)) in
    (
      advance ((n + 1) * 2) (advance 4 r),
      rw (
        read_u32-u32 n _ h,
        read_string,
        ◌>>=◌,
        same,
        read_bytes_lem (wstr text) rest h1 ((n + 1) * 2) (length-wstr text),
        decoded,
      ),
      advance-Ahead (wstr text) rest h1 ((n + 1) * 2) (length-wstr text),
    )
