-- ===== src/Gpib/Lines.antt =====
-- What is sent to the gateway in lines, and the answers that come back.
use jornada_link.Common.{
  ℕ, ◌≡◌, refl, sym, ap, ◌∙◌, true, false, some, List, [], ◌∷◌, ◌++◌, append_assoc, All, arith, ltb,
  Bool, any, ◌==◌, if◌then◌else◌, Bool-cases, inl, inr,
}
use jornada_link.Common.Result.{ok}
use jornada_link.Gpib.{
  lf, esc, plus, is_special, escape, encode_ascii, decode_ascii, strip_line_end, is_command,
  line_bytes,
}
use jornada_link.Gpib.Session.{Answer, chunk, Socket, ends_line, read_loop, read_line}

-- The bytes that the line protocol treats specially: CR, LF, ESC and `+`.
abbrev pub protocol_bytes : List ℕ
protocol_bytes = 0x0D ∷ 0x0A ∷ 0x1B ∷ 0x2B ∷ []

abbrev in_protocol : ℕ → Bool
in_protocol b = any (λ s. b == s) protocol_bytes

-- The bytes of a text that mean nothing to the protocol.
unfoldable pub ordinary : List ℕ → List ℕ
ordinary [] = []
ordinary (b ∷ text) = let rest = ordinary text in if in_protocol b then rest else b ∷ rest

-- The bytes of a stream that stand for themselves in the protocol: an escape takes the byte after it
-- out of it.
unfoldable pub unguarded : List ℕ → List ℕ
unguarded [] = []
unguarded (b ∷ []) = b ∷ []
unguarded (b ∷ c ∷ bytes) =
    let after_escape = unguarded bytes in
    let after_byte = unguarded (c ∷ bytes) in if b == esc then after_escape else b ∷ after_byte

-- The bytes that a stream is about: an escape gives the byte after it.
unfoldable pub unescaped : List ℕ → List ℕ
unescaped [] = []
unescaped (b ∷ []) = b ∷ []
unescaped (b ∷ c ∷ bytes) =
    let after_escape = unescaped bytes in
    let after_byte = unescaped (c ∷ bytes) in if b == esc then c ∷ after_escape else b ∷ after_byte

in_protocol-special : (b : ℕ) → in_protocol b ≡ is_special b
in_protocol-special b = ground arith

plain :
    (b : ℕ)
    → is_special b ≡ false
    → ((b == lf) ≡ false) × ((b == esc) ≡ false) × ((b == plus) ≡ false)
plain b h = ground arith

unguarded-byte :
    (b : ℕ) (bytes : List ℕ) → (b == esc) ≡ false → unguarded (b ∷ bytes) ≡ b ∷ unguarded bytes
unfolding unguarded
unguarded-byte b [] h = refl
unguarded-byte b (c ∷ bytes) h = rw h refl

unescaped-byte :
    (b : ℕ) (bytes : List ℕ) → (b == esc) ≡ false → unescaped (b ∷ bytes) ≡ b ∷ unescaped bytes
unfolding unescaped
unescaped-byte b [] h = refl
unescaped-byte b (c ∷ bytes) h = rw h refl

is_command-head : (b : ℕ) (bytes : List ℕ) → (b == plus) ≡ false → is_command (b ∷ bytes) ≡ false
is_command-head b [] h = refl
is_command-head b (c ∷ bytes) h = rw h refl

unguarded-escape :
    (payload rest : List ℕ)
    → unguarded (escape payload ++ (lf ∷ rest)) ≡ ordinary payload ++ (lf ∷ unguarded rest)
unfolding unguarded escape ordinary
unguarded-escape [] rest = unguarded-byte lf rest refl
unguarded-escape (b ∷ payload) rest = elim (Bool-cases (is_special b)) [
  | inl on ↦ rw (in_protocol-special b, on) (unguarded-escape payload rest)
  | inr off ↦
      rw (in_protocol-special b, off)
        (unguarded-byte b (escape payload ++ (lf ∷ rest)) (plain b off).1
          ∙ ap (◌∷◌ b) (unguarded-escape payload rest))
]

unescaped-escape :
    (payload rest : List ℕ)
    → unescaped (escape payload ++ (lf ∷ rest)) ≡ payload ++ (lf ∷ unescaped rest)
unfolding unescaped escape
unescaped-escape [] rest = unescaped-byte lf rest refl
unescaped-escape (b ∷ payload) rest = elim (Bool-cases (is_special b)) [
  | inl on ↦ rw on (ap (◌∷◌ b) (unescaped-escape payload rest))
  | inr off ↦ rw off (
      unescaped-byte b (escape payload ++ (lf ∷ rest)) (plain b off).1
      ∙ ap (◌∷◌ b) (unescaped-escape payload rest))
]

abbrev pub IsAscii : List ℕ → Type 0
IsAscii = All (λ c. ltb c 0x80 ≡ true)

encode_ascii-same : (text : List ℕ) → IsAscii text → encode_ascii text ≡ text
unfolding encode_ascii
encode_ascii-same [] h = refl
encode_ascii-same (c ∷ text) h = rw h.0 (ap (◌∷◌ c) (encode_ascii-same text h.1))

escape-no_command : (payload rest : List ℕ) → is_command (escape payload ++ (lf ∷ rest)) ≡ false
unfolding escape
escape-no_command [] [] = refl
escape-no_command [] (c ∷ rest) = refl
escape-no_command (b ∷ payload) rest = elim (Bool-cases (is_special b)) [
  | inl on ↦ rw on refl
  | inr off ↦ rw off (is_command-head b _ (plain b off).2)
]

-- Of instrument text of ASCII that is no command, with whatever follows it: the bytes that no escape
-- guards are those of the text that are not CR, LF, ESC or `+`, and the line feed that ends the line;
-- with its escapes taken away, what is sent is the text and that line feed; and it never starts as a
-- command.
pub line_bytes_lem :
    (line rest : List ℕ)
    → IsAscii line
    → is_command line ≡ false
    → (unguarded (line_bytes line ++ rest) ≡ ordinary line ++ (lf ∷ unguarded rest))
      × (unescaped (line_bytes line ++ rest) ≡ line ++ (lf ∷ unescaped rest))
      × (is_command (line_bytes line ++ rest) ≡ false)
line_bytes_lem line rest h text =
    rw (text, encode_ascii-same line h, append_assoc (escape line) (lf ∷ []) rest)
      (unguarded-escape line rest, unescaped-escape line rest, escape-no_command line rest)

-- An answer's bytes in the pieces in which they arrive.
unfoldable pub pieces : List (ℕ × List ℕ) → List Answer
pieces [] = []
pieces ((b, bytes) ∷ cs) = chunk b bytes ∷ pieces cs

unfoldable pub joined : List (ℕ × List ℕ) → List ℕ
joined [] = []
joined ((b, bytes) ∷ cs) = (b ∷ bytes) ++ joined cs

ends_line-append :
    (xs : List ℕ) (b : ℕ) (bs : List ℕ) → ends_line (xs ++ (b ∷ bs)) ≡ ends_line (b ∷ bs)
unfolding ends_line
ends_line-append [] b bs = refl
ends_line-append (x ∷ []) b bs = refl
ends_line-append (x ∷ y ∷ xs) b bs = ends_line-append (y ∷ xs) b bs

regroup : (ws xs ys zs : List ℕ) → (ws ++ xs) ++ (ys ++ zs) ≡ ws ++ ((xs ++ ys) ++ zs)
regroup ws xs ys zs = append_assoc ws xs (ys ++ zs) ∙ ap (◌++◌ ws) (sym (append_assoc xs ys zs))

read_loop-pieces :
    (cs : List (ℕ × List ℕ)) (data_ bs : List ℕ) (b : ℕ) (rest : List Answer)
    → All (λ c. ends_line (c.0 ∷ c.1) ≡ false) cs
    → ends_line (b ∷ bs) ≡ true
    → read_loop data_ (pieces cs ++ (chunk b bs ∷ rest))
      ≡ (ok (data_ ++ (joined cs ++ (b ∷ bs))), rest)
unfolding pieces joined read_loop
read_loop-pieces [] data_ bs b rest h e = rw (read_loop, ends_line-append data_ b bs, e) refl
read_loop-pieces ((c, cs) ∷ more) data_ bs b rest h e =
    rw (read_loop, ends_line-append data_ c cs, h.0)
      (read_loop-pieces more (data_ ++ (c ∷ cs)) bs b rest h.1 e
        ∙ ap (λ x. (ok x, rest)) (regroup data_ (c ∷ cs) (joined more) (b ∷ bs)))

-- `read_line` returns the answer up to its line end, however it is cut, if only the last piece ends in
-- a line feed, and leaves what arrives later.
pub read_line-pieces :
    (sock : Socket) (cs : List (ℕ × List ℕ)) (b : ℕ) (bs : List ℕ) (rest : List Answer)
    → All (λ c. ends_line (c.0 ∷ c.1) ≡ false) cs
    → ends_line (b ∷ bs) ≡ true
    → sock.answers ≡ pieces cs ++ (chunk b bs ∷ rest)
    → read_line (some sock) ≡ (
      ok (strip_line_end (decode_ascii (joined cs ++ (b ∷ bs)))),
      some (record sock { answers = rest }),
    )
unfolding read_line
read_line-pieces sock cs b bs rest h e same = rw (same, read_loop-pieces cs [] bs b rest h e) refl
