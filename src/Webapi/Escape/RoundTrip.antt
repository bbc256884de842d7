-- ===== src/Webapi/Escape/RoundTrip.antt =====
-- What `unescape` gives back of what `escape` wrote.
use jornada_link.Common.{
  ℕ, ◌≡◌, refl, sym, ap, ap₂, ◌∙◌, false, ◌||◌, List, [], ◌∷◌, ◌++◌, ◌==◌, if◌then◌else◌,
  Bool-cases, ==_iff, inl, inr, arith,
}
use jornada_link.Webapi.Chars.{backslash, cr, lf, has, replace, replace_pair}
use jornada_link.Webapi.Replace.{replace-append, pass, pass-append, pass_cr}
use jornada_link.Webapi.Escape.{newline_escape, escape, unescape_loop, unescape}

-- Every line break as one line feed.
unfoldable pub line_breaks : List ℕ → List ℕ
unfolding replace replace_pair
line_breaks text = replace cr (lf ∷ []) (replace_pair cr lf (lf ∷ []) text)

-- What `escape` writes for one character.
abbrev pub escaped : ℕ → List ℕ
escaped c =
    if c == backslash
    then backslash ∷ backslash ∷ []
    else (if c == b';'
        then backslash ∷ b';' ∷ []
        else (if c == b','
            then backslash ∷ b',' ∷ []
            else (if (c == cr) || (c == lf) then newline_escape else c ∷ [])))

unfoldable pub escape_all : List ℕ → List ℕ
escape_all [] = []
escape_all (c ∷ text) = escaped c ++ escape_all text

-- The first three replacements, of one character.
abbrev marked : ℕ → List ℕ
marked c =
    if c == backslash
    then backslash ∷ backslash ∷ []
    else (if c == b';'
        then backslash ∷ b';' ∷ []
        else (if c == b',' then backslash ∷ b',' ∷ [] else c ∷ []))

mark : List ℕ → List ℕ
mark [] = []
mark (c ∷ text) = marked c ++ mark text

mark_one :
    (c : ℕ)
    → replace b',' (backslash ∷ b',' ∷ []) (
        replace b';'
          (backslash ∷ b';' ∷ [])
          (if c == backslash then backslash ∷ backslash ∷ [] else c ∷ []))
      ≡ marked c
unfolding replace
mark_one c = ground arith

replace-mark :
    (text : List ℕ)
    → replace b','
        (backslash ∷ b',' ∷ [])
        (replace b';' (backslash ∷ b';' ∷ []) (replace backslash (backslash ∷ backslash ∷ []) text))
      ≡ mark text
unfolding replace mark
replace-mark [] = refl
replace-mark (c ∷ text) =
    let first = if c == backslash then backslash ∷ backslash ∷ [] else c ∷ [] in
    ap (λ ys. replace b',' (backslash ∷ b',' ∷ []) ys)
      (replace-append b';' (backslash ∷ b';' ∷ []) first _)
    ∙ (replace-append b',' (backslash ∷ b',' ∷ []) (replace b';' (backslash ∷ b';' ∷ []) first) _
        ∙ ap₂ (λ xs ys. xs ++ ys) (mark_one c) (replace-mark text))

pass_marked :
    (c : ℕ) (ys : List ℕ)
    → (c == lf) ≡ false
    → replace_pair cr lf newline_escape (cr ∷ (marked c ++ ys))
      ≡ cr ∷ replace_pair cr lf newline_escape (marked c ++ ys)
unfolding replace_pair
pass_marked c ys h = ground arith

abbrev breaks : List ℕ → List ℕ
breaks text = replace cr newline_escape (replace lf newline_escape text)

breaks-append : (xs ys : List ℕ) → breaks (xs ++ ys) ≡ breaks xs ++ breaks ys
breaks-append xs ys =
    ap (replace cr newline_escape) (replace-append lf newline_escape xs ys)
    ∙ replace-append cr newline_escape (replace lf newline_escape xs) _

breaks_one : (c : ℕ) → breaks (marked c) ≡ escaped c
unfolding replace
breaks_one c = ground arith

marked-no_cr : (c : ℕ) → (c == cr) ≡ false → has cr (marked c) ≡ false
marked-no_cr c h = ground arith

line_breaks-plain :
    (c : ℕ) (text : List ℕ) → (c == cr) ≡ false → line_breaks (c ∷ text) ≡ c ∷ line_breaks text
unfolding line_breaks replace
line_breaks-plain c text h = rw (pass (lf ∷ []) c text h, h) refl

line_breaks-cr :
    (c : ℕ) (text : List ℕ)
    → (c == lf) ≡ false
    → line_breaks (cr ∷ c ∷ text) ≡ lf ∷ line_breaks (c ∷ text)
unfolding line_breaks replace
line_breaks-cr c text h = rw (pass_cr (lf ∷ []) c text h) refl

abbrev encoded : List ℕ → List ℕ
encoded text = breaks (replace_pair cr lf newline_escape (mark text))

encoded-plain :
    (c : ℕ) (text : List ℕ) → (c == cr) ≡ false → encoded (c ∷ text) ≡ escaped c ++ encoded text
unfolding mark
encoded-plain c text h =
    ap breaks (pass-append newline_escape (marked c) (mark text) (marked-no_cr c h))
    ∙ (breaks-append (marked c) _ ∙ ap (λ xs. xs ++ encoded text) (breaks_one c))

encoded-cr :
    (c : ℕ) (text : List ℕ)
    → (c == lf) ≡ false
    → encoded (cr ∷ c ∷ text) ≡ newline_escape ++ encoded (c ∷ text)
unfolding mark replace
encoded-cr c text h = ap breaks (pass_marked c (mark text) h)

encoded-pair : (text : List ℕ) → encoded (cr ∷ lf ∷ text) ≡ newline_escape ++ encoded text
unfolding mark replace replace_pair
encoded-pair text = refl

line_breaks-pair : (text : List ℕ) → line_breaks (cr ∷ lf ∷ text) ≡ lf ∷ line_breaks text
unfolding line_breaks replace replace_pair
line_breaks-pair text = refl

encoded_lem : (text : List ℕ) → encoded text ≡ escape_all (line_breaks text)
unfolding escape_all line_breaks mark replace replace_pair
encoded_lem [] = refl
encoded_lem (c ∷ []) = elim (Bool-cases (c == cr)) [
  | inl e ↦ let same : c ≡ cr = omega (arith, (==_iff c cr).0 e) in rw same refl
  | inr h ↦ encoded-plain c [] h ∙ sym (ap escape_all (line_breaks-plain c [] h))
]
encoded_lem (c ∷ d ∷ text) = elim (Bool-cases (c == cr)) [
  | inr h ↦
      encoded-plain c (d ∷ text) h
      ∙ (ap (λ ys. escaped c ++ ys) (encoded_lem (d ∷ text))
          ∙ sym (ap escape_all (line_breaks-plain c (d ∷ text) h)))
  | inl e ↦ elim (Bool-cases (d == lf)) [
    | inr h ↦ rw ((==_iff c cr).0 e) (
        encoded-cr d text h
        ∙ (ap (λ ys. newline_escape ++ ys) (encoded_lem (d ∷ text))
            ∙ sym (ap escape_all (line_breaks-cr d text h))))
    | inl e' ↦
        rw ((==_iff c cr).0 e, (==_iff d lf).0 e')
          (encoded-pair text
            ∙ (ap (λ ys. newline_escape ++ ys) (encoded_lem text)
                ∙ sym (ap escape_all (line_breaks-pair text))))
  ]
]

-- `escape` writes each character by itself, once every line break is a line feed.
pub escape_lem : (text : List ℕ) → escape text ≡ escape_all (line_breaks text)
unfolding escape
escape_lem text =
    ap (λ ys. breaks (replace_pair cr lf newline_escape ys)) (replace-mark text) ∙ encoded_lem text

replace-no_cr : (text : List ℕ) → has cr (replace cr (lf ∷ []) text) ≡ false
unfolding replace
replace-no_cr [] = refl
replace-no_cr (c ∷ text) = ground (arith, replace-no_cr text)

line_breaks-no_cr : (text : List ℕ) → has cr (line_breaks text) ≡ false
unfolding line_breaks
line_breaks-no_cr text = replace-no_cr (replace_pair cr lf (lf ∷ []) text)

unescape_one :
    (c : ℕ) (ys : List ℕ)
    → (c == cr) ≡ false
    → unescape_loop (escaped c ++ ys) ≡ c ∷ unescape_loop ys
unfolding unescape_loop
unescape_one c [] h = ground arith
unescape_one c (d ∷ ys) h = ground arith

pub unescape-escape_all :
    (text : List ℕ) → has cr text ≡ false → unescape_loop (escape_all text) ≡ text
unfolding escape_all unescape_loop
unescape-escape_all [] h = refl
unescape-escape_all (c ∷ text) h =
    unescape_one c (escape_all text) (ground arith)
    ∙ ap (◌∷◌ c) (unescape-escape_all text (ground arith))

unescape_plain : (text : List ℕ) → has backslash text ≡ false → unescape_loop text ≡ text
unfolding unescape_loop
unescape_plain [] h = refl
unescape_plain (c ∷ []) h = refl
unescape_plain (c ∷ d ∷ text) h = ground (arith, unescape_plain (d ∷ text))

-- The shortcut of `unescape` changes nothing.
unescape_shortcut : (text : List ℕ) → unescape text ≡ unescape_loop text
unfolding unescape
unescape_shortcut text = elim (Bool-cases (has backslash text)) [
  | inl e ↦ rw e refl
  | inr e ↦ rw e (sym (unescape_plain text e))
]

-- `unescape` gives back what `escape` was given, with every line break (CR LF, CR or LF) as a line
-- feed.
pub unescape-escape : (text : List ℕ) → unescape (escape text) ≡ line_breaks text
unescape-escape text =
    unescape_shortcut (escape text)
    ∙ (ap unescape_loop (escape_lem text)
        ∙ unescape-escape_all (line_breaks text) (line_breaks-no_cr text))
