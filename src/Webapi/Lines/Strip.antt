-- ===== src/Webapi/Lines/Strip.antt =====
-- What `strip` leaves alone.
use jornada_link.Common.{
  ℕ, ◌≡◌, refl, sym, ap, ◌∙◌, Bool, true, false, not, ◌&&◌, List, [], ◌∷◌, ◌++◌, All, arith, ◌==◌,
  ==_iff, Bool-cases, inl, inr,
}
use jornada_link.Webapi.Chars.{has, is_space, strip, strip_left, strip_right}
use jornada_link.Webapi.Fold.{filled}
use jornada_link.Webapi.Lines.{quote}

-- A text that `strip` leaves as it is, from each side.
abbrev pub IsTrimmed : List ℕ → Type 0
IsTrimmed text = (strip_left is_space text ≡ text) × (strip_right is_space text ≡ text)

pub strip-IsTrimmed : (text : List ℕ) → IsTrimmed text → strip text ≡ text
unfolding strip
strip-IsTrimmed text (left, right) = ap (strip_right is_space) left ∙ right

strip_right_cons :
    (c : ℕ) (text : List ℕ)
    → strip_right is_space text ≡ text
    → filled text ≡ true
    → strip_right is_space (c ∷ text) ≡ c ∷ text
unfolding strip_right
strip_right_cons c [] e h = absurd (ground arith)
strip_right_cons c (d ∷ text) e h = rw (e, strip_right) refl

strip_right_one : (c : ℕ) → is_space c ≡ false → strip_right is_space (c ∷ []) ≡ c ∷ []
unfolding strip_right
strip_right_one c h = rw h refl

pub strip_right_solid :
    (c : ℕ) (text : List ℕ)
    → is_space c ≡ false
    → strip_right is_space text ≡ text
    → strip_right is_space (c ∷ text) ≡ c ∷ text
strip_right_solid c [] h e = strip_right_one c h
strip_right_solid c (d ∷ text) h e = strip_right_cons c (d ∷ text) e refl

filled_right : (xs ys : List ℕ) → filled ys ≡ true → filled (xs ++ ys) ≡ true
filled_right [] ys h = h
filled_right (c ∷ xs) ys h = refl

pub strip_right-append :
    (xs ys : List ℕ)
    → strip_right is_space ys ≡ ys
    → filled ys ≡ true
    → strip_right is_space (xs ++ ys) ≡ xs ++ ys
strip_right-append [] ys e h = e
strip_right-append (c ∷ xs) ys e h =
    strip_right_cons c (xs ++ ys) (strip_right-append xs ys e h) (filled_right xs ys h)

pub strip_left_solid :
    (c : ℕ) (text : List ℕ) → is_space c ≡ false → strip_left is_space (c ∷ text) ≡ c ∷ text
unfolding strip_left
strip_left_solid c text h = rw (h, strip_left) refl

-- A character of a name: no white space and none of the characters that mean something in a line.
unfoldable pub name_char : ℕ → Bool
unfolding is_space
name_char c = not (is_space c) && not (has c (quote ∷ b':' ∷ b';' ∷ b'=' ∷ b',' ∷ b'.' ∷ []))

first_not : (a b : Bool) → (not a && b) ≡ true → a ≡ false
first_not a b h = ground arith

pub name_char-solid : (c : ℕ) → name_char c ≡ true → is_space c ≡ false
unfolding name_char
name_char-solid c h = first_not (is_space c) _ h

pub name-lacks :
    (d : ℕ) (text : List ℕ)
    → name_char d ≡ false
    → All (λ c. name_char c ≡ true) text
    → has d text ≡ false
name-lacks d [] h k = refl
name-lacks d (c ∷ text) h k = elim (Bool-cases (c == d)) [
  | inl e ↦
      let same : c ≡ d = (==_iff c d).0 e in
      let wrong : false ≡ true = sym h ∙ (sym (ap name_char same) ∙ k.0) in absurd (ground arith)
  | inr e ↦ rw e (name-lacks d text h k.1)
]

name-strip_right :
    (text : List ℕ) → All (λ c. name_char c ≡ true) text → strip_right is_space text ≡ text
unfolding strip_right
name-strip_right [] k = refl
name-strip_right (c ∷ text) k =
    strip_right_solid c text (name_char-solid c k.0) (name-strip_right text k.1)

pub name-IsTrimmed : (text : List ℕ) → All (λ c. name_char c ≡ true) text → IsTrimmed text
unfolding strip_left strip_right
name-IsTrimmed [] k = (refl, refl)
name-IsTrimmed (c ∷ text) k =
    (strip_left_solid c text (name_char-solid c k.0), name-strip_right (c ∷ text) k)
