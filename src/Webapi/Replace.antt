-- ===== src/Webapi/Replace.antt =====
-- Lemmas on `replace` and `split` of texts.
use jornada_link.Common.{
  ℕ, ◌≡◌, refl, sym, ap, ◌∙◌, false, List, [], ◌∷◌, ◌++◌, append_assoc, ◌==◌, if◌then◌else◌, arith,
}
use jornada_link.Webapi.Chars.{cr, lf, has, replace, replace_pair, split}

pub replace-append :
    (c : ℕ) (new xs ys : List ℕ) → replace c new (xs ++ ys) ≡ replace c new xs ++ replace c new ys
unfolding replace
replace-append c new [] ys = refl
replace-append c new (d ∷ xs) ys =
    ap (λ zs. (if d == c then new else d ∷ []) ++ zs) (replace-append c new xs ys)
    ∙ sym (append_assoc (if d == c then new else d ∷ []) _ _)

-- What has no carriage return is passed over.
pub pass :
    (new : List ℕ) (c : ℕ) (ys : List ℕ)
    → (c == cr) ≡ false
    → replace_pair cr lf new (c ∷ ys) ≡ c ∷ replace_pair cr lf new ys
unfolding replace_pair
pass new c [] h = refl
pass new c (d ∷ ys) h = rw (h, replace_pair) refl

pub pass-append :
    (new xs ys : List ℕ)
    → has cr xs ≡ false
    → replace_pair cr lf new (xs ++ ys) ≡ xs ++ replace_pair cr lf new ys
pass-append new [] ys h = refl
pass-append new (c ∷ xs) ys h =
    pass new c (xs ++ ys) (ground arith) ∙ ap (◌∷◌ c) (pass-append new xs ys (ground arith))

pub pass_cr :
    (new : List ℕ) (c : ℕ) (ys : List ℕ)
    → (c == lf) ≡ false
    → replace_pair cr lf new (cr ∷ c ∷ ys) ≡ cr ∷ replace_pair cr lf new (c ∷ ys)
unfolding replace_pair
pass_cr new c ys h = rw (h, replace_pair) refl

pub replace-id : (c : ℕ) (new text : List ℕ) → has c text ≡ false → replace c new text ≡ text
unfolding replace
replace-id c new [] h = refl
replace-id c new (d ∷ text) h = ground (arith, replace-id c new text)

pub split-append :
    (c : ℕ) (xs ys : List ℕ) → has c xs ≡ false → split c (xs ++ (c ∷ ys)) ≡ xs ∷ split c ys
unfolding split
split-append c [] ys h = ground arith
split-append c (d ∷ xs) ys h = ground (arith, split-append c xs ys)

pub has-append_left : (c : ℕ) (xs ys : List ℕ) → has c (xs ++ ys) ≡ false → has c xs ≡ false
has-append_left c [] ys h = refl
has-append_left c (d ∷ xs) ys h = ground (arith, has-append_left c xs ys)

pub has-append_right : (c : ℕ) (xs ys : List ℕ) → has c (xs ++ ys) ≡ false → has c ys ≡ false
has-append_right c [] ys h = h
has-append_right c (d ∷ xs) ys h = has-append_right c xs ys (ground arith)
