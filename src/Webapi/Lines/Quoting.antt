-- ===== src/Webapi/Lines/Quoting.antt =====
-- Texts that have no separator outside quotes.
use jornada_link.Common.{
  ℕ, suc, ◌+◌, ◌≡◌, refl, sym, ap, ◌∙◌, true, false, List, [], ◌∷◌, ◌++◌, append_assoc, append-nil,
  length, length-append, arith, ◌==◌, Bool-cases, inl, inr,
}
use jornada_link.Webapi.Chars.{has}
use jornada_link.Webapi.Lines.{quote, find_loop, push, split_quoted}

-- The pieces with a text before the first.
abbrev pub before_first : List ℕ → List (List ℕ) → List (List ℕ)
before_first [] pieces = pieces
before_first (c ∷ text) pieces = push c (before_first text pieces)

pub before_first_append :
    (text piece : List ℕ) (pieces : List (List ℕ))
    → before_first text (piece ∷ pieces) ≡ (text ++ piece) ∷ pieces
before_first_append [] piece pieces = refl
before_first_append (c ∷ text) piece pieces = ap (push c) (before_first_append text piece pieces)

split_here :
    (separator : ℕ) (later : List ℕ)
    → (separator == quote) ≡ false
    → split_quoted false separator (separator ∷ later) ≡ [] ∷ split_quoted false separator later
unfolding split_quoted
split_here separator later h = ground arith

-- A text over which the searches and the splits go on, from outside quotes to outside quotes.
pub record IsSealed (separator : ℕ) (text : List ℕ) : Type 0 where
  pub splits :
      (later : List ℕ)
      → split_quoted false separator (text ++ later)
        ≡ before_first text (split_quoted false separator later)
  pub finds :
      (index : ℕ) (later : List ℕ)
      → find_loop false index separator (text ++ later)
        ≡ find_loop false (index + length text) separator later

before_first_both :
    (xs ys : List ℕ) (pieces : List (List ℕ))
    → before_first (xs ++ ys) pieces ≡ before_first xs (before_first ys pieces)
before_first_both [] ys pieces = refl
before_first_both (c ∷ xs) ys pieces = ap (push c) (before_first_both xs ys pieces)

pub IsSealed-append :
    (separator : ℕ) (xs ys : List ℕ)
    → IsSealed separator xs
    → IsSealed separator ys
    → IsSealed separator (xs ++ ys)
IsSealed-append separator xs ys hx hy = record {
  splits = λ later.
      ap (split_quoted false separator) (append_assoc xs ys later)
      ∙ (hx.splits (ys ++ later)
          ∙ (ap (before_first xs) (hy.splits later)
              ∙ sym (before_first_both xs ys (split_quoted false separator later))));
  finds = λ index later.
      ap (find_loop false index separator) (append_assoc xs ys later)
      ∙ (hx.finds index (ys ++ later)
          ∙ (hy.finds (index + length xs) later
              ∙ ap (λ i. find_loop false i separator later) (omega (arith, length-append xs ys))));
}

split_plain :
    (separator c : ℕ) (text : List ℕ)
    → (c == quote) ≡ false
    → (c == separator) ≡ false
    → split_quoted false separator (c ∷ text) ≡ push c (split_quoted false separator text)
unfolding split_quoted
split_plain separator c text h k = rw (h, split_quoted, k) refl

find_plain :
    (separator c index : ℕ) (text : List ℕ)
    → (c == quote) ≡ false
    → (c == separator) ≡ false
    → find_loop false index separator (c ∷ text) ≡ find_loop false (suc index) separator text
unfolding find_loop
find_plain separator c index text h k = rw (h, find_loop, k) refl

-- Without quotes and separators a text is sealed.
pub plain-IsSealed :
    (separator : ℕ) (text : List ℕ)
    → has quote text ≡ false
    → has separator text ≡ false
    → IsSealed separator text
plain-IsSealed separator [] h k = record {
  splits = λ later. refl;
  finds = λ index later. ap (λ i. find_loop false i separator later) (omega arith);
}
plain-IsSealed separator (c ∷ text) h k =
    let S = plain-IsSealed separator text (ground arith) (ground arith) in
    let h' : (c == quote) ≡ false = ground arith in
    let k' : (c == separator) ≡ false = ground arith in
    record {
      splits =
          λ later. split_plain separator c (text ++ later) h' k' ∙ ap (push c) (S.splits later);
      finds = λ index later.
          find_plain separator c index (text ++ later) h' k'
          ∙ (S.finds (suc index) later ∙ ap (λ i. find_loop false i separator later) (omega arith));
    }

split_within :
    (separator c : ℕ) (text : List ℕ)
    → (c == quote) ≡ false
    → split_quoted true separator (c ∷ text) ≡ push c (split_quoted true separator text)
unfolding split_quoted
split_within separator c text h = elim (Bool-cases (c == separator)) [
  | inl e ↦ rw (h, split_quoted, e) refl
  | inr e ↦ rw (h, split_quoted, e) refl
]

find_within :
    (separator c index : ℕ) (text : List ℕ)
    → (c == quote) ≡ false
    → find_loop true index separator (c ∷ text) ≡ find_loop true (suc index) separator text
unfolding find_loop
find_within separator c index text h = elim (Bool-cases (c == separator)) [
  | inl e ↦ rw (h, find_loop, e) refl
  | inr e ↦ rw (h, find_loop, e) refl
]

-- Within quotes a text is passed over up to the closing quote.
split_inside :
    (separator : ℕ) (text later : List ℕ)
    → has quote text ≡ false
    → split_quoted true separator (text ++ (quote ∷ later))
      ≡ before_first (text ++ (quote ∷ [])) (split_quoted false separator later)
unfolding split_quoted
split_inside separator [] later h = refl
split_inside separator (c ∷ text) later h =
    split_within separator c (text ++ (quote ∷ later)) (ground arith)
    ∙ ap (push c) (split_inside separator text later (ground arith))

find_inside :
    (separator index : ℕ) (text later : List ℕ)
    → has quote text ≡ false
    → find_loop true index separator (text ++ (quote ∷ later))
      ≡ find_loop false (suc (index + length text)) separator later
unfolding find_loop
find_inside separator index [] later h = ap (λ i. find_loop false i separator later) (omega arith)
find_inside separator index (c ∷ text) later h =
    find_within separator c index (text ++ (quote ∷ later)) (ground arith)
    ∙ (find_inside separator (suc index) text later (ground arith)
        ∙ ap (λ i. find_loop false i separator later) (omega arith))

-- A text in quotes is sealed, whatever else it holds.
pub quoted-IsSealed :
    (separator : ℕ) (text : List ℕ)
    → has quote text ≡ false
    → IsSealed separator (quote ∷ (text ++ (quote ∷ [])))
unfolding split_quoted find_loop
quoted-IsSealed separator text h = record {
  splits = λ later. ap (push quote) (
      ap (split_quoted true separator) (append_assoc text (quote ∷ []) later)
      ∙ split_inside separator text later h);
  finds = λ index later.
      ap (find_loop true (suc index) separator) (append_assoc text (quote ∷ []) later)
      ∙ (find_inside separator (suc index) text later h
          ∙ ap (λ i. find_loop false i separator later)
              (omega (arith, length-append text (quote ∷ []))));
}

-- A sealed text is one piece.
pub split-IsSealed :
    (separator : ℕ) (text : List ℕ)
    → IsSealed separator text
    → split_quoted false separator text ≡ text ∷ []
unfolding split_quoted
split-IsSealed separator text S =
    ap (split_quoted false separator) (sym (append-nil text))
    ∙ (S.splits [] ∙ (before_first_append text [] [] ∙ ap (λ t. t ∷ []) (append-nil text)))

-- And so it is before a separator.
pub split_next :
    (separator : ℕ) (text later : List ℕ)
    → (separator == quote) ≡ false
    → IsSealed separator text
    → split_quoted false separator (text ++ (separator ∷ later))
      ≡ text ∷ split_quoted false separator later
split_next separator text later h S =
    S.splits (separator ∷ later)
    ∙ (ap (before_first text) (split_here separator later h)
        ∙ (before_first_append text [] _
            ∙ ap (λ t. t ∷ split_quoted false separator later) (append-nil text)))
