-- ===== src/Webapi/Escape/Split.antt =====
-- Escaped parts, joined by a separator and split again.
use jornada_link.Common.{
  ℕ, ◌≡◌, refl, sym, ap, ap₂, ◌∙◌, true, ◌||◌, List, [], ◌∷◌, ◌++◌, map, append_assoc, append-nil,
  ◌==◌, arith,
}
use jornada_link.Webapi.Chars.{join}
use jornada_link.Webapi.Escape.{escape, unescape, split_loop, split_unescaped}
use jornada_link.Webapi.Escape.RoundTrip.{
  escaped, escape_all, escape_lem, line_breaks, unescape-escape,
}

-- The separators of lists and of structured values.
abbrev pub IsSeparator : ℕ → Type 0
IsSeparator separator = ((separator == b';') || (separator == b',')) ≡ true

module _ (separator : ℕ) (h : IsSeparator separator) where
  -- What is written for a character is kept together.
  split_one :
      (c : ℕ) (current ys : List ℕ)
      → split_loop separator current (escaped c ++ ys)
        ≡ split_loop separator (current ++ escaped c) ys
  unfolding split_loop
  split_one c current [] = ground arith
  split_one c current (d ∷ ys) = ground arith

  split_separator :
      (current ys : List ℕ)
      → split_loop separator current (separator ∷ ys) ≡ current ∷ split_loop separator [] ys
  unfolding split_loop
  split_separator current [] = ground arith
  split_separator current (d ∷ ys) = ground arith

  split_escaped :
      (text current ys : List ℕ)
      → split_loop separator current (escape_all text ++ ys)
        ≡ split_loop separator (current ++ escape_all text) ys
  unfolding escape_all
  split_escaped [] current ys = ap (λ xs. split_loop separator xs ys) (sym (append-nil current))
  split_escaped (c ∷ text) current ys =
      ap (split_loop separator current) (append_assoc (escaped c) (escape_all text) ys)
      ∙ (split_one c current (escape_all text ++ ys)
          ∙ (split_escaped text (current ++ escaped c) ys
              ∙ ap (λ xs. split_loop separator xs ys) (append_assoc current (escaped c) _)))

  split_part :
      (part ys : List ℕ)
      → split_loop separator [] (escape part ++ ys) ≡ split_loop separator (escape part) ys
  split_part part ys = rw (escape_lem part) (split_escaped (line_breaks part) [] ys)

  -- Splitting at the separators gives the escaped parts back.
  split-join :
      (part : List ℕ) (parts : List (List ℕ))
      → split_unescaped (join (separator ∷ []) (map escape (part ∷ parts))) separator
        ≡ map escape (part ∷ parts)
  unfolding join split_loop
  split-join part [] =
      ap (split_loop separator []) (sym (append-nil (escape part))) ∙ split_part part []
  split-join part (part' ∷ parts) =
      split_part part (separator ∷ join (separator ∷ []) (map escape (part' ∷ parts)))
      ∙ (split_separator (escape part) _ ∙ ap (◌∷◌ (escape part)) (split-join part' parts))

  map-unescape-escape :
      (parts : List (List ℕ)) → map unescape (map escape parts) ≡ map line_breaks parts
  map-unescape-escape [] = refl
  map-unescape-escape (part ∷ parts) = ap₂ (◌∷◌) (unescape-escape part) (map-unescape-escape parts)

  -- A value of one part or more, each escaped and joined by semicolons or by commas, is split by
  -- `split_unescaped` and `unescape` into the same parts, with every line break as a line feed: no
  -- separator or backslash in a part is taken for the value's own.
  pub unescape-split-join :
      (part : List ℕ) (parts : List (List ℕ))
      → map unescape (split_unescaped (join (separator ∷ []) (map escape (part ∷ parts))) separator)
        ≡ map line_breaks (part ∷ parts)
  unescape-split-join part parts =
      ap (map unescape) (split-join part parts) ∙ map-unescape-escape (part ∷ parts)
