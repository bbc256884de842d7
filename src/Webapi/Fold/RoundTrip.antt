-- ===== src/Webapi/Fold/RoundTrip.antt =====
-- What `unfold` gives back of folded lines.
use jornada_link.Common.{
  ℕ, ◌≤◌, ◌≡◌, refl, sym, ap, ◌∙◌, Bool, true, false, not, drop, ◌&&◌, Option, none, some, List, [],
  ◌∷◌, ◌++◌, map, append_assoc, append-nil, All, arith, ◌==◌, if◌then◌else◌,
}
use jornada_link.Webapi.Chars.{
  cr, lf, has, is_space, replace, replace_pair, split, join, strip, strip_left, strip_right,
}
use jornada_link.Webapi.Replace.{
  replace-append, pass-append, replace-id, split-append, has-append_left, has-append_right,
}
use jornada_link.Webapi.Fold.{
  bom, space, filled, continues, extend_last, add_physical, unfold_loop, physical_lines,
  unfold_text, fold,
}
use jornada_link.Webapi.Fold.Pieces.{
  IsScalar, joined, Folded, folded_lines, join_lines, fold_run, fold_equation,
}

-- A text without line breaks.
abbrev pub IsOneLine : List ℕ → Type 0
IsOneLine text = (has cr text ≡ false) × (has lf text ≡ false)

IsOneLine-left : (xs ys : List ℕ) → IsOneLine (xs ++ ys) → IsOneLine xs
IsOneLine-left xs ys h = (has-append_left cr xs ys h.0, has-append_left lf xs ys h.1)

IsOneLine-right : (xs ys : List ℕ) → IsOneLine (xs ++ ys) → IsOneLine ys
IsOneLine-right xs ys h = (has-append_right cr xs ys h.0, has-append_right lf xs ys h.1)

joined-IsOneLine : (pieces : List (List ℕ)) → IsOneLine (joined pieces) → All IsOneLine pieces
joined-IsOneLine [] h = tt
joined-IsOneLine (piece ∷ pieces) h = (
  IsOneLine-left piece (joined pieces) h,
  joined-IsOneLine pieces (IsOneLine-right piece (joined pieces) h),
)

physical_step :
    (xs ys : List ℕ) → IsOneLine xs → physical_lines (xs ++ (cr ∷ lf ∷ ys)) ≡ xs ∷ physical_lines ys
unfolding replace replace_pair
physical_step xs ys (no_cr, no_lf) =
    let later = replace_pair cr lf (lf ∷ []) ys in
    ap (λ t. split lf (replace cr (lf ∷ []) t)) (pass-append (lf ∷ []) xs (cr ∷ lf ∷ ys) no_cr)
    ∙ (ap (split lf) (
          replace-append cr (lf ∷ []) xs (lf ∷ later)
          ∙ ap (λ t. t ++ (lf ∷ replace cr (lf ∷ []) later)) (replace-id cr (lf ∷ []) xs no_cr))
        ∙ split-append lf xs (replace cr (lf ∷ []) later) no_lf)

physical_join :
    (first : List ℕ) (rest : List (List ℕ)) (tail : List ℕ)
    → All IsOneLine (first ∷ rest)
    → physical_lines (join (cr ∷ lf ∷ []) (first ∷ rest) ++ (cr ∷ lf ∷ tail))
      ≡ (first ∷ rest) ++ physical_lines tail
unfolding join
physical_join first [] tail h = physical_step first tail h.0
physical_join first (next ∷ rest) tail h =
    ap physical_lines
      (append_assoc first (cr ∷ lf ∷ join (cr ∷ lf ∷ []) (next ∷ rest)) (cr ∷ lf ∷ tail))
    ∙ (physical_step first (join (cr ∷ lf ∷ []) (next ∷ rest) ++ (cr ∷ lf ∷ tail)) h.0
        ∙ ap (◌∷◌ first) (physical_join next rest tail h.1))

extend_last_snoc :
    (lines : List (List ℕ)) (line text : List ℕ)
    → extend_last (lines ++ (line ∷ [])) text ≡ lines ++ ((line ++ text) ∷ [])
unfolding extend_last
extend_last_snoc [] line text = refl
extend_last_snoc (l ∷ []) line text = refl
extend_last_snoc (l ∷ l' ∷ lines) line text = ap (◌∷◌ l) (extend_last_snoc (l' ∷ lines) line text)

filled_snoc : (lines : List (List ℕ)) (line : List ℕ) → filled (lines ++ (line ∷ [])) ≡ true
filled_snoc [] line = refl
filled_snoc (l ∷ lines) line = refl

-- A continuation is added to the last line.
add_continuation :
    (lines : List (List ℕ)) (line piece : List ℕ)
    → add_physical (lines ++ (line ∷ [])) (space ∷ piece) ≡ lines ++ ((line ++ piece) ∷ [])
unfolding add_physical drop
add_continuation lines line piece = rw (filled_snoc lines line) (extend_last_snoc lines line piece)

-- The first character is neither white space nor a byte order mark.
abbrev pub starts : List ℕ → Bool
starts [] = false
starts (c ∷ more) = not (is_space c) && not (c == bom)

both_not : (a b : Bool) → (not a && not b) ≡ true → (a ≡ false) × (b ≡ false)
both_not a b h = ground arith

not_continuing : (c : ℕ) (more : List ℕ) → starts (c ∷ more) ≡ true → continues (c ∷ more) ≡ false
unfolding is_space
not_continuing c more h = ground arith

filled-strip_right :
    (c : ℕ) (more : List ℕ) → is_space c ≡ false → filled (strip_right is_space (c ∷ more)) ≡ true
unfolding strip_right
filled-strip_right c more h =
    elim (strip_right is_space more)
      as (λ stripped.
        filled (elim stripped as (λ x. List ℕ) [
          | [] ↦ if is_space c then [] else c ∷ []
          | d ∷ rest ↦ c ∷ d ∷ rest
        ])
        ≡ true) [ [] ↦ rw h refl | d ∷ rest ↦ refl ]

filled-strip : (c : ℕ) (more : List ℕ) → starts (c ∷ more) ≡ true → filled (strip (c ∷ more)) ≡ true
unfolding strip strip_left
filled-strip c more h =
    let e = (both_not (is_space c) (c == bom) h).0 in
    rw (e, strip_left) (filled-strip_right c more e)

-- A line that starts so begins a new line.
add_line :
    (lines : List (List ℕ)) (line : List ℕ)
    → starts line ≡ true
    → add_physical lines line ≡ lines ++ (line ∷ [])
unfolding add_physical
add_line lines [] h = absurd (ground arith)
add_line lines (c ∷ more) h = rw (not_continuing c more h, filled-strip c more h) refl

unfold_pieces :
    (lines : List (List ℕ)) (line : List ℕ) (rest later : List (List ℕ))
    → unfold_loop (lines ++ (line ∷ [])) (map (λ piece. space ∷ piece) rest ++ later)
      ≡ unfold_loop (lines ++ ((line ++ joined rest) ∷ [])) later
unfolding unfold_loop
unfold_pieces lines line [] later =
    ap (λ l. unfold_loop (lines ++ (l ∷ [])) later) (sym (append-nil line))
unfold_pieces lines line (piece ∷ rest) later =
    ap (λ ls. unfold_loop ls (map (λ p. space ∷ p) rest ++ later))
      (add_continuation lines line piece)
    ∙ (unfold_pieces lines (line ++ piece) rest later
        ∙ ap (λ l. unfold_loop (lines ++ (l ∷ [])) later) (append_assoc line piece (joined rest)))

-- A line that can be folded and found again: of characters that UTF-8 can encode, without line
-- breaks, and starting with neither white space nor a byte order mark.
abbrev pub IsLogical : List ℕ → Type 0
IsLogical line = (starts line ≡ true) × All IsScalar line × IsOneLine line

-- What `"\r\n".join(...) + "\r\n"` makes of the folded lines.
unfoldable pub write_lines : ℕ → List (List ℕ) → Option (List ℕ)
unfolding fold
write_lines limit [] = some []
write_lines limit (line ∷ lines) = elim (fold line limit) [
  | none ↦ none
  | some text ↦ elim (write_lines limit lines) [
    | none ↦ none
    | some more ↦ some (text ++ (cr ∷ lf ∷ more))
  ]
]

starts-filled : (line : List ℕ) → starts line ≡ true → filled line ≡ true
starts-filled [] h = absurd (ground arith)
starts-filled (c ∷ more) h = refl

starts-left : (xs ys : List ℕ) → filled xs ≡ true → starts (xs ++ ys) ≡ starts xs
starts-left [] ys h = absurd (ground arith)
starts-left (c ∷ xs) ys h = refl

starts-join :
    (separator first : List ℕ) (rest : List (List ℕ))
    → starts first ≡ true
    → starts (join separator (first ∷ rest)) ≡ true
unfolding join
starts-join separator first [] h = h
starts-join separator first (next ∷ rest) h = starts-left first _ (starts-filled first h) ∙ h

strip-starts : (text : List ℕ) → starts text ≡ true → strip_left (λ c. c == bom) text ≡ text
unfolding strip_left
strip-starts [] h = refl
strip-starts (c ∷ text) h = rw ((both_not (is_space c) (c == bom) h).1, strip_left) refl

write_step :
    (limit : ℕ) (line text more : List ℕ) (lines : List (List ℕ))
    → fold line limit ≡ some text
    → write_lines limit lines ≡ some more
    → write_lines limit (line ∷ lines) ≡ some (text ++ (cr ∷ lf ∷ more))
unfolding write_lines
write_step limit line text more lines e f = rw (e, write_lines, f)

module _ {limit : ℕ} {line : List ℕ} (F : Folded limit line [] limit limit)
    (h : IsLogical line) where
  first-starts : starts F.first ≡ true
  first-starts =
      sym (starts-left F.first (joined F.rest) (F.begun ∙ starts-filled line h.0))
      ∙ (ap starts F.whole ∙ h.0)

  space-IsOneLine :
      (rest : List (List ℕ))
      → All IsOneLine rest
      → All IsOneLine (map (λ piece. space ∷ piece) rest)
  space-IsOneLine [] k = tt
  space-IsOneLine (piece ∷ rest) k = (k.0, space-IsOneLine rest k.1)

  folded-IsOneLine : All IsOneLine (folded_lines F.first F.rest)
  folded-IsOneLine =
      let pieces = joined-IsOneLine (F.first ∷ F.rest) (rw F.whole h.2) in
      (pieces.0, space-IsOneLine F.rest pieces.1)

  -- The physical lines of a folded line give it back, and the lines after it follow.
  unfold_folded :
      (lines later : List (List ℕ))
      → unfold_loop lines (folded_lines F.first F.rest ++ later)
        ≡ unfold_loop (lines ++ (line ∷ [])) later
  unfolding unfold_loop
  unfold_folded lines later =
      ap (λ ls. unfold_loop ls (map (λ p. space ∷ p) F.rest ++ later))
        (add_line lines F.first first-starts)
      ∙ (unfold_pieces lines F.first F.rest later
          ∙ ap (λ l. unfold_loop (lines ++ (l ∷ [])) later) F.whole)

record Written (limit : ℕ) (lines : List (List ℕ)) : Type 0 where
  text : List ℕ
  run : write_lines limit lines ≡ some text
  back : (before : List (List ℕ)) → unfold_loop before (physical_lines text) ≡ before ++ lines
  begins : strip_left (λ c. c == bom) text ≡ text

lines-Written :
    (limit : ℕ) (lines : List (List ℕ)) → 5 ≤ limit → All IsLogical lines → Written limit lines
unfolding write_lines unfold_loop add_physical strip strip_left strip_right split replace
    replace_pair
lines-Written limit [] most all = record {
  text = [];
  run = refl;
  back = λ before. sym (append-nil before);
  begins = refl;
}
lines-Written limit (line ∷ lines) most (h, all) =
    let F = fold_run line limit most h.1 in
    let W = lines-Written limit lines most all in
    let folded = join (cr ∷ lf ∷ space ∷ []) (F.first ∷ F.rest) in
    record {
      text = folded ++ (cr ∷ lf ∷ W.text);
      run = write_step limit line folded W.text lines (fold_equation line limit F) W.run;
      back = λ before.
          ap (λ t. unfold_loop before (physical_lines (t ++ (cr ∷ lf ∷ W.text))))
            (join_lines F.first F.rest)
          ∙ (ap (unfold_loop before)
                (physical_join F.first (map (λ p. space ∷ p) F.rest) W.text (folded-IsOneLine F h))
              ∙ (unfold_folded F h before (physical_lines W.text)
                  ∙ (W.back (before ++ (line ∷ [])) ∙ append_assoc before (line ∷ []) lines)));
      begins = strip-starts (folded ++ (cr ∷ lf ∷ W.text)) (
          let e = starts-join (cr ∷ lf ∷ space ∷ []) F.first F.rest (first-starts F h) in
          starts-left folded _ (starts-filled folded e) ∙ e);
    }

-- For a limit of 5 octets or more, logical lines of which each has only characters that UTF-8 can
-- encode and no line break, and starts with neither white space nor a byte order mark, can be folded
-- and written with CR LF after each, and `unfold` gives exactly those lines back.
pub unfold-write_lines :
    (limit : ℕ) (lines : List (List ℕ))
    → 5 ≤ limit
    → All IsLogical lines
    → (text : List ℕ) × (write_lines limit lines ≡ some text) × (unfold_text text ≡ lines)
unfolding unfold_text
unfold-write_lines limit lines most all =
    let W = lines-Written limit lines most all in
    (W.text, W.run, ap (λ t. unfold_loop [] (physical_lines t)) W.begins ∙ W.back [])
