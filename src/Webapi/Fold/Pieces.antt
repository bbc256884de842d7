-- ===== src/Webapi/Fold/Pieces.antt =====
-- The pieces that a line is folded into.
use jornada_link.Common.{
  ℕ, ◌+◌, ◌-◌, ◌≤◌, ◌≡◌, refl, sym, ap, ◌∙◌, inl, inr, true, false, ◌&&◌, Option, none, some, List,
  [], ◌∷◌, ◌++◌, map, append_assoc, append-nil, All, arith, ltb, Bool-cases,
}
use jornada_link.Webapi.Chars.{cr, lf, join}
use jornada_link.Webapi.Fold.{space, filled, utf8_size, fold_loop, fold}

-- A character that UTF-8 can encode, in `size` octets.
abbrev pub IsScalar : ℕ → Type 0
IsScalar c = (size : ℕ) × (utf8_size c ≡ some size)

abbrev pub octets_of : Option ℕ → ℕ
octets_of none = 0
octets_of (some size) = size

-- The octets of a text in UTF-8.
unfoldable pub octets : List ℕ → ℕ
unfolding utf8_size
octets [] = 0
octets (c ∷ text) = octets_of (utf8_size c) + octets text

abbrev pub joined : List (List ℕ) → List ℕ
joined [] = []
joined (piece ∷ pieces) = piece ++ joined pieces

size_le : (c size : ℕ) → utf8_size c ≡ some size → size ≤ 4
unfolding utf8_size
size_le c size h = ground arith

octets-append : (xs ys : List ℕ) → octets (xs ++ ys) ≡ octets xs + octets ys
unfolding octets
octets-append [] ys = omega arith
octets-append (c ∷ xs) ys = omega (arith, octets-append xs ys)

octets_one : (c size : ℕ) → utf8_size c ≡ some size → octets (c ∷ []) ≡ size
unfolding octets
octets_one c size h = rw h (omega arith)

-- What the loop comes to: the pieces, of which the first has `room` octets at most and the others
-- one less than the limit.
pub record Folded (limit : ℕ) (line current : List ℕ) (budget room : ℕ) : Type 0 where
  pub first : List ℕ
  pub rest : List (List ℕ)
  pub run : fold_loop limit line current budget ≡ some (first ∷ rest)
  pub whole : joined (first ∷ rest) ≡ current ++ line
  pub short : octets first ≤ room
  pub shorter : All (λ piece. octets piece + 1 ≤ limit) rest
  pub begun : filled first ≡ filled (current ++ line)

step_new :
    (limit c size budget : ℕ) (line current : List ℕ) (pieces : List (List ℕ))
    → utf8_size c ≡ some size
    → (filled current && ltb budget size) ≡ true
    → fold_loop limit line (c ∷ []) (limit - 1 - size) ≡ some pieces
    → fold_loop limit (c ∷ line) current budget ≡ some (current ∷ pieces)
unfolding fold_loop
step_new limit c size budget line current pieces e f g = rw (e, fold_loop, f, g)

step_same :
    (limit c size budget : ℕ) (line current : List ℕ) (pieces : List (List ℕ))
    → utf8_size c ≡ some size
    → (filled current && ltb budget size) ≡ false
    → fold_loop limit line (current ++ (c ∷ [])) (budget - size) ≡ some pieces
    → fold_loop limit (c ∷ line) current budget ≡ some pieces
unfolding fold_loop
step_same limit c size budget line current pieces e f g = rw (e, fold_loop, f, g)

filled_snoc : (c : ℕ) (current : List ℕ) → filled (current ++ (c ∷ [])) ≡ true
filled_snoc c [] = refl
filled_snoc c (d ∷ current) = refl

filled_left : (xs ys : List ℕ) → filled xs ≡ true → filled (xs ++ ys) ≡ true
filled_left [] ys h = absurd (ground arith)
filled_left (c ∷ xs) ys h = refl

room_for :
    (current : List ℕ) (budget size : ℕ)
    → size ≤ 4
    → (filled current ≡ false → 4 ≤ budget)
    → (filled current && ltb budget size) ≡ false
    → size ≤ budget
room_for [] budget size most start h = omega (arith, start refl)
room_for (c ∷ current) budget size most start h = ground arith

fold_loop-Folded :
    (limit : ℕ) (line current : List ℕ) (budget room : ℕ)
    → 5 ≤ limit
    → All IsScalar line
    → octets current + budget ≤ room
    → (filled current ≡ false → 4 ≤ budget)
    → Folded limit line current budget room
unfolding fold_loop
fold_loop-Folded limit [] current budget room most scalars fits start = record {
  first = current;
  rest = [];
  run = refl;
  whole = refl;
  short = omega arith;
  shorter = tt;
  begun = ap filled (sym (append-nil current));
}
fold_loop-Folded limit (c ∷ line) current budget room most ((size, e), scalars) fits start =
    elim (Bool-cases (filled current && ltb budget size)) [
      | inl new ↦
          let F =
            fold_loop-Folded limit line (c ∷ []) (limit - 1 - size) (limit - 1) most scalars
              (omega (arith, octets_one c size e, size_le c size e)) (λ h. absurd (ground arith)) in
          record {
            first = current;
            rest = F.first ∷ F.rest;
            run = step_new limit c size budget line current (F.first ∷ F.rest) e new F.run;
            whole = ap (λ xs. current ++ xs) F.whole;
            short = omega arith;
            shorter = (omega (arith, F.short), F.shorter);
            begun =
                let h : filled current ≡ true = ground arith in
                h ∙ sym (filled_left current (c ∷ line) h);
          }
      | inr same ↦
          let F =
            fold_loop-Folded limit line (current ++ (c ∷ [])) (budget - size) room most scalars
              (omega (
                arith,
                octets-append current (c ∷ []),
                octets_one c size e,
                room_for current budget size (size_le c size e) start same,
              ))
              (λ h. absurd (ground (arith, filled_snoc c current))) in
          record {
            first = F.first;
            rest = F.rest;
            run = step_same limit c size budget line current (F.first ∷ F.rest) e same F.run;
            whole = F.whole ∙ append_assoc current (c ∷ []) line;
            short = F.short;
            shorter = F.shorter;
            begun = F.begun ∙ ap filled (append_assoc current (c ∷ []) line);
          }
    ]

-- The physical lines of a folded line: the first piece, and a space before each other piece.
abbrev pub folded_lines : List ℕ → List (List ℕ) → List (List ℕ)
folded_lines first rest = first ∷ map (λ piece. space ∷ piece) rest

join_push :
    (separator first : List ℕ) (c : ℕ) (rest : List (List ℕ))
    → join separator ((c ∷ first) ∷ rest) ≡ c ∷ join separator (first ∷ rest)
unfolding join
join_push separator first c [] = refl
join_push separator first c (piece ∷ rest) = refl

pub join_lines :
    (first : List ℕ) (rest : List (List ℕ))
    → join (cr ∷ lf ∷ space ∷ []) (first ∷ rest) ≡ join (cr ∷ lf ∷ []) (folded_lines first rest)
unfolding join
join_lines first [] = refl
join_lines first (piece ∷ rest) =
    ap (λ ys. first ++ (cr ∷ lf ∷ ys))
      (ap (◌∷◌ space) (join_lines piece rest)
        ∙ sym (join_push (cr ∷ lf ∷ []) piece space (map (λ p. space ∷ p) rest)))

lines_short :
    (limit : ℕ) (rest : List (List ℕ))
    → All (λ piece. octets piece + 1 ≤ limit) rest
    → All (λ line. octets line ≤ limit) (map (λ piece. space ∷ piece) rest)
unfolding octets utf8_size
lines_short limit [] h = tt
lines_short limit (piece ∷ rest) h = (omega (arith, h.0), lines_short limit rest h.1)

pub fold_run :
    (line : List ℕ) (limit : ℕ) → 5 ≤ limit → All IsScalar line → Folded limit line [] limit limit
unfolding octets
fold_run line limit most scalars =
    fold_loop-Folded limit line [] limit limit most scalars (omega arith) (λ h. omega arith)

pub fold_equation :
    (line : List ℕ) (limit : ℕ) (F : Folded limit line [] limit limit)
    → fold line limit ≡ some (join (cr ∷ lf ∷ space ∷ []) (F.first ∷ F.rest))
unfolding fold
fold_equation line limit F = rw (F.run, fold)

-- For a limit of 5 octets or more, `fold` does not raise on a line of characters that UTF-8 can
-- encode: it gives physical lines joined by CR LF, each of at most `limit` octets, that are the line's
-- pieces in order with a space before each piece but the first.
pub fold_lem :
    (line : List ℕ) (limit : ℕ)
    → 5 ≤ limit
    → All IsScalar line
    → (first : List ℕ) × (rest : List (List ℕ)) × (fold line limit
        ≡ some (join (cr ∷ lf ∷ []) (folded_lines first rest)))
      × (joined (first ∷ rest) ≡ line)
      × All (λ physical. octets physical ≤ limit) (folded_lines first rest)
fold_lem line limit most scalars =
    let F = fold_run line limit most scalars in
    (
      F.first,
      F.rest,
      fold_equation line limit F ∙ ap some (join_lines F.first F.rest),
      F.whole,
      (F.short, lines_short limit F.rest F.shorter),
    )
