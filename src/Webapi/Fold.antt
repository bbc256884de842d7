-- ===== src/Webapi/Fold.antt =====
-- The folded lines of jornada/webapi/_textprops.py.
pub mod Pieces
pub mod RoundTrip
use jornada_link.Common.{
  ℕ, zero, suc, ◌-◌, Bool, true, false, ◌&&◌, ◌||◌, Option, none, some, List, [], ◌∷◌, ◌++◌, drop,
  ltb, leb, ◌==◌, if◌then◌else◌,
}
use jornada_link.Webapi.Chars.{cr, lf, tab, replace, replace_pair, split, join, strip, strip_left}

abbrev pub bom : ℕ
bom = 0xFEFF

abbrev pub space : ℕ
space = 0x20

-- `FOLD_LIMIT`
abbrev pub fold_limit : ℕ
fold_limit = 75

-- Whether there is something in a list.
abbrev pub filled {ℓ} : {A : Type ℓ} → List A → Bool
filled [] = false
filled (x ∷ xs) = true

-- `lines[-1] += text`, for lines that are not empty
unfoldable pub extend_last : List (List ℕ) → List ℕ → List (List ℕ)
extend_last [] text = []
extend_last (line ∷ []) text = (line ++ text) ∷ []
extend_last (line ∷ line' ∷ lines) text = line ∷ extend_last (line' ∷ lines) text

-- `physical[:1] in (" ", "\t")`
abbrev pub continues : List ℕ → Bool
continues [] = false
continues (c ∷ physical) = (c == space) || (c == tab)

-- the body of the loop of `unfold`
unfoldable pub add_physical : List (List ℕ) → List ℕ → List (List ℕ)
unfolding extend_last strip
add_physical lines physical =
    if continues physical && filled lines
    then extend_last lines (drop 1 physical)
    else (if filled (strip physical) then lines ++ (physical ∷ []) else lines)

unfoldable pub unfold_loop : List (List ℕ) → List (List ℕ) → List (List ℕ)
unfolding add_physical
unfold_loop lines [] = lines
unfold_loop lines (physical ∷ later) = unfold_loop (add_physical lines physical) later

-- the physical lines of a text
abbrev pub physical_lines : List ℕ → List (List ℕ)
physical_lines text = split lf (replace cr (lf ∷ []) (replace_pair cr lf (lf ∷ []) text))

-- `unfold`
unfoldable pub unfold_text : List ℕ → List (List ℕ)
unfolding unfold_loop
unfold_text text = unfold_loop [] (physical_lines (strip_left (λ c. c == bom) text))

-- `len(char.encode("utf-8"))`, which raises for a surrogate
unfoldable pub utf8_size : ℕ → Option ℕ
utf8_size c =
    if ltb c 0x80
    then some 1
    else (if ltb c 0x800
        then some 2
        else (if leb 0xD800 c && leb c 0xDFFF
            then none
            else (if ltb c 0x10000 then some 3 else some 4)))

abbrev pub prepend : List ℕ → Option (List (List ℕ)) → Option (List (List ℕ))
prepend chunk none = none
prepend chunk (some chunks) = some (chunk ∷ chunks)

-- The loop of `fold`, with the characters still to come. Where the source's budget falls below zero,
-- it is zero here: a character, of one octet at least, is larger than either.
unfoldable pub fold_loop : ℕ → List ℕ → List ℕ → ℕ → Option (List (List ℕ))
unfolding utf8_size
fold_loop limit [] current budget = some (current ∷ [])
fold_loop limit (c ∷ line) current budget = elim (utf8_size c) [
  | none ↦ none
  | some size ↦ elim (filled current && ltb budget size) [
    | true ↦ prepend current (fold_loop limit line (c ∷ []) (limit - 1 - size))
    | false ↦ fold_loop limit line (current ++ (c ∷ [])) (budget - size)
  ]
]

-- `fold`; none is the UnicodeEncodeError
unfoldable pub fold : List ℕ → ℕ → Option (List ℕ)
unfolding fold_loop join
fold line limit = elim (fold_loop limit line [] limit) [
  | none ↦ none
  | some chunks ↦ some (join (cr ∷ lf ∷ space ∷ []) chunks)
]
