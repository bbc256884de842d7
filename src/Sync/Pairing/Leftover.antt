-- ===== src/Sync/Pairing/Leftover.antt =====
-- How often an id stands among the items of the dict `unmatched`.
use jornada_link.Common.{
  ℕ, suc, ◌+◌, String, ◌≡◌, refl, some, List, [], ◌∷◌, ◌++◌, map, Option-cases, inl, inr, arith,
  str_eq, string_discrete, if◌then◌else◌,
}
use mathlib.Core.Logic.{if_pos, if_neg}
use jornada_link.Sync.Model.{Model, Item, match_key}
use jornada_link.Sync.Pairing.{add_unmatched, pop_candidate, leftover, group_unmatched}

-- How often a text stands in a list of them.
unfoldable pub occurrences : String → List String → ℕ
occurrences k [] = 0
occurrences k (j ∷ ids) = let rest = occurrences k ids in if str_eq j k then suc rest else rest

pub occurrences-nil : (k : String) → occurrences k [] ≡ 0
unfolding occurrences
occurrences-nil k = refl

pub occurrences-append :
    (k : String) (xs ys : List String)
    → occurrences k (xs ++ ys) ≡ occurrences k xs + occurrences k ys
unfolding occurrences
occurrences-append k [] ys = omega arith
occurrences-append k (x ∷ xs) ys = ground (arith, occurrences-append k xs ys)

module _ {ℓ} {R : Type ℓ} where
  abbrev pub ids : List (Item R) → List String
  ids = map (λ x. x.id)

  abbrev pub count_id : String → List (Item R) → ℕ
  count_id k items = occurrences k (ids items)

  count_id-append :
      (k : String) (xs ys : List (Item R)) → count_id k (xs ++ ys) ≡ count_id k xs + count_id k ys
  unfolding occurrences
  count_id-append k [] ys = omega arith
  count_id-append k (x ∷ xs) ys = ground (arith, count_id-append k xs ys)

  count_id-cons :
      (k : String) (x : Item R) (xs : List (Item R))
      → count_id k (x ∷ xs) ≡ count_id k (x ∷ []) + count_id k xs
  count_id-cons k x xs = count_id-append k (x ∷ []) xs

  leftover-add_unmatched :
      (k key : String) (x : Item R) (d : List (String × List (Item R)))
      → count_id k (leftover (add_unmatched key x d))
        ≡ count_id k (x ∷ []) + count_id k (leftover d)
  unfolding leftover add_unmatched
  leftover-add_unmatched k key x [] = count_id-cons k x []
  leftover-add_unmatched k key x ((j, items) ∷ d) = elim (string_discrete j key) [
    | yes p ↦ rw (if_pos _ p) (
        omega (
          arith,
          count_id-append k (items ++ (x ∷ [])) (leftover d),
          count_id-append k items (x ∷ []),
          count_id-append k items (leftover d),
        ))
    | no p ↦ rw (if_neg _ p) (
        omega (
          arith,
          count_id-append k items (leftover (add_unmatched key x d)),
          count_id-append k items (leftover d),
          leftover-add_unmatched k key x d,
        ))
  ]

  pub leftover-pop_candidate :
      (k key : String) (d : List (String × List (Item R))) (x : Item R)
      (d' : List (String × List (Item R)))
      → pop_candidate key d ≡ some (x, d')
      → count_id k (leftover d) ≡ count_id k (x ∷ []) + count_id k (leftover d')
  unfolding leftover pop_candidate
  leftover-pop_candidate k key [] x d' h = cc
  leftover-pop_candidate k key ((j, []) ∷ d) x d' h = elim (Option-cases (pop_candidate key d)) [
    | inl e ↦ ground arith
    | inr (p, e) ↦ ground (arith, leftover-pop_candidate k key d p.0 p.1)
  ]
  leftover-pop_candidate k key ((j, y ∷ items) ∷ d) x d' h =
      elim (Option-cases (pop_candidate key d)) [
        | inl e ↦ ground (arith, count_id-cons k y (items ++ leftover d))
        | inr (p, e) ↦ ground (
          arith,
          leftover-pop_candidate k key d p.0 p.1,
          count_id-append k items (leftover d),
          count_id-append k items (leftover p.1),
          count_id-cons k y (items ++ leftover d),
          count_id-cons k y (items ++ leftover p.1),
        )
      ]

module _ {ℓ} {R : Type ℓ} ⦃m : Model R⦄ where
  pub leftover-group_unmatched :
      (k : String) (d : List (String × List (Item R))) (items : List (Item R))
      → count_id k (leftover (group_unmatched d items)) ≡ count_id k (leftover d) + count_id k items
  unfolding group_unmatched
  leftover-group_unmatched k d [] = omega (arith, occurrences-nil k)
  leftover-group_unmatched k d (x ∷ items) = omega (
    arith,
    leftover-group_unmatched k (add_unmatched (match_key x) x d) items,
    leftover-add_unmatched k (match_key x) x d,
    count_id-cons k x items,
  )
