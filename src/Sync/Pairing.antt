-- ===== src/Sync/Pairing.antt =====
-- jornada/sync/engine.py: how `plan` pairs the items that no link names.
pub mod Leftover
pub mod Once
use jornada_link.Common.{
  String, true, false, Option, none, some, List, [], ◌∷◌, ◌++◌, map, str_eq, if◌then◌else◌,
}
use jornada_link.Sync.Model.{
  Model, Item, Options, Action, fingerprint, match_key, writes_local, writes_remote,
}
use jornada_link.Sync.Linked.{resolve_conflict}

module _ {ℓ} {R : Type ℓ} ⦃m : Model R⦄ where
  -- `_pair`; `replace(options)` is a copy
  unfoldable pub pair : Item R → Item R → Options → List (Action R)
  unfolding resolve_conflict
  pair local remote options =
      let link = Action.link local.id remote.id local.rec "matched by content" in
      if str_eq (fingerprint local) (fingerprint remote)
      then link ∷ []
      else link ∷ resolve_conflict local remote options ∷ []

-- The dict `unmatched` of `_pair_new` is the list of its match keys in insertion order, each with its
-- items.
-- `unmatched.setdefault(key, []).append(item)`
unfoldable pub add_unmatched {ℓ} :
    {R : Type ℓ} → String → Item R → List (String × List (Item R)) → List (String × List (Item R))
add_unmatched key item [] = (key, item ∷ []) ∷ []
add_unmatched key item ((j, items) ∷ rest) =
    if str_eq j key
    then (j, items ++ (item ∷ [])) ∷ rest
    else (j, items) ∷ add_unmatched key item rest

-- `candidates = unmatched.get(key)`, and if it has any, `candidates.pop(0)`
unfoldable pub pop_candidate {ℓ} :
    {R : Type ℓ}
    → String
    → List (String × List (Item R))
    → Option (Item R × List (String × List (Item R)))
pop_candidate key [] = none
pop_candidate key ((j, []) ∷ rest) =
    let later = pop_candidate key rest in
    elim (str_eq j key) [
      | true ↦ none
      | false ↦ elim later [ none ↦ none | some (x, d) ↦ some (x, (j, []) ∷ d) ]
    ]
pop_candidate key ((j, item ∷ items) ∷ rest) =
    let later = pop_candidate key rest in
    elim (str_eq j key) [
      | true ↦ some (item, (j, items) ∷ rest)
      | false ↦ elim later [ none ↦ none | some (x, d) ↦ some (x, (j, item ∷ items) ∷ d) ]
    ]

-- `for remaining in unmatched.values(): for item in remaining: …`
unfoldable pub leftover {ℓ} : {R : Type ℓ} → List (String × List (Item R)) → List (Item R)
leftover [] = []
leftover ((j, items) ∷ rest) = items ++ leftover rest

module _ {ℓ} {R : Type ℓ} ⦃m : Model R⦄ where
  -- the first loop of `_pair_new`
  unfoldable pub group_unmatched :
      List (String × List (Item R)) → List (Item R) → List (String × List (Item R))
  unfolding add_unmatched
  group_unmatched unmatched [] = unmatched
  group_unmatched unmatched (item ∷ items) =
      group_unmatched (add_unmatched (match_key item) item unmatched) items

  abbrev pub create_remote_or_skip : Options → Item R → Action R
  create_remote_or_skip options item =
      if writes_remote options
      then Action.create_remote item.id item.rec "new on the device"
      else Action.skip (some item.id) none item.rec "new on the device; not writing remote"

  abbrev pub create_local_or_skip : Options → Item R → Action R
  create_local_or_skip options item =
      if writes_local options
      then Action.create_local item.id item.rec "new remotely"
      else Action.skip none (some item.id) item.rec "new remotely; not writing device"

  -- the second and the third loop of `_pair_new`
  unfoldable pub pair_loop :
      List (Item R) → List (String × List (Item R)) → Options → List (Action R)
  unfolding leftover
  pair_loop [] unmatched options = map (create_local_or_skip options) (leftover unmatched)
  pair_loop (item ∷ items) unmatched options = elim (pop_candidate (match_key item) unmatched) [
    | none ↦ create_remote_or_skip options item ∷ pair_loop items unmatched options
    | some (partner, rest) ↦ pair item partner options ++ pair_loop items rest options
  ]

  -- `_pair_new`
  unfoldable pub pair_new : List (Item R) → List (Item R) → Options → List (Action R)
  unfolding pair pair_loop group_unmatched pop_candidate
  pair_new new_local new_remote options =
      pair_loop new_local (group_unmatched [] new_remote) options
