-- ===== src/Sync/Pairing/Once.antt =====
-- Pairing takes each item that no link names exactly once.
use jornada_link.Common.{
  String, ◌≡◌, refl, none, some, List, [], ◌∷◌, ◌++◌, map, append_assoc, Option-cases, inl, inr,
  arith, ap, ◌∙◌,
}
use jornada_link.Sync.Model.{
  Model, Item, Options, Action, create_local, create_remote, link, skip, match_key,
}
use jornada_link.Sync.Linked.{resolve_conflict}
use jornada_link.Sync.Pairing.Leftover.{
  occurrences, occurrences-append, ids, count_id, occurrences-nil, leftover-pop_candidate,
  leftover-group_unmatched,
}
use jornada_link.Sync.Pairing.{
  pair, pop_candidate, leftover, create_local_or_skip, group_unmatched, pair_loop, pair_new,
}

module _ {ℓ} {R : Type ℓ} where
  -- The remote item that pairing decides upon by an action: one that it links, creates on the device
  -- or leaves out. The update that may follow a link is about the same pair, and decides no further.
  abbrev remote_decision : Action R → List String
  remote_decision (link _ r _ _) = r ∷ []
  remote_decision (create_local r _ _) = r ∷ []
  remote_decision (skip none (some r) _ _) = r ∷ []
  remote_decision _ = []

  abbrev local_decision : Action R → List String
  local_decision (link l _ _ _) = l ∷ []
  local_decision (create_remote l _ _) = l ∷ []
  local_decision (skip (some l) none _ _) = l ∷ []
  local_decision _ = []

  abbrev pub decided_remote : List (Action R) → List String
  decided_remote [] = []
  decided_remote (a ∷ actions) = remote_decision a ++ decided_remote actions

  abbrev pub decided_local : List (Action R) → List String
  decided_local [] = []
  decided_local (a ∷ actions) = local_decision a ++ decided_local actions

  decided_remote-append :
      (xs ys : List (Action R)) → decided_remote (xs ++ ys) ≡ decided_remote xs ++ decided_remote ys
  decided_remote-append [] ys = refl
  decided_remote-append (x ∷ xs) ys = rw (decided_remote-append xs ys, ← append_assoc)

  decided_local-append :
      (xs ys : List (Action R)) → decided_local (xs ++ ys) ≡ decided_local xs ++ decided_local ys
  decided_local-append [] ys = refl
  decided_local-append (x ∷ xs) ys = rw (decided_local-append xs ys, ← append_assoc)

module _ {ℓ} {R : Type ℓ} ⦃m : Model R⦄ where
  module _ (o : Options) where
    decided_remote-rest :
        (items : List (Item R)) → decided_remote (map (create_local_or_skip o) items) ≡ ids items
    decided_remote-rest [] = refl
    decided_remote-rest (x ∷ items) = ground (arith, decided_remote-rest items)

    decided_local-rest :
        (items : List (Item R)) → decided_local (map (create_local_or_skip o) items) ≡ []
    decided_local-rest [] = refl
    decided_local-rest (x ∷ items) = ground (arith, decided_local-rest items)

    decided_remote-pair : (x y : Item R) → decided_remote (pair x y o) ≡ y.id ∷ []
    unfolding pair resolve_conflict
    decided_remote-pair x y = ground arith

    decided_local-pair : (x y : Item R) → decided_local (pair x y o) ≡ x.id ∷ []
    unfolding pair resolve_conflict
    decided_local-pair x y = ground arith

    pair_loop-remote :
        (k : String) (items : List (Item R)) (d : List (String × List (Item R)))
        → occurrences k (decided_remote (pair_loop items d o)) ≡ count_id k (leftover d)
    unfolding pair_loop
    pair_loop-remote k [] d = rw (decided_remote-rest (leftover d))
    pair_loop-remote k (x ∷ items) d = elim (Option-cases (pop_candidate (match_key x) d)) [
      | inl e ↦ rw (e, pair_loop) (ground (arith, pair_loop-remote k items d))
      | inr (p, e) ↦
          rw (e, pair_loop, decided_remote-append, decided_remote-pair)
            (omega (
              arith,
              pair_loop-remote k items p.1,
              leftover-pop_candidate k (match_key x) d p.0 p.1 e,
              occurrences-append k (p.0.id ∷ []) (decided_remote (pair_loop items p.1 o)),
            ))
    ]

    decided_local-pair_loop :
        (items : List (Item R)) (d : List (String × List (Item R)))
        → decided_local (pair_loop items d o) ≡ ids items
    unfolding pair_loop
    decided_local-pair_loop [] d = decided_local-rest (leftover d)
    decided_local-pair_loop (x ∷ items) d = elim (Option-cases (pop_candidate (match_key x) d)) [
      | inl e ↦ rw (e, pair_loop) (ground (arith, decided_local-pair_loop items d))
      | inr (p, e) ↦
          rw (e, pair_loop, decided_local-append, decided_local-pair)
            (ap (◌∷◌ x.id) (decided_local-pair_loop items p.1))
    ]

    -- Pairing decides exactly once on every item that no link names: on the device's items in their
    -- order, and on each remote id as often as the listing has it.
    pub pair_new-once :
        (new_local new_remote : List (Item R))
        → (decided_local (pair_new new_local new_remote o) ≡ ids new_local)
          × ((k : String)
              → occurrences k (decided_remote (pair_new new_local new_remote o))
                ≡ occurrences k (ids new_remote))
    unfolding pair_new
    pair_new-once new_local new_remote = (
      decided_local-pair_loop new_local (group_unmatched [] new_remote),
      λ k.
          pair_loop-remote k new_local (group_unmatched [] new_remote)
          ∙ leftover-group_unmatched k [] new_remote
          ∙ omega (arith, occurrences-nil k),
    )
