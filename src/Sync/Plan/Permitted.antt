-- ===== src/Sync/Plan/Permitted.antt =====
-- What the options allow, and that no plan goes beyond it.
use jornada_link.Common.{
  String, ◌≡◌, Bool, true, false, ◌&&◌, Option, none, some, List, [], ◌∷◌, map, All, All-append,
  Option-cases, inl, inr, arith,
}
use jornada_link.Sync.Model.{
  Model, Item, Options, Action, create_local, create_remote, update_local, update_remote,
  delete_local, delete_remote, link, unlink, conflict, skip, match_key, writes_local, writes_remote,
}
use jornada_link.Sync.State.{Link, SyncState}
use jornada_link.Sync.Linked.{push, pull, resolve_conflict, plan_link_both, plan_link, plan_links}
use jornada_link.Sync.Pairing.{
  pair, pop_candidate, leftover, create_local_or_skip, group_unmatched, pair_loop, pair_new,
}
use jornada_link.Sync.Plan.{new_items, plan}

module _ {ℓ} {R : Type ℓ} where
  -- Whether the options let an action of this kind happen. A `conflict` is never planned.
  abbrev pub permitted : Options → Action R → Bool
  permitted o (create_local _ _ _) = writes_local o
  permitted o (create_remote _ _ _) = writes_remote o
  permitted o (update_local _ _ _ _) = writes_local o
  permitted o (update_remote _ _ _ _) = writes_remote o
  permitted o (delete_local _ _ _ _) = o.propagate_deletes && writes_local o
  permitted o (delete_remote _ _ _ _) = o.propagate_deletes && writes_remote o
  permitted o (conflict _ _ _ _) = false
  permitted o (link _ _ _ _) = true
  permitted o (unlink _ _ _ _) = true
  permitted o (skip _ _ _ _) = true

  abbrev pub Permitted : Options → List (Action R) → Type 0
  Permitted o = All (λ a. permitted o a ≡ true)

  permitted-resolve_conflict :
      (o : Options) (x y : Item R) → permitted o (resolve_conflict x y o) ≡ true
  unfolding resolve_conflict
  permitted-resolve_conflict o x y = ground arith

module _ {ℓ} {R : Type ℓ} ⦃m : Model R⦄ (o : Options) where
  plan_link_both-Permitted : (l : Link) (x y : Item R) → Permitted o (plan_link_both l x y o)
  unfolding plan_link_both push pull
  plan_link_both-Permitted l x y = ground (arith, permitted-resolve_conflict o x y)

  plan_link-Permitted : (l : Link) (x y : Option (Item R)) → Permitted o (plan_link l x y o)
  unfolding plan_link
  plan_link-Permitted l none none = ground arith
  plan_link-Permitted l (some x) none = ground arith
  plan_link-Permitted l none (some y) = ground arith
  plan_link-Permitted l (some x) (some y) = plan_link_both-Permitted l x y

  plan_links-Permitted :
      (links : List Link) (local remote : List (Item R))
      → Permitted o (plan_links links local remote o)
  unfolding plan_links
  plan_links-Permitted [] local remote = tt
  plan_links-Permitted (l ∷ links) local remote =
      All-append _ (plan_link l _ _ o) _ (plan_link-Permitted l _ _)
        (plan_links-Permitted links local remote)

  pair-Permitted : (x y : Item R) → Permitted o (pair x y o)
  unfolding pair
  pair-Permitted x y = ground (arith, permitted-resolve_conflict o x y)

  leftover-Permitted : (items : List (Item R)) → Permitted o (map (create_local_or_skip o) items)
  leftover-Permitted [] = tt
  leftover-Permitted (x ∷ items) = ground (arith, leftover-Permitted items)

  pair_loop-Permitted :
      (items : List (Item R)) (unmatched : List (String × List (Item R)))
      → Permitted o (pair_loop items unmatched o)
  unfolding pair_loop
  pair_loop-Permitted [] unmatched = leftover-Permitted (leftover unmatched)
  pair_loop-Permitted (x ∷ items) unmatched =
      elim (Option-cases (pop_candidate (match_key x) unmatched)) [
        | inl e ↦ rw (e, pair_loop) (ground (arith, pair_loop-Permitted items unmatched))
        | inr (p, e) ↦
            rw (e, pair_loop)
              (All-append _ (pair x p.0 o) _ (pair-Permitted x p.0) (pair_loop-Permitted items p.1))
      ]

  pair_new-Permitted :
      (new_local new_remote : List (Item R)) → Permitted o (pair_new new_local new_remote o)
  unfolding pair_new
  pair_new-Permitted new_local new_remote =
      pair_loop-Permitted new_local (group_unmatched [] new_remote)

  -- Under every choice of options a plan writes only to the sides that the direction allows, deletes
  -- only if deletes are propagated, and never leaves a conflict unresolved.
  pub plan-Permitted :
      (local remote : List (Item R)) (state : SyncState) → Permitted o (plan local remote state o)
  unfolding plan
  plan-Permitted local remote state =
      All-append _ (plan_links state.links local remote o) _
        (plan_links-Permitted state.links local remote)
        (pair_new-Permitted (new_items _ local) (new_items _ remote))
