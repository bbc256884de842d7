-- ===== src/Sync/Apply/Untouched.antt =====
-- A sync in one direction never writes to the side that it reads from.
use jornada_link.Common.{String, ◌≡◌, refl, ◌∙◌, true, false, List, [], ◌∷◌, arith}
use jornada_link.Sync.Model.{Model, Item, Action, Options, writes_local, writes_remote}
use jornada_link.Sync.State.{SyncState}
use jornada_link.Sync.Plan.{plan}
use jornada_link.Sync.Plan.Permitted.{permitted, Permitted, plan-Permitted}
use jornada_link.Sync.Apply.{Store, World, apply_one, settle, apply_loop, apply}

module _ {ℓ} {R : Type ℓ} ⦃m : Model R⦄ (Local Remote : Store R) (o : Options) where
  step-remote :
      (a : Action R) (w : World Local Remote)
      → writes_remote o ≡ false
      → permitted o a ≡ true
      → (settle Local Remote a (apply_one Local Remote a w)).remote ≡ w.remote
  unfolding apply_one settle
  step-remote a w off allowed = ground arith

  step-local :
      (a : Action R) (w : World Local Remote)
      → writes_local o ≡ false
      → permitted o a ≡ true
      → (settle Local Remote a (apply_one Local Remote a w)).local ≡ w.local
  unfolding apply_one settle
  step-local a w off allowed = ground arith

  loop-remote :
      (actions : List (Action R)) (w : World Local Remote)
      → writes_remote o ≡ false
      → Permitted o actions
      → (apply_loop Local Remote actions w).remote ≡ w.remote
  unfolding apply_loop
  loop-remote [] w off allowed = refl
  loop-remote (a ∷ actions) w off allowed =
      loop-remote actions _ off allowed.1 ∙ step-remote a w off allowed.0

  loop-local :
      (actions : List (Action R)) (w : World Local Remote)
      → writes_local o ≡ false
      → Permitted o actions
      → (apply_loop Local Remote actions w).local ≡ w.local
  unfolding apply_loop
  loop-local [] w off allowed = refl
  loop-local (a ∷ actions) w off allowed =
      loop-local actions _ off allowed.1 ∙ step-local a w off allowed.0

  module _ (xs ys : List (Item R)) (local : Local.State) (remote : Remote.State) (state : SyncState)
      (stamp : String) where
    -- When the direction does not write to the remote side, planning and applying leaves the remote
    -- store as it was, whatever the listings, the state and the stores are.
    pub remote-apply-plan :
        writes_remote o ≡ false
        → (apply Local Remote (plan xs ys state o) local remote state stamp).remote ≡ remote
    unfolding apply
    remote-apply-plan off = loop-remote (plan xs ys state o) _ off (plan-Permitted o xs ys state)

    -- When the direction does not write to the device, planning and applying leaves the device's
    -- store as it was, whatever the listings, the state and the stores are.
    pub local-apply-plan :
        writes_local o ≡ false
        → (apply Local Remote (plan xs ys state o) local remote state stamp).local ≡ local
    unfolding apply
    local-apply-plan off = loop-local (plan xs ys state o) _ off (plan-Permitted o xs ys state)
