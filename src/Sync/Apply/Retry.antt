-- ===== src/Sync/Apply/Retry.antt =====
-- What a failed write after a first pairing leads to.
use jornada_link.Common.{String, ◌≡◌, ◌≢◌, Bool, some, [], ◌∷◌, arith}
use jornada_link.Sync.Model.{Model, Item, Options, update_local, fingerprint, both, prefer_local}
use jornada_link.Sync.State.{Link, by_local}
use jornada_link.Sync.State.Lookup.{with_link-found}
use jornada_link.Sync.Linked.{plan_link_both, plan_link, pull, resolve_conflict}
use jornada_link.Sync.Pairing.{pair}
use jornada_link.Sync.Apply.{failed, Store, World, apply_one, settle, apply_loop}

module _ {ℓ} {R : Type ℓ} ⦃m : Model R⦄ (Local Remote : Store R) where
  -- A device record and a remote item are paired for the first time, differ, and the device is
  -- preferred, but the update of the remote item fails. The pairing is kept with the device's
  -- fingerprint for both sides, so for the unchanged items the next plan overwrites the preferred
  -- device record with the remote one.
  pub pair-failed_update :
      (x y : Item R) (deletes : Bool) (w : World Local Remote) (e : String)
      → fingerprint x ≢ fingerprint y
      → (Remote.update w.remote y.id x.rec).0 ≡ failed e
      → let o : Options = record {
        direction = both;
        prefer = prefer_local;
        propagate_deletes = deletes;
      } in
        let w' = apply_loop Local Remote (pair x y o) w in
        (l : Link) × (by_local w'.current.links x.id ≡ some l)
        × (plan_link l (some x) (some y) o ≡ update_local x.id y.id y.rec "changed remotely" ∷ [])
  unfolding apply_loop apply_one settle pair plan_link plan_link_both pull resolve_conflict
  pair-failed_update x y deletes w e differ fails = (
    record {
      local_id = x.id;
      remote_id = y.id;
      local_hash = fingerprint x;
      remote_hash = fingerprint x;
    },
    ground (
      arith,
      (with_link-found w.current (record {
        local_id = x.id;
        remote_id = y.id;
        local_hash = fingerprint x;
        remote_hash = fingerprint x;
      })).0,
    ),
    ground arith,
  )
