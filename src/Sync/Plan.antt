-- ===== src/Sync/Plan.antt =====
-- `plan` of jornada/sync/engine.py.
pub mod Permitted
use jornada_link.Common.{String, not, List, ◌++◌, map, keep}
use jornada_link.Sync.Model.{Model, Item, Options, Action}
use jornada_link.Sync.State.{Link, SyncState}
use jornada_link.Sync.Linked.{contains, plan_links}
use jornada_link.Sync.Pairing.{pair_new}

abbrev pub linked_local : List Link → List String
linked_local = map (λ l. l.local_id)

abbrev pub linked_remote : List Link → List String
linked_remote = map (λ l. l.remote_id)

module _ {ℓ} {R : Type ℓ} where
  -- the items that no link names
  unfoldable pub new_items : List String → List (Item R) → List (Item R)
  new_items linked = keep (λ x. not (contains linked x.id))

module _ {ℓ} {R : Type ℓ} ⦃m : Model R⦄ where
  unfoldable pub plan : List (Item R) → List (Item R) → SyncState → Options → List (Action R)
  unfolding plan_links pair_new new_items
  plan local remote state options =
      plan_links state.links local remote options
      ++ pair_new (new_items (linked_local state.links) local)
          (new_items (linked_remote state.links) remote) options
