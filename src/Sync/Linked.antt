-- ===== src/Sync/Linked.antt =====
-- jornada/sync/engine.py: what `plan` does for the links that the state holds.
pub mod Updates
use jornada_link.Common.{
  String, Bool, true, false, not, ◌&&◌, Option, none, some, List, [], ◌∷◌, ◌++◌, any, str_eq,
  if◌then◌else◌,
}
use jornada_link.Sync.Model.{
  Model, Item, Options, Action, prefer_remote, prefer_local, Prefer, fingerprint, writes_local,
  writes_remote,
}
use jornada_link.Sync.State.{Link}

-- `{item.id: item for item in items}.get(k)`: the last item of an id wins.
unfoldable pub by_id {ℓ} : {R : Type ℓ} → List (Item R) → String → Option (Item R)
by_id [] k = none
by_id (item ∷ items) k = elim (by_id items k) [
  | some x ↦ some x
  | none ↦ elim (str_eq item.id k) [ true ↦ some item | false ↦ none ]
]

-- `k in {…}`, a set of ids
abbrev pub contains : List String → String → Bool
contains ids k = any (λ id. str_eq id k) ids

module _ {ℓ} {R : Type ℓ} where
  unfoldable pub push : Item R → Item R → Options → String → String → Action R
  push local remote options reason skipped =
      if writes_remote options
      then Action.update_remote local.id remote.id local.rec reason
      else Action.skip (some local.id) (some remote.id) local.rec skipped

  unfoldable pub pull : Item R → Item R → Options → String → String → Action R
  pull local remote options reason skipped =
      if writes_local options
      then Action.update_local local.id remote.id remote.rec reason
      else Action.skip (some local.id) (some remote.id) remote.rec skipped

  abbrev preferred : Prefer → Action R → Action R → Action R
  preferred prefer_remote pull_ push_ = pull_
  preferred prefer_local pull_ push_ = push_

  -- `_resolve_conflict`
  unfoldable pub resolve_conflict : Item R → Item R → Options → Action R
  resolve_conflict local remote options =
      let pull_ : Action R =
        Action.update_local local.id remote.id remote.rec "changed on both sides; remote wins" in
      let push_ : Action R =
        Action.update_remote local.id remote.id local.rec "changed on both sides; device wins" in
      if not (writes_local options)
      then (if writes_remote options
          then push_
          else Action.conflict local.id remote.id local.rec "changed on both sides; left as is")
      else if not (writes_remote options)
      then pull_
      else preferred options.prefer pull_ push_

module _ {ℓ} {R : Type ℓ} ⦃m : Model R⦄ where
  -- `_plan_link`, with an item on both sides
  unfoldable pub plan_link_both : Link → Item R → Item R → Options → List (Action R)
  unfolding push pull resolve_conflict
  plan_link_both link local remote options =
      let local_changed = not (str_eq (fingerprint local) link.local_hash) in
      let remote_changed = not (str_eq (fingerprint remote) link.remote_hash) in
      if not local_changed && not remote_changed
      then []
      else if local_changed && remote_changed && str_eq (fingerprint local) (fingerprint remote)
      then Action.link local.id remote.id local.rec "same change on both sides" ∷ []
      else if local_changed && remote_changed
      then resolve_conflict local remote options ∷ []
      else if local_changed
      then (push local remote options "changed on the device"
            "changed on the device; not writing remote"
          ∷ [])
      else pull local remote options "changed remotely" "changed remotely; not writing device" ∷ []

  -- `_plan_link`
  unfoldable pub plan_link : Link → Option (Item R) → Option (Item R) → Options → List (Action R)
  unfolding plan_link_both
  plan_link link none none options =
      Action.unlink link.local_id link.remote_id none "gone on both sides" ∷ []
  plan_link link (some local) none options =
      if options.propagate_deletes && writes_local options
      then Action.delete_local link.local_id link.remote_id local.rec "deleted remotely" ∷ []
      else Action.unlink link.local_id link.remote_id (some local.rec)
          "deleted remotely; device copy kept"
        ∷ []
  plan_link link none (some remote) options =
      if options.propagate_deletes && writes_remote options
      then Action.delete_remote link.local_id link.remote_id remote.rec "deleted on the device" ∷ []
      else Action.unlink link.local_id link.remote_id (some remote.rec)
          "deleted on the device; remote copy kept"
        ∷ []
  plan_link link (some local) (some remote) options = plan_link_both link local remote options

  -- the loop over `state.links`
  unfoldable pub plan_links : List Link → List (Item R) → List (Item R) → Options → List (Action R)
  unfolding plan_link by_id
  plan_links [] local remote options = []
  plan_links (l ∷ links) local remote options =
      plan_link l (by_id local l.local_id) (by_id remote l.remote_id) options
      ++ plan_links links local remote options
