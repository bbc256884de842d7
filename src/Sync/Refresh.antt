-- ===== src/Sync/Refresh.antt =====
-- `refresh_hashes` of jornada/sync/engine.py, and that it leaves nothing to do.
use jornada_link.Common.{
  String, ◌≡◌, refl, Bool, true, false, ◌⊎◌, Option, none, some, List, [], ◌∷◌, map, keep, All,
  append-nil, arith, ap,
}
use jornada_link.Sync.Model.{Model, Item, Options, fingerprint}
use jornada_link.Sync.State.{Link, SyncState}
use jornada_link.Sync.Linked.{by_id, contains, plan_link_both, plan_link, plan_links}
use jornada_link.Sync.Pairing.{pair_new, pair_loop, group_unmatched}
use jornada_link.Sync.Plan.{linked_local, linked_remote, new_items, plan}

module _ {ℓ} {R : Type ℓ} ⦃m : Model R⦄ where
  -- The hash that one side of a link gets: the item's fingerprint if it was written and is listed.
  abbrev refreshed : Bool → Option (Item R) → String → String
  refreshed false item hash = hash
  refreshed true none hash = hash
  refreshed true (some item) hash = fingerprint item

  abbrev pub refresh_link : List (Item R) → List (Item R) → List String → List String → Link → Link
  refresh_link local remote touched_local touched_remote l = record {
    local_id = l.local_id;
    remote_id = l.remote_id;
    local_hash =
        refreshed (contains touched_local l.local_id) (by_id local l.local_id) l.local_hash;
    remote_hash =
        refreshed (contains touched_remote l.remote_id) (by_id remote l.remote_id) l.remote_hash;
  }

  unfoldable pub refresh_hashes :
      SyncState → List (Item R) → List (Item R) → List String → List String → SyncState
  refresh_hashes state local remote touched_local touched_remote = record state {
    links = map (refresh_link local remote touched_local touched_remote) state.links;
  }

  -- A side of a link agrees with the listing, or was written in this run: `item` is listed, and the
  -- id is in the set of touched ids or the item has the link's hash.
  abbrev pub Settled : List (Item R) → List String → String → String → Type ℓ
  Settled items touched id hash =
      (item : Item R) × (by_id items id ≡ some item)
      × ((contains touched id ≡ true) ⊎ (fingerprint item ≡ hash))

  abbrev pub AllSettled :
      List (Item R) → List (Item R) → List String → List String → List Link → Type ℓ
  AllSettled local remote touched_local touched_remote = All (λ l.
      Settled local touched_local l.local_id l.local_hash
      × Settled remote touched_remote l.remote_id l.remote_hash)

  refreshed-Settled :
      (items : List (Item R)) (touched : List String) (id hash : String) (item : Item R)
      → by_id items id ≡ some item
      → (contains touched id ≡ true) ⊎ (fingerprint item ≡ hash)
      → refreshed (contains touched id) (by_id items id) hash ≡ fingerprint item
  refreshed-Settled items touched id hash item e h = rw e (ground arith)

  plan_link_both-same :
      (l : Link) (x y : Item R) (o : Options)
      → l.local_hash ≡ fingerprint x
      → l.remote_hash ≡ fingerprint y
      → plan_link_both l x y o ≡ []
  unfolding plan_link_both
  plan_link_both-same l x y o p q = ground arith

  plan_link-same :
      (l : Link) (ox oy : Option (Item R)) (x y : Item R) (o : Options)
      → ox ≡ some x
      → oy ≡ some y
      → l.local_hash ≡ fingerprint x
      → l.remote_hash ≡ fingerprint y
      → plan_link l ox oy o ≡ []
  unfolding plan_link
  plan_link-same l ox oy x y o ex ey p q = rw (ex, ey, plan_link) (plan_link_both-same l x y o p q)

  plan_links-refreshed :
      (local remote : List (Item R)) (tl tr : List String) (o : Options) (links : List Link)
      → AllSettled local remote tl tr links
      → plan_links (map (refresh_link local remote tl tr) links) local remote o ≡ []
  unfolding plan_links
  plan_links-refreshed local remote tl tr o [] h = refl
  plan_links-refreshed local remote tl tr o (l ∷ links) (((x, ex, hx), (y, ey, hy)), h) =
      rw (plan_links-refreshed local remote tl tr o links h, append-nil)
        (plan_link-same (refresh_link local remote tl tr l) _ _ x y o ex ey
          (refreshed-Settled local tl l.local_id l.local_hash x ex hx)
          (refreshed-Settled remote tr l.remote_id l.remote_hash y ey hy))

  linked_local-refresh :
      (local remote : List (Item R)) (tl tr : List String) (links : List Link)
      → linked_local (map (refresh_link local remote tl tr) links) ≡ linked_local links
  linked_local-refresh local remote tl tr [] = refl
  linked_local-refresh local remote tl tr (l ∷ links) =
      ap (◌∷◌ l.local_id) (linked_local-refresh local remote tl tr links)

  linked_remote-refresh :
      (local remote : List (Item R)) (tl tr : List String) (links : List Link)
      → linked_remote (map (refresh_link local remote tl tr) links) ≡ linked_remote links
  linked_remote-refresh local remote tl tr [] = refl
  linked_remote-refresh local remote tl tr (l ∷ links) =
      ap (◌∷◌ l.remote_id) (linked_remote-refresh local remote tl tr links)

  new_items-none :
      (linked : List String) (items : List (Item R))
      → All (λ x. contains linked x.id ≡ true) items
      → new_items linked items ≡ []
  unfolding new_items keep
  new_items-none linked [] h = refl
  new_items-none linked (x ∷ items) h = rw (h.0, keep) (new_items-none linked items h.1)

  -- Once the hashes are refreshed there is nothing left to do, under any options: if every listed item
  -- has a link, and every link has both its items, each of which was written in this run or still has
  -- the hash that the link holds, then the next plan is empty.
  pub plan-refresh_hashes :
      (local remote : List (Item R)) (tl tr : List String) (state : SyncState) (o : Options)
      → AllSettled local remote tl tr state.links
      → All (λ x. contains (linked_local state.links) x.id ≡ true) local
      → All (λ y. contains (linked_remote state.links) y.id ≡ true) remote
      → plan local remote (refresh_hashes state local remote tl tr) o ≡ []
  unfolding plan refresh_hashes pair_new pair_loop group_unmatched
  plan-refresh_hashes local remote tl tr state o settled xs ys = rw (
    plan_links-refreshed local remote tl tr o state.links settled,
    linked_local-refresh local remote tl tr state.links,
    linked_remote-refresh local remote tl tr state.links,
    new_items-none (linked_local state.links) local xs,
    new_items-none (linked_remote state.links) remote ys,
  )
