-- ===== src/Sync/Linked/Updates.antt =====
-- An edit is overwritten only where the other side was edited too and the options say who wins.
use jornada_link.Common.{◌≡◌, ◌≢◌, true, false, ◌⊎◌, some, any, arith}
use jornada_link.Sync.Model.{
  Model, Item, Options, Kind, kind, kind_eq, fingerprint, prefer_remote, prefer_local, writes_local,
  writes_remote,
}
use jornada_link.Sync.State.{Link}
use jornada_link.Sync.Linked.{push, pull, resolve_conflict, plan_link_both, plan_link}

module _ {ℓ} {R : Type ℓ} ⦃m : Model R⦄ (l : Link) (x y : Item R) (o : Options) where
  -- If a linked device record is to be overwritten, then it was not edited since the last sync, or
  -- both sides were edited to different contents and the remote side wins: by preference, or because
  -- the direction does not write to the remote side.
  pub plan_link-updates_local :
      any (λ a. kind_eq (kind a) Kind.updates_local) (plan_link l (some x) (some y) o) ≡ true
      → (fingerprint x ≡ l.local_hash)
        ⊎ (fingerprint x ≢ fingerprint y)
          × (fingerprint y ≢ l.remote_hash)
          × ((o.prefer ≡ prefer_remote) ⊎ (writes_remote o ≡ false))
  unfolding plan_link plan_link_both push pull resolve_conflict
  plan_link-updates_local h = ground arith

  -- If a linked remote item is to be overwritten, then it was not edited since the last sync, or
  -- both sides were edited to different contents and the device wins: by preference, or because the
  -- direction does not write to the device.
  pub plan_link-updates_remote :
      any (λ a. kind_eq (kind a) Kind.updates_remote) (plan_link l (some x) (some y) o) ≡ true
      → (fingerprint y ≡ l.remote_hash)
        ⊎ (fingerprint x ≢ fingerprint y)
          × (fingerprint x ≢ l.local_hash)
          × ((o.prefer ≡ prefer_local) ⊎ (writes_local o ≡ false))
  unfolding plan_link plan_link_both push pull resolve_conflict
  plan_link-updates_remote h = ground arith
