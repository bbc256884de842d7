-- ===== src/Sync/Apply.antt =====
-- `apply` and `_apply_one` of jornada/sync/engine.py over two stores.
pub mod Retry
pub mod Untouched
pub mod Accounting
use jornada_link.Common.{
  ℕ, suc, String, Bool, true, false, not, ◌||◌, Option, none, some, List, [], ◌∷◌, ◌++◌,
  if◌then◌else◌,
}
use jornada_link.Sync.Model.{
  Model, Item, Action, create_local, create_remote, update_local, update_remote, delete_local,
  delete_remote, link, unlink, conflict, skip, Kind, kind, kind_eq, skips,
}
use jornada_link.Sync.State.{Link, SyncState, with_link, without}
use jornada_link.Sync.Linked.{contains}

-- What a call of a store comes to: a value, or one of the exceptions that `apply` catches
-- (StoreError, RapiError, OSError, ValueError) with its message.
pub data Outcome {ℓ} (A : Type ℓ) : Type ℓ where
  done : A → Outcome A
  failed : String → Outcome A

-- The protocol `Store` of jornada/sync/base.py. A call that raises may have changed the store.
pub record Store {ℓ} (R : Type ℓ) : Type (ℓ ⊔ 1) where
  pub State : Type 0
  pub create : State → R → Outcome String × State
  pub update : State → String → R → Outcome (Option String) × State
  pub delete : State → String → Outcome (Unit {0}) × State

-- `Result`; the text of an error is the action and the exception's message.
pub record Result {ℓ} (R : Type ℓ) : Type ℓ where
  pub counts : List (Kind × ℕ)
  pub errors : List (Action R × String)
  pub touched_local : List String
  pub touched_remote : List String

-- `Result.bump`: `counts[kind] = counts.get(kind, 0) + 1`
unfoldable pub bump_counts : Kind → List (Kind × ℕ) → List (Kind × ℕ)
bump_counts k [] = (k, 1) ∷ []
bump_counts k ((j, n) ∷ counts) =
    if kind_eq j k then (j, suc n) ∷ counts else (j, n) ∷ bump_counts k counts

-- `set.add`
abbrev pub add : String → List String → List String
add x set = if contains set x then set else x ∷ set

module _ {ℓ} {R : Type ℓ} where
  abbrev pub empty_result : Result R
  empty_result = record { counts = []; errors = []; touched_local = []; touched_remote = [] }

  abbrev pub bump : Kind → Result R → Result R
  bump k result = record result { counts = bump_counts k result.counts }

  abbrev pub touch_local : String → Result R → Result R
  touch_local id result = record result { touched_local = add id result.touched_local }

  abbrev pub touch_remote : String → Result R → Result R
  touch_remote id result = record result { touched_remote = add id result.touched_remote }

module _ {ℓ} {R : Type ℓ} ⦃m : Model R⦄ (Local Remote : Store R) where
  -- The variables of `apply`: both stores, `current`, `result` and the lines given to `log`, a failed
  -- action with its message.
  pub record World : Type ℓ where
    pub local : Local.State
    pub remote : Remote.State
    pub current : SyncState
    pub result : Result R
    pub log : List (Action R × Option String)

  abbrev pub Attempt : Type ℓ
  Attempt = Option String × World

  -- The state after a link is set with the record's fingerprint for both sides.
  abbrev linked : String → String → R → SyncState → SyncState
  linked l r rec state = with_link state (record {
    local_id = l;
    remote_id = r;
    local_hash = m.fingerprint rec;
    remote_hash = m.fingerprint rec;
  })

  -- `_apply_one`: the message of the exception, if a store raised one, and the world after it.
  unfoldable pub apply_one : Action R → World → Option String × World
  unfolding bump_counts
  apply_one (create_remote l rec reason) w =
      let (out, remote) = Remote.create w.remote rec in
      elim out [
        | failed e ↦ (some e, record w { remote = remote })
        | done r ↦ (
          none,
          record w {
            remote = remote;
            current = linked l r rec w.current;
            result = touch_remote r (bump Kind.creates_remote w.result);
          },
        )
      ]
  apply_one (create_local r rec reason) w =
      let (out, local) = Local.create w.local rec in
      elim out [
        | failed e ↦ (some e, record w { local = local })
        | done l ↦ (
          none,
          record w {
            local = local;
            current = linked l r rec w.current;
            result = touch_local l (bump Kind.creates_local w.result);
          },
        )
      ]
  apply_one (update_remote l r rec reason) w =
      let (out, remote) = Remote.update w.remote r rec in
      elim out [
        | failed e ↦ (some e, record w { remote = remote })
        | done _ ↦ (
          none,
          record w {
            remote = remote;
            current = linked l r rec w.current;
            result = touch_remote r (bump Kind.updates_remote w.result);
          },
        )
      ]
  apply_one (update_local l r rec reason) w =
      let (out, local) = Local.update w.local l rec in
      elim out [
        | failed e ↦ (some e, record w { local = local })
        | done _ ↦ (
          none,
          record w {
            local = local;
            current = linked l r rec w.current;
            result = touch_local l (bump Kind.updates_local w.result);
          },
        )
      ]
  apply_one (delete_local l r rec reason) w =
      let (out, local) = Local.delete w.local l in
      elim out [
        | failed e ↦ (some e, record w { local = local })
        | done _ ↦ (
          none,
          record w {
            local = local;
            current = without w.current (some l) none;
            result = bump Kind.deletes_local w.result;
          },
        )
      ]
  apply_one (delete_remote l r rec reason) w =
      let (out, remote) = Remote.delete w.remote r in
      elim out [
        | failed e ↦ (some e, record w { remote = remote })
        | done _ ↦ (
          none,
          record w {
            remote = remote;
            current = without w.current none (some r);
            result = bump Kind.deletes_remote w.result;
          },
        )
      ]
  apply_one (link l r rec reason) w =
      (none, record w { current = linked l r rec w.current; result = bump Kind.links w.result })
  apply_one (unlink l r rec reason) w = (
    none,
    record w { current = without w.current (some l) (some r); result = bump Kind.unlinks w.result },
  )
  apply_one (conflict l r rec reason) w = (none, record w { result = bump Kind.conflicts w.result })
  apply_one (skip l r rec reason) w = (none, record w { result = bump Kind.skips w.result })

  -- The rest of the loop's body: an exception is recorded, and `current` stays as it was.
  unfoldable pub settle : Action R → Option String × World → World
  settle a (none, w) =
      if kind_eq (kind a) skips then w else record w { log = w.log ++ ((a, none) ∷ []) }
  settle a (some e, w) = record w {
    result = record w.result { errors = w.result.errors ++ ((a, e) ∷ []) };
    log = w.log ++ ((a, some e) ∷ []);
  }

  unfoldable pub apply_loop : List (Action R) → World → World
  unfolding apply_one settle
  apply_loop [] w = w
  apply_loop (a ∷ actions) w = apply_loop actions (settle a (apply_one a w))

  -- `apply`; `stamp` is the formatted time of the parameter `now`.
  unfoldable pub apply : List (Action R) → Local.State → Remote.State → SyncState → String → World
  unfolding apply_loop
  apply actions local remote state stamp =
      let w = apply_loop actions (record {
        local = local;
        remote = remote;
        current = state;
        result = empty_result;
        log = [];
      }) in
      record w { current = record w.current { last_sync = some stamp } }
