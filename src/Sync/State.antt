-- ===== src/Sync/State.antt =====
-- jornada/sync/state.py: which device record is linked to which remote item.
pub mod Lookup
pub mod OneToOne
use jornada_link.Common.{
  String, ◌≡◌, refl, Bool, true, false, not, ◌&&◌, ◌||◌, Option, none, some, List, [], ◌∷◌, ◌++◌,
  keep, str_eq,
}

pub record Link : Type 0 where
  pub local_id : String
  pub remote_id : String
  pub local_hash : String
  pub remote_hash : String

pub record SyncState : Type 0 where
  pub links : List Link
  pub last_sync : Option String
  pub remote_token : Option String

-- `SyncState()`
abbrev pub initial : SyncState
initial = record { links = []; last_sync = none; remote_token = none }

abbrev pub apart : Link → Link → Bool
apart link l = not (str_eq l.local_id link.local_id) && not (str_eq l.remote_id link.remote_id)

-- `SyncState.with_link`: a new link replaces every link that shares an end with it.
unfoldable pub with_link : SyncState → Link → SyncState
with_link state link = record state { links = keep (apart link) state.links ++ (link ∷ []) }

-- `x is not None and field == x`
abbrev pub is_id : Option String → String → Bool
is_id none field = false
is_id (some x) field = str_eq field x

-- `SyncState.without`
unfoldable pub without : SyncState → Option String → Option String → SyncState
without state local_id remote_id = record state {
  links = keep (λ l. not (is_id local_id l.local_id || is_id remote_id l.remote_id)) state.links;
}

-- `by_local().get(k)` and `by_remote().get(k)`: in a dict comprehension the last entry of a key wins.
unfoldable pub by_local : List Link → String → Option Link
by_local [] k = none
by_local (l ∷ links) k = elim (by_local links k) [
  | some m ↦ some m
  | none ↦ elim (str_eq l.local_id k) [ true ↦ some l | false ↦ none ]
]

unfoldable pub by_remote : List Link → String → Option Link
by_remote [] k = none
by_remote (l ∷ links) k = elim (by_remote links k) [
  | some m ↦ some m
  | none ↦ elim (str_eq l.remote_id k) [ true ↦ some l | false ↦ none ]
]
