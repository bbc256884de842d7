-- ===== src/Sync/Model.antt =====
-- The data of jornada/sync/base.py and of jornada/sync/engine.py: items, options, actions, plans.
use jornada_link.Common.{
  ℕ, suc, String, Bool, true, false, ◌||◌, Option, List, [], ◌∷◌, all, any, if◌then◌else◌,
}

-- What the engine calls of a neutral record (jornada/pim/models.py has the implementations).
pub record Model {ℓ} (R : Type ℓ) : Type ℓ where
  pub fingerprint : R → String
  pub match_key : R → String

pub record Item {ℓ} (R : Type ℓ) : Type ℓ where
  pub id : String
  pub rec : R
  pub version : Option String

module _ {ℓ} {R : Type ℓ} ⦃m : Model R⦄ where
  -- the properties `Item.fingerprint` and `Item.match_key`
  abbrev pub fingerprint : Item R → String
  fingerprint item = m.fingerprint item.rec

  abbrev pub match_key : Item R → String
  match_key item = m.match_key item.rec

pub data Direction : Type 0 where
  both to_device from_device : Direction

pub data Prefer : Type 0 where
  prefer_remote prefer_local : Prefer

pub record Options : Type 0 where
  pub direction : Direction
  pub prefer : Prefer
  pub propagate_deletes : Bool

abbrev writes_local_to : Direction → Bool
writes_local_to both = true
writes_local_to to_device = true
writes_local_to from_device = false

abbrev writes_remote_to : Direction → Bool
writes_remote_to both = true
writes_remote_to to_device = false
writes_remote_to from_device = true

abbrev pub writes_local : Options → Bool
writes_local o = writes_local_to o.direction

abbrev pub writes_remote : Options → Bool
writes_remote o = writes_remote_to o.direction

-- `Action`. The source tags one class by the text `kind`; a kind always carries the same fields.
-- The arguments are, as far as a kind has them, the device's id, the remote id, the record and the
-- reason.
pub data Action {ℓ} (R : Type ℓ) : Type ℓ where
  create_local : String → R → String → Action R
  create_remote : String → R → String → Action R
  update_local update_remote : String → String → R → String → Action R
  delete_local delete_remote : String → String → R → String → Action R
  link conflict : String → String → R → String → Action R
  unlink : String → String → Option R → String → Action R
  skip : Option String → Option String → R → String → Action R

pub data Kind : Type 0 where
  creates_local creates_remote updates_local updates_remote deletes_local deletes_remote : Kind
  links unlinks conflicts skips : Kind

abbrev pub kind_eq : Kind → Kind → Bool
kind_eq creates_local creates_local = true
kind_eq creates_remote creates_remote = true
kind_eq updates_local updates_local = true
kind_eq updates_remote updates_remote = true
kind_eq deletes_local deletes_local = true
kind_eq deletes_remote deletes_remote = true
kind_eq links links = true
kind_eq unlinks unlinks = true
kind_eq conflicts conflicts = true
kind_eq skips skips = true
kind_eq _ _ = false

module _ {ℓ} {R : Type ℓ} where
  abbrev pub kind : Action R → Kind
  kind (create_local _ _ _) = creates_local
  kind (create_remote _ _ _) = creates_remote
  kind (update_local _ _ _ _) = updates_local
  kind (update_remote _ _ _ _) = updates_remote
  kind (delete_local _ _ _ _) = deletes_local
  kind (delete_remote _ _ _ _) = deletes_remote
  kind (link _ _ _ _) = links
  kind (unlink _ _ _ _) = unlinks
  kind (conflict _ _ _ _) = conflicts
  kind (skip _ _ _ _) = skips

  -- `Plan.count`
  abbrev pub count : Kind → List (Action R) → ℕ
  count k [] = 0
  count k (a ∷ actions) =
      let rest = count k actions in if kind_eq (kind a) k then suc rest else rest

  -- `Plan.is_empty`
  abbrev pub is_empty : List (Action R) → Bool
  is_empty = all (λ a. kind_eq (kind a) links || kind_eq (kind a) skips)

  abbrev pub writes_to_device : Action R → Bool
  writes_to_device a =
      kind_eq (kind a) creates_local
      || kind_eq (kind a) updates_local
      || kind_eq (kind a) deletes_local

  -- `Plan.writes_device`
  abbrev pub writes_device : List (Action R) → Bool
  writes_device = any writes_to_device
