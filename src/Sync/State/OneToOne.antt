-- ===== src/Sync/State/OneToOne.antt =====
-- The links of a state are one to one: no device record and no remote item has two.
use jornada_link.Common.{
  String, ◌≡◌, ◌≢◌, Bool, true, Option, List, [], ◌∷◌, ◌++◌, keep, All, Bool-cases, inl, inr, arith,
}
use jornada_link.Sync.State.{Link, SyncState, apart, with_link, without}

abbrev HasOtherEnds : Link → Link → Type 0
HasOtherEnds l k = (l.local_id ≢ k.local_id) × (l.remote_id ≢ k.remote_id)

abbrev pub IsOneToOne : List Link → Type 0
IsOneToOne [] = Unit
IsOneToOne (l ∷ links) = All (HasOtherEnds l) links × IsOneToOne links

apart-HasOtherEnds : (k l : Link) → apart k l ≡ true → HasOtherEnds l k
apart-HasOtherEnds k l h = ground arith

keep-All {ℓ} :
    {A : Type ℓ} (P : A → Type 0) (p : A → Bool) (xs : List A) → All P xs → All P (keep p xs)
unfolding keep
keep-All P p [] h = tt
keep-All P p (x ∷ xs) h = elim (Bool-cases (p x)) [
  | inl e ↦ rw (e, keep) (h.0, keep-All P p xs h.1)
  | inr e ↦ rw (e, keep) (keep-All P p xs h.1)
]

keep-IsOneToOne :
    (p : Link → Bool) (links : List Link) → IsOneToOne links → IsOneToOne (keep p links)
unfolding keep
keep-IsOneToOne p [] h = tt
keep-IsOneToOne p (l ∷ links) h = elim (Bool-cases (p l)) [
  | inl e ↦ rw (e, keep) (keep-All _ p links h.0, keep-IsOneToOne p links h.1)
  | inr e ↦ rw (e, keep) (keep-IsOneToOne p links h.1)
]

append-All {ℓ} :
    {A : Type ℓ} (P : A → Type 0) (xs : List A) (y : A) → All P xs → P y → All P (xs ++ (y ∷ []))
append-All P [] y h hy = (hy, tt)
append-All P (x ∷ xs) y h hy = (h.0, append-All P xs y h.1 hy)

append-IsOneToOne :
    (link : Link) (links : List Link)
    → IsOneToOne links
    → IsOneToOne (keep (apart link) links ++ (link ∷ []))
unfolding keep
append-IsOneToOne link [] h = (tt, tt)
append-IsOneToOne link (l ∷ links) h = elim (Bool-cases (apart link l)) [
  | inl e ↦
      rw (e, keep)
        (
          append-All _ (keep (apart link) links) link (keep-All _ (apart link) links h.0)
              (apart-HasOtherEnds link l e),
          append-IsOneToOne link links h.1,
        )
  | inr e ↦ rw (e, keep) (append-IsOneToOne link links h.1)
]

pub with_link-IsOneToOne :
    (s : SyncState) (link : Link) → IsOneToOne s.links → IsOneToOne (with_link s link).links
unfolding with_link
with_link-IsOneToOne s link h = append-IsOneToOne link s.links h

pub without-IsOneToOne :
    (s : SyncState) (l r : Option String) → IsOneToOne s.links → IsOneToOne (without s l r).links
unfolding without
without-IsOneToOne s l r h = keep-IsOneToOne _ s.links h
