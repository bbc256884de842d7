-- ===== src/Sync/Apply/Accounting.antt =====
-- `apply` accounts for every action, and keeps the links one to one.
use jornada_link.Common.{
  Bool, true, false, ◌++◌, refl, ap, if◌then◌else◌, ◌∙◌, Option, none, some, ap₂, ℕ, suc, ◌+◌,
  String, ◌≡◌, List, [], ◌∷◌, Bool-cases, inl, inr, arith,
}
use jornada_link.Sync.Model.{Model, Action, Kind, kind_eq, kind, count, skips}
use jornada_link.Sync.State.{SyncState}
use jornada_link.Sync.State.OneToOne.{IsOneToOne, with_link-IsOneToOne, without-IsOneToOne}
use jornada_link.Sync.Apply.{Store, bump_counts, World, apply_one, settle, apply_loop, apply}

-- `counts.get(kind, 0)`
abbrev pub count_of : Kind → List (Kind × ℕ) → ℕ
count_of k [] = 0
count_of k ((j, n) ∷ counts) = if kind_eq j k then n else count_of k counts

kind_eq→≡ : (j k : Kind) → kind_eq j k ≡ true → j ≡ k
kind_eq→≡ j k h = ground arith

kind_eq_self : (k : Kind) → kind_eq k k ≡ true
kind_eq_self k = ground arith

-- Another kind than `j` is not the kind `k` as well.
kinds_apart : (i j k : Kind) → kind_eq i j ≡ false → kind_eq i k ≡ true → kind_eq j k ≡ false
kinds_apart i j k h e = ground (arith, kind_eq→≡ i k e, kind_eq→≡ j k, kind_eq_self k)

-- A kind's count goes up by one if it is the kind that is counted, and stays if it is another.
count_of-bump_counts :
    (k j : Kind) (counts : List (Kind × ℕ))
    → count_of k (bump_counts j counts)
      ≡ (if kind_eq j k then suc (count_of k counts) else count_of k counts)
unfolding bump_counts
count_of-bump_counts k j [] = refl
count_of-bump_counts k j ((i, n) ∷ counts) = elim (Bool-cases (kind_eq i j)) [
  | inl e ↦ rw (e, kind_eq→≡ i j e) (ground arith)
  | inr e ↦ rw e (ground (arith, kinds_apart i j k e, count_of-bump_counts k j counts))
]

suc_if : (t : Bool) (n : ℕ) → suc (if t then suc n else n) ≡ (if t then suc (suc n) else suc n)
suc_if true n = refl
suc_if false n = refl

-- One more action, of the kind `j`.
abbrev counted : Kind → Kind → ℕ → ℕ
counted k j n = if kind_eq j k then suc n else n

if_add : (t : Bool) (n m : ℕ) → (if t then suc n else n) + m ≡ (if t then suc (n + m) else n + m)
if_add true n m = omega arith
if_add false n m = refl

add_if : (t : Bool) (n m : ℕ) → n + (if t then suc m else m) ≡ (if t then suc (n + m) else n + m)
add_if true n m = omega arith
add_if false n m = refl

sum_if : (t : Bool) (n m : ℕ) → n + (if t then suc m else m) ≡ (if t then suc n else n) + m
sum_if true n m = omega arith
sum_if false n m = refl

module _ {ℓ} {R : Type ℓ} where
  count_snoc :
      (k : Kind) (actions : List (Action R)) (a : Action R)
      → count k (actions ++ (a ∷ [])) ≡ counted k (kind a) (count k actions)
  count_snoc k [] a = refl
  count_snoc k (b ∷ actions) a = elim (Bool-cases (kind_eq (kind b) k)) [
    | inl e ↦ rw e (ap suc (count_snoc k actions a) ∙ suc_if (kind_eq (kind a) k) (count k actions))
    | inr e ↦ rw e (count_snoc k actions a)
  ]

  -- The actions that were recorded as errors.
  abbrev pub failures : List (Action R × String) → List (Action R)
  failures [] = []
  failures ((a, e) ∷ errors) = a ∷ failures errors

  failures_snoc :
      (errors : List (Action R × String)) (a : Action R) (e : String)
      → failures (errors ++ ((a, e) ∷ [])) ≡ failures errors ++ (a ∷ [])
  failures_snoc [] a e = refl
  failures_snoc ((b, x) ∷ errors) a e = ap (◌∷◌ b) (failures_snoc errors a e)

module _ {ℓ} {R : Type ℓ} ⦃m : Model R⦄ (Local Remote : Store R) where
  -- The actions of a kind that were counted under it or recorded as errors.
  abbrev pub accounted : Kind → World Local Remote → ℕ
  accounted k w = count_of k w.result.counts + count k (failures w.result.errors)

  -- What one action does to the result: it is counted, or nothing is changed and it raised.
  abbrev Tallied : Action R → World Local Remote → Option String × World Local Remote → Type ℓ
  Tallied a w (none, w') =
      (w'.result.counts ≡ bump_counts (kind a) w.result.counts)
      × (w'.result.errors ≡ w.result.errors)
  Tallied a w (some e, w') =
      (w'.result.counts ≡ w.result.counts) × (w'.result.errors ≡ w.result.errors)

  apply_one-Tallied :
      (a : Action R) (w : World Local Remote) → Tallied a w (apply_one Local Remote a w)
  unfolding apply_one
  apply_one-Tallied a w = ground arith

  accounted-bumped :
      (k : Kind) (a : Action R) (w w' : World Local Remote)
      → (w'.result.counts ≡ bump_counts (kind a) w.result.counts)
      → (w'.result.errors ≡ w.result.errors)
      → accounted k w' ≡ counted k (kind a) (accounted k w)
  accounted-bumped k a w w' c e =
      ap₂ ◌+◌ (ap (count_of k) c ∙ count_of-bump_counts k (kind a) w.result.counts)
        (ap (λ es. count k (failures es)) e)
      ∙ if_add (kind_eq (kind a) k) (count_of k w.result.counts)
          (count k (failures w.result.errors))

  accounted-settle :
      (k : Kind) (a : Action R) (w : World Local Remote)
      (attempt : Option String × World Local Remote)
      → Tallied a w attempt
      → accounted k (settle Local Remote a attempt) ≡ counted k (kind a) (accounted k w)
  unfolding settle
  accounted-settle k a w (none, w') (c, e) = elim (Bool-cases (kind_eq (kind a) skips)) [
    | inl on ↦ rw on (accounted-bumped k a w w' c e)
    | inr off ↦ rw off (accounted-bumped k a w w' c e)
  ]
  accounted-settle k a w (some x, w') (c, e) =
      ap₂ ◌+◌ (ap (count_of k) c) (
        ap (count k) (failures_snoc w'.result.errors a x)
        ∙ (count_snoc k (failures w'.result.errors) a
            ∙ ap (λ es. counted k (kind a) (count k (failures es))) e))
      ∙ add_if (kind_eq (kind a) k) (count_of k w.result.counts)
          (count k (failures w.result.errors))

  accounted-step :
      (k : Kind) (a : Action R) (w : World Local Remote)
      → accounted k (settle Local Remote a (apply_one Local Remote a w))
        ≡ counted k (kind a) (accounted k w)
  accounted-step k a w = accounted-settle k a w (apply_one Local Remote a w) (apply_one-Tallied a w)

  accounted-loop :
      (k : Kind) (actions : List (Action R)) (w : World Local Remote)
      → accounted k (apply_loop Local Remote actions w) ≡ count k actions + accounted k w
  unfolding apply_loop
  accounted-loop k [] w = omega arith
  accounted-loop k (a ∷ actions) w =
      let w' = settle Local Remote a (apply_one Local Remote a w) in
      accounted-loop k actions w'
      ∙ (ap (◌+◌ (count k actions)) (accounted-step k a w)
          ∙ sum_if (kind_eq (kind a) k) (count k actions) (accounted k w))

  -- Whatever the stores answer, every action of a plan is counted under its own kind or recorded as an
  -- error: for each kind, its count and the number of its actions among the errors add up to the number
  -- of its actions in the plan.
  pub apply-accounts :
      (k : Kind) (actions : List (Action R)) (local : Local.State) (remote : Remote.State)
      (state : SyncState) (stamp : String)
      → accounted k (apply Local Remote actions local remote state stamp) ≡ count k actions
  unfolding apply
  apply-accounts k actions local remote state stamp = omega (arith, accounted-loop k actions)

  step-IsOneToOne :
      (a : Action R) (w : World Local Remote)
      → IsOneToOne w.current.links
      → IsOneToOne (settle Local Remote a (apply_one Local Remote a w)).current.links
  unfolding apply_one settle
  step-IsOneToOne a w h = grind (arith, with_link-IsOneToOne, without-IsOneToOne)

  loop-IsOneToOne :
      (actions : List (Action R)) (w : World Local Remote)
      → IsOneToOne w.current.links
      → IsOneToOne (apply_loop Local Remote actions w).current.links
  unfolding apply_loop
  loop-IsOneToOne [] w h = h
  loop-IsOneToOne (a ∷ actions) w h = loop-IsOneToOne actions _ (step-IsOneToOne a w h)

  -- From links that are one to one, applying any plan over any stores leaves links that are one to
  -- one: no device record and no remote item comes to have two partners.
  pub apply-IsOneToOne :
      (actions : List (Action R)) (local : Local.State) (remote : Remote.State) (state : SyncState)
      (stamp : String)
      → IsOneToOne state.links
      → IsOneToOne (apply Local Remote actions local remote state stamp).current.links
  unfolding apply
  apply-IsOneToOne actions local remote state stamp h = loop-IsOneToOne actions _ h
