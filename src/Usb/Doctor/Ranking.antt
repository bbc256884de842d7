-- ===== src/Usb/Doctor/Ranking.antt =====
-- The order of the candidates.
use jornada_link.Common.{
  String, ℕ, ◌≤◌, ◌≡◌, refl, sym, ap, ◌∙◌, Bool, true, false, not, ◌||◌, Option, none, some, List,
  [], ◌∷◌, ◌++◌, map, any, keep, All, All-append, All-map, arith, text_eq, text_eq→≡, Bool-cases,
  inl, inr, ◌⊎◌,
}
use jornada_link.Usb.{Role, Classification, is_sync, HandheldModel}
use jornada_link.Usb.Classify.{classify}
use jornada_link.Usb.Doctor.{
  SerialNode, UsbDevice, ClassifiedDevice, Candidate, is_hub, usb_devices, raised_score, is_pin,
  candidate_of, candidates_of, all_candidates, before, insert, sort, first_path, classify_devices,
  interface_classes, rank_candidates,
}
use jornada_link.Usb.Doctor.Findings.{diagnose, pin_finding, Finding, level_warn, pin_missing}

-- The better candidates come first.
abbrev pub Descending : List Candidate → Type 0
Descending [] = Unit {0}
Descending (c ∷ later) = All (λ d. d.score ≤ c.score) later × Descending later

All-insert {κ} :
    (P : Candidate → Type κ) (a : Candidate) (sorted : List Candidate)
    → P a
    → All P sorted
    → All P (insert a sorted)
unfolding insert
All-insert P a [] h hs = (h, tt)
All-insert P a (b ∷ sorted) h hs = elim (Bool-cases (before b a)) [
  | inl e ↦ rw e (hs.0, All-insert P a sorted h hs.1)
  | inr e ↦ rw e (h, hs)
]

All-sort {κ} :
    (P : Candidate → Type κ) (candidates : List Candidate)
    → All P candidates
    → All P (sort candidates)
unfolding sort
All-sort P [] h = tt
All-sort P (a ∷ candidates) h = All-insert P a (sort candidates) h.0 (All-sort P candidates h.1)

not_before : (a b : Candidate) → before b a ≡ false → b.score ≤ a.score
not_before a b h = ground arith

is_before : (a b : Candidate) → before b a ≡ true → a.score ≤ b.score
is_before a b h = ground arith

insert-Descending :
    (a : Candidate) (sorted : List Candidate) → Descending sorted → Descending (insert a sorted)
unfolding insert
insert-Descending a [] h = (tt, tt)
insert-Descending a (b ∷ sorted) h = elim (Bool-cases (before b a)) [
  | inl e ↦ rw e (
    All-insert (λ d. d.score ≤ b.score) a sorted (is_before a b e) h.0,
    insert-Descending a sorted h.1,
  )
  | inr e ↦
      let less = not_before a b e in
      rw e (
        (
          less,
          All-map (λ d. d.score ≤ b.score) (λ d. d.score ≤ a.score) (λ d k. omega arith) sorted h.0,
        ),
        h,
      )
]

sort-Descending : (candidates : List Candidate) → Descending (sort candidates)
unfolding sort
sort-Descending [] = tt
sort-Descending (a ∷ candidates) =
    insert-Descending a (sort candidates) (sort-Descending candidates)

-- A candidate is found on a device that is no hub and no sync device, and is pinned or not.
record Found (pinned : Option (List ℕ)) (c : Candidate) : Type 0 where
  no_hub : is_hub c.device ≡ false
  no_sync : is_sync c.classification.role ≡ false
  scored : c.score ≡ raised_score c.classification.role c.driver c.writable (is_pin pinned c.path)

abbrev IsPlain : ClassifiedDevice → Type 0
IsPlain item = is_hub item.device ≡ false

candidate_of-Found :
    (pinned : Option (List ℕ)) (device : UsbDevice) (c : Classification)
    → is_hub device ≡ false
    → is_sync c.role ≡ false
    → (nodes : List SerialNode) → All (Found pinned) (map (candidate_of pinned device c) nodes)
candidate_of-Found pinned device c h k [] = tt
candidate_of-Found pinned device c h k (node ∷ nodes) = (
  record { no_hub = h; no_sync = k; scored = refl },
  candidate_of-Found pinned device c h k nodes,
)

candidates_of-Found :
    (pinned : Option (List ℕ)) (device : UsbDevice) (found : Option Classification)
    → is_hub device ≡ false
    → All (Found pinned) (candidates_of pinned device found)
candidates_of-Found pinned device none h = tt
candidates_of-Found pinned device (some c) h = elim (Bool-cases (is_sync c.role)) [
  | inl e ↦ rw e tt
  | inr e ↦ rw e (candidate_of-Found pinned device c h e device.serial_nodes)
]

all_candidates-Found :
    (pinned : Option (List ℕ)) (items : List ClassifiedDevice)
    → All IsPlain items
    → All (Found pinned) (all_candidates pinned items)
unfolding all_candidates
all_candidates-Found pinned [] h = tt
all_candidates-Found pinned (item ∷ items) h =
    All-append (Found pinned) (candidates_of pinned item.device item.classification)
      (all_candidates pinned items) (candidates_of-Found pinned item.device item.classification h.0)
      (all_candidates-Found pinned items h.1)

not-true : (b : Bool) → not b ≡ true → b ≡ false
not-true b h = ground arith

keep-All :
    (p : UsbDevice → Bool) (devices : List UsbDevice) → All (λ d. p d ≡ true) (keep p devices)
unfolding keep
keep-All p [] = tt
keep-All p (d ∷ devices) = elim (Bool-cases (p d)) [
  | inl e ↦ rw (e, keep) (e, keep-All p devices)
  | inr e ↦ rw (e, keep) (keep-All p devices)
]

insert-any :
    (p : Candidate → Bool) (a : Candidate) (sorted : List Candidate)
    → any p (insert a sorted) ≡ any p (a ∷ sorted)
unfolding insert
insert-any p a [] = refl
insert-any p a (b ∷ sorted) = ground (arith, insert-any p a sorted)

sort-any :
    (p : Candidate → Bool) (candidates : List Candidate)
    → any p (sort candidates) ≡ any p candidates
unfolding sort
sort-any p [] = refl
sort-any p (a ∷ candidates) =
    insert-any p a (sort candidates) ∙ ap (λ b. p a || b) (sort-any p candidates)

-- A pinned candidate's score is above that of any other.
pinned_score :
    (role : Role) (driver : List ℕ) (writable : Bool)
    → 10000 ≤ raised_score role driver writable true
unfolding raised_score
pinned_score role driver writable = ground arith

other_score :
    (role : Role) (driver : List ℕ) (writable : Bool)
    → raised_score role driver writable false ≤ 1050
unfolding raised_score
other_score role driver writable = ground arith

at_most :
    (pin : List ℕ) (c : Candidate) (later : List Candidate)
    → All (Found (some pin)) later
    → All (λ d. d.score ≤ c.score) later
    → any (λ d. text_eq pin d.path) later ≡ true
    → 10000 ≤ c.score
at_most pin c [] found less h = absurd (ground arith)
at_most pin c (d ∷ later) (f, found) (k, less) h = elim (Bool-cases (text_eq pin d.path)) [
  | inl e ↦
      let scored : d.score ≡ raised_score d.classification.role d.driver d.writable true =
        f.scored ∙ ap (raised_score d.classification.role d.driver d.writable) e in
      omega (arith, scored, pinned_score d.classification.role d.driver d.writable)
  | inr e ↦ at_most pin c later found less (ground arith)
]

first_pinned :
    (pin : List ℕ) (ranked : List Candidate)
    → All (Found (some pin)) ranked
    → Descending ranked
    → any (λ c. text_eq pin c.path) ranked ≡ true
    → first_path ranked ≡ some pin
first_pinned pin [] found sorted h = absurd (ground arith)
first_pinned pin (c ∷ later) (f, found) (less, sorted) h = elim (Bool-cases (text_eq pin c.path)) [
  | inl e ↦ ap some (sym (text_eq→≡ pin c.path e))
  | inr e ↦
      let scored : c.score ≡ raised_score c.classification.role c.driver c.writable false =
        f.scored ∙ ap (raised_score c.classification.role c.driver c.writable) e in
      absurd (
        omega (
          arith,
          scored,
          other_score c.classification.role c.driver c.writable,
          at_most pin c later found less (ground arith),
        ))
]

pin_warning :
    (pin : List ℕ) (ranked : List Candidate) (later : List Finding)
    → any (λ c. text_eq pin c.path) ranked ≡ false
    → pin_finding (some pin) ranked ++ later
      ≡ record { level = level_warn; message = pin_missing pin } ∷ later
pin_warning pin ranked later e = rw e refl

module _ (upper : String → String) (devices : List UsbDevice) where
  items-IsPlain :
      (ds : List UsbDevice)
      → All (λ d. not (is_hub d) ≡ true) ds
      → All IsPlain (
          map
            (λ d. record {
              device = d;
              classification =
                  classify upper
                    (some d.vendor_id)
                    (some d.product_id)
                    (some d.product)
                    (some d.serial)
                    (interface_classes d);
            })
            ds)
  items-IsPlain [] h = tt
  items-IsPlain (d ∷ ds) h = (not-true (is_hub d) h.0, items-IsPlain ds h.1)

  rank_candidates-Found :
      (pinned : Option (List ℕ)) → All (Found pinned) (rank_candidates upper devices pinned)
  unfolding rank_candidates
  rank_candidates-Found pinned =
      All-sort (Found pinned) (all_candidates pinned (classify_devices upper devices)) (
        all_candidates-Found pinned (classify_devices upper devices)
          (items-IsPlain (usb_devices devices) (keep-All (λ d. not (is_hub d)) devices)))

  rank_candidates-Descending :
      (pinned : Option (List ℕ)) → Descending (rank_candidates upper devices pinned)
  unfolding rank_candidates
  rank_candidates-Descending pinned =
      sort-Descending (all_candidates pinned (classify_devices upper devices))

  -- `rank_candidates` gives the candidates by falling scores, and none of them is on a hub or on a
  -- device that is a Windows CE handheld's own USB function.
  pub rank_candidates_lem :
      (pinned : Option (List ℕ))
      → Descending (rank_candidates upper devices pinned)
        × All
            (λ c. (is_hub c.device ≡ false) × (is_sync c.classification.role ≡ false))
            (rank_candidates upper devices pinned)
  rank_candidates_lem pinned = (
    rank_candidates-Descending pinned,
    All-map (Found pinned)
        (λ c. (is_hub c.device ≡ false) × (is_sync c.classification.role ≡ false))
        (λ c f. (f.no_hub, f.no_sync)) (rank_candidates upper devices pinned)
        (rank_candidates-Found pinned),
  )

  -- A diagnosis with a pinned port either recommends that port, whatever the scores of the other
  -- candidates, or begins its findings with the warning that the port is not present.
  pub diagnose-pin :
      (pin : List ℕ) (handheld : Option HandheldModel)
      → ((diagnose upper devices (some pin) handheld).recommended ≡ some pin)
        ⊎ ((later : List Finding) × ((diagnose upper devices (some pin) handheld).findings
              ≡ record { level = level_warn; message = pin_missing pin } ∷ later))
  unfolding diagnose
  diagnose-pin pin handheld =
      elim (Bool-cases (any (λ c. text_eq pin c.path) (rank_candidates upper devices (some pin)))) [
        | inl e ↦ inl (
            first_pinned pin (rank_candidates upper devices (some pin))
              (rank_candidates-Found (some pin)) (rank_candidates-Descending (some pin)) e)
        | inr e ↦ inr (_, pin_warning pin (rank_candidates upper devices (some pin)) _ e)
      ]
