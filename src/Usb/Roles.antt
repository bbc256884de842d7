-- ===== src/Usb/Roles.antt =====
-- Which role a classified device gets.
use jornada_link.Common.{
  String, ℕ, ◌≡◌, refl, sym, ap, ◌∙◌, Bool, true, false, ◌&&◌, Option, none, some, List, [], ◌∷◌,
  All, arith, if◌then◌else◌,
}
use jornada_link.Usb.{
  Role, serial_bridge, dock_bridge, wince_usb_sync, UsbDriverProfile, Classification,
}
use jornada_link.Usb.Table.{driver_profiles}
use jornada_link.Usb.Classify.{
  by_vid_pid, profile_for, has_dock_marker, class_profile, with_role, classify, or_else, is_bridge,
}

-- A profile of the tables is never a dock's: that role comes from the device's texts.
abbrev is_chip : Role → Bool
is_chip serial_bridge = true
is_chip dock_bridge = false
is_chip wince_usb_sync = true

abbrev IsChip : UsbDriverProfile → Type 0
IsChip p = is_chip p.role ≡ true

driver_profiles-IsChip : All IsChip driver_profiles
driver_profiles-IsChip = ground arith

by_vid_pid-IsChip :
    (profiles : List UsbDriverProfile) (vendor : ℕ) (product : Option ℕ) (p : UsbDriverProfile)
    → All IsChip profiles
    → by_vid_pid profiles vendor product ≡ some p
    → IsChip p
unfolding by_vid_pid
by_vid_pid-IsChip [] vendor product p h e = ground arith
by_vid_pid-IsChip (q ∷ profiles) vendor product p h e =
    ground (arith, by_vid_pid-IsChip profiles vendor product p h.1)

or_else-IsChip :
    (a b : Option UsbDriverProfile) (p : UsbDriverProfile)
    → ((q : UsbDriverProfile) → a ≡ some q → IsChip q)
    → ((q : UsbDriverProfile) → b ≡ some q → IsChip q)
    → or_else a b ≡ some p
    → IsChip p
or_else-IsChip (some q) b p ha hb e = ha p e
or_else-IsChip none b p ha hb e = hb p e

profile_for-IsChip :
    (vendor product : Option ℕ) (p : UsbDriverProfile)
    → profile_for vendor product ≡ some p
    → IsChip p
unfolding profile_for
profile_for-IsChip none product p e = ground arith
profile_for-IsChip (some vendor) product p e =
    or_else-IsChip (by_vid_pid driver_profiles vendor product)
      (by_vid_pid driver_profiles vendor none) p
      (λ q f. by_vid_pid-IsChip driver_profiles vendor product q driver_profiles-IsChip f)
      (λ q f. by_vid_pid-IsChip driver_profiles vendor none q driver_profiles-IsChip f) e

class_profile-IsChip :
    (found : Option UsbDriverProfile) (interfaces : List (ℕ × ℕ)) (p : UsbDriverProfile)
    → ((q : UsbDriverProfile) → found ≡ some q → IsChip q)
    → class_profile found interfaces ≡ some p
    → IsChip p
class_profile-IsChip (some q) interfaces p h e = h p e
class_profile-IsChip none interfaces p h e = ground arith

is_chip-dock :
    (r : Role) (marked : Bool)
    → is_chip r ≡ true
    → (if is_bridge r && marked then dock_bridge else r) ≡ dock_bridge
    → (r ≡ serial_bridge) × (marked ≡ true)
is_chip-dock serial_bridge true h e = (refl, refl)
is_chip-dock serial_bridge false h e = ground arith
is_chip-dock dock_bridge marked h e = ground arith
is_chip-dock wince_usb_sync marked h e = ground arith

same_some : (c d : Classification) → some c ≡ some d → c ≡ d
same_some c d e = ground arith

with_role-dock :
    (found : Option UsbDriverProfile) (marked : Bool) (c : Classification)
    → ((q : UsbDriverProfile) → found ≡ some q → IsChip q)
    → with_role found marked ≡ some c
    → c.role ≡ dock_bridge
    → (c.profile.role ≡ serial_bridge) × (marked ≡ true)
with_role-dock none marked c h e d = ground arith
with_role-dock (some q) marked c h e d =
    let same =
      same_some
        (record { profile = q; role = if is_bridge q.role && marked then dock_bridge else q.role })
        c e in
    let found = is_chip-dock q.role marked (h q refl) (ap (λ x. x.role) same ∙ d) in
    (sym (ap (λ x. x.profile.role) same) ∙ found.0, found.1)

module _ (upper : String → String) where
  -- A device is taken for the bridge in the dock only if it is a serial bridge, by the table or by its
  -- interfaces, and one of its texts has a dock marker.
  pub classify-dock_bridge :
      (vendor product : Option ℕ) (text serial : Option String) (interfaces : List (ℕ × ℕ))
      → (c : Classification) → classify upper vendor product text serial interfaces ≡ some c
      → c.role ≡ dock_bridge
      → (c.profile.role ≡ serial_bridge) × (has_dock_marker upper (text ∷ serial ∷ []) ≡ true)
  unfolding classify
  classify-dock_bridge vendor product text serial interfaces c e d =
      with_role-dock (class_profile (profile_for vendor product) interfaces) _ c
        (λ q f.
          class_profile-IsChip (profile_for vendor product) interfaces q
            (λ p g. profile_for-IsChip vendor product p g) f)
        e d
