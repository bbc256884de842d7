-- ===== src/Usb/Classify.antt =====
-- What jornada/usb_profiles.py finds out about a device. The method `str.upper` is an argument.
use Prim.Native.String.{find, len}
use jornada_link.Common.{
  String, ℕ, Bool, true, false, ◌&&◌, Option, none, some, List, [], ◌∷◌, any, leb, ◌==◌,
  if◌then◌else◌,
}
use jornada_link.Usb.{
  Role, serial_bridge, dock_bridge, wince_usb_sync, UsbDriverProfile, Classification, usb_class_cdc,
  usb_subclass_acm, dock_markers,
}
use jornada_link.Usb.Table.{driver_profiles, cdc_acm_profile}

-- equality of optional numbers
abbrev pub same_id : Option ℕ → Option ℕ → Bool
same_id none none = true
same_id none (some b) = false
same_id (some a) none = false
same_id (some a) (some b) = a == b

-- `_BY_VID_PID.get((vendor, product))`: in a dict comprehension the last profile of a key wins.
unfoldable pub by_vid_pid : List UsbDriverProfile → ℕ → Option ℕ → Option UsbDriverProfile
by_vid_pid [] vendor product = none
by_vid_pid (p ∷ profiles) vendor product = elim (by_vid_pid profiles vendor product) [
  | some found ↦ some found
  | none ↦
      if same_id p.vendor_id (some vendor) && same_id p.product_id product then some p else none
]

-- `or` of two optional profiles
abbrev pub or_else : Option UsbDriverProfile → Option UsbDriverProfile → Option UsbDriverProfile
or_else (some p) other = some p
or_else none other = other

unfoldable pub profile_for : Option ℕ → Option ℕ → Option UsbDriverProfile
unfolding by_vid_pid
profile_for none product = none
profile_for (some vendor) product =
    or_else (by_vid_pid driver_profiles vendor product) (by_vid_pid driver_profiles vendor none)

-- `marker in text`
abbrev pub occurs : String → String → Bool
occurs marker text = leb (find text marker) (len text)

-- the fallback of `classify`, by the interfaces
abbrev pub class_profile : Option UsbDriverProfile → List (ℕ × ℕ) → Option UsbDriverProfile
class_profile (some profile) interfaces = some profile
class_profile none interfaces =
    if any (λ i. (i.0 == usb_class_cdc) && (i.1 == usb_subclass_acm)) interfaces
    then some cdc_acm_profile
    else none

abbrev pub is_bridge : Role → Bool
is_bridge serial_bridge = true
is_bridge dock_bridge = false
is_bridge wince_usb_sync = false

-- the end of `classify`
abbrev pub with_role : Option UsbDriverProfile → Bool → Option Classification
with_role none marked = none
with_role (some profile) marked = some (record {
  profile = profile;
  role = if is_bridge profile.role && marked then dock_bridge else profile.role;
})

module _ (upper : String → String) where
  -- `(text or "").upper()`
  abbrev upper_text : Option String → String
  upper_text none = upper ""
  upper_text (some text) = upper text

  unfoldable pub has_dock_marker : List (Option String) → Bool
  has_dock_marker texts =
      any (λ text. any (λ marker. occurs marker (upper_text text)) dock_markers) texts

  unfoldable pub classify :
      Option ℕ → Option ℕ → Option String → Option String → List (ℕ × ℕ) → Option Classification
  unfolding profile_for has_dock_marker
  classify vendor product text serial interfaces =
      with_role (class_profile (profile_for vendor product) interfaces)
        (has_dock_marker (text ∷ serial ∷ []))
