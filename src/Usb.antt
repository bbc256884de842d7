-- ===== src/Usb.antt =====
-- jornada/usb_profiles.py: which USB devices can carry a link, and which handhelds fit the dock.
pub mod Table
pub mod Classify
pub mod Roles
pub mod Lookup
pub mod Doctor
pub mod Examples
use jornada_link.Common.{
  ℕ, ◌≡◌, refl, Bool, true, false, not, ◌&&◌, ◌||◌, Option, none, some, List, [], ◌∷◌, any, ltb,
  ◌==◌, str_eq, if◌then◌else◌, String,
}

pub data Role : Type 0 where
  serial_bridge : Role
  dock_bridge : Role
  wince_usb_sync : Role

pub data Driver : Type 0 where
  built_in : Driver
  vendor_extension : Driver
  no_driver : Driver

pub data UsbClient : Type 0 where
  no_client : UsbClient
  sa1110_udc : UsbClient

pub data Architecture : Type 0 where
  sh3 : Architecture
  arm : Architecture

pub record UsbDriverProfile : Type 0 where
  pub key : String
  pub vendor_id : Option ℕ
  pub product_id : Option ℕ
  pub name : String
  pub chip : String
  pub role : Role
  pub macos_driver : Driver
  pub driver_name : String
  pub notes : String

pub record HandheldModel : Type 0 where
  pub key : String
  pub name : String
  pub cpu : String
  pub architecture : Architecture
  pub os : String
  pub usb_client : UsbClient
  pub dock_usb : Bool
  pub notes : String

pub record Classification : Type 0 where
  pub profile : UsbDriverProfile
  pub role : Role

abbrev pub usb_class_cdc : ℕ
usb_class_cdc = 0x02

abbrev pub usb_subclass_acm : ℕ
usb_subclass_acm = 0x02

abbrev pub dock_markers : List String
dock_markers = "JORNADA" ∷ "JDOCK" ∷ []

-- equality of a role, a driver or an architecture with one of its kind
abbrev pub is_sync : Role → Bool
is_sync serial_bridge = false
is_sync dock_bridge = false
is_sync wince_usb_sync = true

abbrev pub is_dock : Role → Bool
is_dock serial_bridge = false
is_dock dock_bridge = true
is_dock wince_usb_sync = false

abbrev pub is_built_in : Driver → Bool
is_built_in built_in = true
is_built_in vendor_extension = false
is_built_in no_driver = false

abbrev pub is_sh3 : Architecture → Bool
is_sh3 sh3 = true
is_sh3 arm = false
