-- ===== src/Usb/Doctor.antt =====
-- jornada/usb_doctor.py over the devices of jornada/usb_registry.py: the candidates and their order. A
-- path or a driver is a list of code points.
pub mod Pin
pub mod Findings
pub mod Ranking
mod Examples
use jornada_link.Common.{
  String, ℕ, zero, suc, ◌+◌, Bool, true, false, not, ◌&&◌, ◌||◌, Option, none, some, List, [], ◌∷◌,
  ◌++◌, map, any, keep, length, ltb, ◌==◌, text_eq, text_lt, if◌then◌else◌,
}
use jornada_link.Usb.{
  Role, serial_bridge, dock_bridge, wince_usb_sync, Driver, built_in, Architecture, sh3, arm,
  UsbDriverProfile, HandheldModel, Classification, is_built_in, is_sh3, is_sync, is_dock,
}
use jornada_link.Usb.Classify.{classify}

pub record SerialNode : Type 0 where
  pub path : List ℕ
  pub driver : List ℕ
  pub writable : Bool

pub record UsbInterface : Type 0 where
  pub number : ℕ
  pub class_code : ℕ
  pub subclass : ℕ
  pub protocol : ℕ
  pub driver : Option (List ℕ)

pub record UsbDevice : Type 0 where
  pub vendor_id : ℕ
  pub product_id : ℕ
  pub vendor : String
  pub product : String
  pub serial : String
  pub location_id : ℕ
  pub device_class : ℕ
  pub interfaces : List UsbInterface
  pub serial_nodes : List SerialNode

abbrev usb_class_hub : ℕ
usb_class_hub = 0x09

abbrev pub is_hub : UsbDevice → Bool
is_hub d =
    (d.device_class == usb_class_hub) || any (λ i. i.class_code == usb_class_hub) d.interfaces

abbrev pub interface_classes : UsbDevice → List (ℕ × ℕ)
interface_classes d = map (λ i. (i.class_code, i.subclass)) d.interfaces

abbrev pub usb_devices : List UsbDevice → List UsbDevice
usb_devices devices = keep (λ d. not (is_hub d)) devices

pub record ClassifiedDevice : Type 0 where
  pub device : UsbDevice
  pub classification : Option Classification

-- `role`
abbrev pub role_of : Option Classification → Option Role
role_of none = none
role_of (some c) = some c.role

-- `score` is the source's score plus 500, which is never below zero.
pub record Candidate : Type 0 where
  pub path : List ℕ
  pub driver : List ℕ
  pub writable : Bool
  pub device : UsbDevice
  pub classification : Classification
  pub score : ℕ

abbrev pub base_score : Role → ℕ
base_score dock_bridge = 400
base_score serial_bridge = 200
base_score wince_usb_sync = 0

-- `driver.startswith(...)`
unfoldable pub starts_with : List ℕ → List ℕ → Bool
starts_with text [] = true
starts_with [] (p ∷ prefix_) = false
starts_with (c ∷ text) (p ∷ prefix_) = (c == p) && starts_with text prefix_

abbrev pub apple_prefix : List ℕ
apple_prefix = b'c' ∷ b'o' ∷ b'm' ∷ b'.' ∷ b'a' ∷ b'p' ∷ b'p' ∷ b'l' ∷ b'e' ∷ b'.' ∷ []

-- `_score`, plus 500
unfoldable pub raised_score : Role → List ℕ → Bool → Bool → ℕ
raised_score role driver writable pinned =
    base_score role
    + (if starts_with driver apple_prefix then 100 else 0)
    + (if writable then 550 else 0)
    + (if pinned then 10000 else 0)

-- `pinned == path`
abbrev pub is_pin : Option (List ℕ) → List ℕ → Bool
is_pin none path = false
is_pin (some pin) path = text_eq pin path

abbrev pub candidate_of : Option (List ℕ) → UsbDevice → Classification → SerialNode → Candidate
candidate_of pinned device c node = record {
  path = node.path;
  driver = node.driver;
  writable = node.writable;
  device = device;
  classification = c;
  score = raised_score c.role node.driver node.writable (is_pin pinned node.path);
}

-- the body of the loop of `rank_candidates`
abbrev pub candidates_of : Option (List ℕ) → UsbDevice → Option Classification → List Candidate
candidates_of pinned device none = []
candidates_of pinned device (some c) =
    if is_sync c.role then [] else map (candidate_of pinned device c) device.serial_nodes

unfoldable pub all_candidates : Option (List ℕ) → List ClassifiedDevice → List Candidate
unfolding raised_score
all_candidates pinned [] = []
all_candidates pinned (item ∷ items) =
    candidates_of pinned item.device item.classification ++ all_candidates pinned items

-- `(-a.score, a.path) < (-b.score, b.path)`
abbrev pub before : Candidate → Candidate → Bool
before a b = ltb b.score a.score || ((a.score == b.score) && text_lt a.path b.path)

-- `sorted` by that key, which keeps the order of candidates with the same key
unfoldable pub insert : Candidate → List Candidate → List Candidate
insert a [] = a ∷ []
insert a (b ∷ sorted) =
    let rest = insert a sorted in if before b a then b ∷ rest else a ∷ b ∷ sorted

unfoldable pub sort : List Candidate → List Candidate
unfolding insert
sort [] = []
sort (a ∷ candidates) = insert a (sort candidates)

-- `ranked[0].path if ranked else None`
abbrev pub first_path : List Candidate → Option (List ℕ)
first_path [] = none
first_path (c ∷ ranked) = some c.path

module _ (upper : String → String) where
  abbrev pub classify_devices : List UsbDevice → List ClassifiedDevice
  classify_devices devices =
      map
        (λ d. record {
          device = d;
          classification =
              classify upper (some d.vendor_id) (some d.product_id) (some d.product) (some d.serial)
                (interface_classes d);
        })
        (usb_devices devices)

  unfoldable pub rank_candidates : List UsbDevice → Option (List ℕ) → List Candidate
  unfolding sort all_candidates
  rank_candidates devices pinned = sort (all_candidates pinned (classify_devices devices))

  abbrev pub recommend_serial_path : List UsbDevice → Option (List ℕ) → Option (List ℕ)
  recommend_serial_path devices pinned = first_path (rank_candidates devices pinned)
