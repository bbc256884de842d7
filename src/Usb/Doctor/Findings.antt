-- ===== src/Usb/Doctor/Findings.antt =====
-- The diagnosis of jornada/usb_doctor.py. The texts of the findings are not modelled: a finding's
-- `message` says which one it is and what its text is made of.
use jornada_link.Common.{
  String, ℕ, Bool, true, false, Option, none, some, List, [], ◌∷◌, ◌++◌, any, text_eq,
  if◌then◌else◌,
}
use jornada_link.Usb.{
  sh3, arm, UsbDriverProfile, HandheldModel, Classification, is_built_in, is_sh3, is_sync, is_dock,
}
use jornada_link.Usb.Doctor.{
  SerialNode, UsbDevice, ClassifiedDevice, Candidate, is_pin, first_path, classify_devices,
  rank_candidates,
}

pub data Level : Type 0 where
  level_error level_warn level_info level_ok : Level

-- What a finding is about.
pub data Message : Type 0 where
  pin_missing : List ℕ → Message
  no_adapter : Message
  sync_present : UsbDevice → Option UsbDriverProfile → Message
  sync_is_other : HandheldModel → Message
  dock_linked : HandheldModel → Candidate → Message
  dock_inert : HandheldModel → Message
  dock_enumerates : HandheldModel → Message
  no_serial_node : UsbDevice → UsbDriverProfile → Bool → Message
  several_nodes : UsbDevice → UsbDriverProfile → List ℕ → Message
  root_only : SerialNode → Message
  link_port : Candidate → Bool → Message

pub record Finding : Type 0 where
  pub level : Level
  pub message : Message

-- `next(c for c in ranked if c.classification.role == ROLE_DOCK_BRIDGE)`
unfoldable pub dock_candidate : List Candidate → Option Candidate
dock_candidate [] = none
dock_candidate (c ∷ ranked) =
    if is_dock c.classification.role then some c else dock_candidate ranked

unfoldable pub dock_findings : Option HandheldModel → List Candidate → List Finding
unfolding dock_candidate
dock_findings none ranked = []
dock_findings (some model) ranked = elim model.architecture [
  | sh3 ↦ elim (dock_candidate ranked) [
    | some c ↦ record { level = level_ok; message = dock_linked model c } ∷ []
    | none ↦ record { level = level_info; message = dock_inert model } ∷ []
  ]
  | arm ↦ record { level = level_info; message = dock_enumerates model } ∷ []
]

-- the second finding on a sync device
abbrev pub sync_warning : Option HandheldModel → List Finding
sync_warning none = []
sync_warning (some model) =
    if is_sh3 model.architecture
    then record { level = level_warn; message = sync_is_other model } ∷ []
    else []

abbrev pub profile_of : Option Classification → Option UsbDriverProfile
profile_of none = none
profile_of (some c) = some c.profile

abbrev pub is_sync_item : ClassifiedDevice → Bool
is_sync_item item = elim item.classification [ none ↦ false | some c ↦ is_sync c.role ]

unfoldable pub sync_device_findings : Option HandheldModel → List ClassifiedDevice → List Finding
sync_device_findings handheld [] = []
sync_device_findings handheld (item ∷ items) =
    let rest = sync_device_findings handheld items in
    if is_sync_item item
    then record {
      level = level_info;
      message = sync_present item.device (profile_of item.classification);
    }
      ∷ (sync_warning handheld ++ rest)
    else rest

abbrev pub path_or : Option (List ℕ) → List ℕ → List ℕ
path_or none other = other
path_or (some []) other = other
path_or (some (c ∷ path)) other = c ∷ path

abbrev pub several : Option (List ℕ) → UsbDevice → UsbDriverProfile → List SerialNode → List Finding
several recommended device profile [] = []
several recommended device profile (node ∷ []) = []
several recommended device profile (node ∷ node' ∷ nodes) =
    record {
      level = level_info;
      message = several_nodes device profile (path_or recommended node.path);
    }
    ∷ []

unfoldable pub root_only_findings : List SerialNode → List Finding
root_only_findings [] = []
root_only_findings (node ∷ nodes) =
    let rest = root_only_findings nodes in
    if node.writable then rest else record { level = level_warn; message = root_only node } ∷ rest

abbrev pub adapter_finding : Option (List ℕ) → UsbDevice → UsbDriverProfile → List Finding
adapter_finding recommended device profile = elim device.serial_nodes [
  | [] ↦
      record {
        level = level_error;
        message = no_serial_node device profile (is_built_in profile.macos_driver);
      }
      ∷ []
  | node ∷ nodes ↦
      several recommended device profile (node ∷ nodes) ++ root_only_findings (node ∷ nodes)
]

abbrev pub adapter_findings_of : Option (List ℕ) → UsbDevice → Option Classification → List Finding
adapter_findings_of recommended device none = []
adapter_findings_of recommended device (some c) =
    if is_sync c.role then [] else adapter_finding recommended device c.profile

unfoldable pub adapter_findings : Option (List ℕ) → List ClassifiedDevice → List Finding
unfolding root_only_findings
adapter_findings recommended [] = []
adapter_findings recommended (item ∷ items) =
    adapter_findings_of recommended item.device item.classification
    ++ adapter_findings recommended items

pub record Diagnosis : Type 0 where
  pub devices : List ClassifiedDevice
  pub candidates : List Candidate
  pub recommended : Option (List ℕ)
  pub pinned : Option (List ℕ)
  pub handheld : Option HandheldModel
  pub findings : List Finding

abbrev pub pin_finding : Option (List ℕ) → List Candidate → List Finding
pin_finding none ranked = []
pin_finding (some pin) ranked =
    if any (λ c. text_eq pin c.path) ranked
    then []
    else record { level = level_warn; message = pin_missing pin } ∷ []

abbrev pub adapter_missing : List Candidate → List ClassifiedDevice → List Finding
adapter_missing [] items =
    if any is_sync_item items then [] else record { level = level_error; message = no_adapter } ∷ []
adapter_missing (c ∷ ranked) items = []

abbrev pub port_finding : Option (List ℕ) → List Candidate → List Finding
port_finding pinned [] = []
port_finding pinned (best ∷ ranked) =
    record { level = level_ok; message = link_port best (is_pin pinned best.path) } ∷ []

abbrev pub level_is : Level → Level → Bool
level_is level_error level_error = true
level_is level_warn level_warn = true
level_is level_info level_info = true
level_is level_ok level_ok = true
level_is _ _ = false

-- `worst_level`
abbrev pub worst_level : Diagnosis → Level
worst_level d =
    if any (λ f. level_is f.level level_error) d.findings
    then level_error
    else (if any (λ f. level_is f.level level_warn) d.findings
        then level_warn
        else (if any (λ f. level_is f.level level_info) d.findings then level_info else level_ok))

module _ (upper : String → String) where
  unfoldable pub diagnose : List UsbDevice → Option (List ℕ) → Option HandheldModel → Diagnosis
  unfolding rank_candidates sync_device_findings dock_findings adapter_findings
  diagnose devices pinned handheld =
      let items = classify_devices upper devices in
      let ranked = rank_candidates upper devices pinned in
      let recommended = first_path ranked in
      record {
        devices = items;
        candidates = ranked;
        recommended = recommended;
        pinned = pinned;
        handheld = handheld;
        findings =
            pin_finding pinned ranked
            ++ (adapter_missing ranked items
                ++ (sync_device_findings handheld items
                    ++ (dock_findings handheld ranked
                        ++ (adapter_findings recommended items ++ port_finding pinned ranked))));
      }
