-- ===== src/Usb/Examples.antt =====
-- Tests of the classification, and its theorem at a concrete input.
use jornada_link.Common.{◌≡◌, refl, true, none, some, [], ◌∷◌}
use jornada_link.Usb.{serial_bridge, dock_bridge, Classification}
use jornada_link.Usb.Table.{ftdi, cdc_acm_profile}
use jornada_link.Usb.Classify.{has_dock_marker, classify, profile_for, by_vid_pid}
use jornada_link.Usb.Roles.{classify-dock_bridge}

-- An adapter in the dock, whose name is in capitals already.
abbrev adapter : Classification
adapter = record {
  profile =
      ftdi 0x6001 "ftdi-ft232r" "FTDI FT232R / FT232BM / FT245" "FT232R"
        "The adapter jornada-link was developed and tested with.";
  role = dock_bridge;
}

adapter-found :
    classify (λ text. text) (some 0x0403) (some 0x6001) (some "JORNADA DOCK") none [] ≡ some adapter
unfolding classify profile_for by_vid_pid has_dock_marker
adapter-found = refl

classify-dock_bridge_example :
    (adapter.profile.role ≡ serial_bridge)
    × (has_dock_marker (λ text. text) (some "JORNADA DOCK" ∷ none ∷ []) ≡ true)
classify-dock_bridge_example =
    classify-dock_bridge (λ text. text) (some 0x0403) (some 0x6001) (some "JORNADA DOCK") none []
      adapter adapter-found refl

-- An unknown device with an interface of the class is taken for a serial bridge.
by_interface :
    classify (λ text. text) (some 0x1234) (some 1) none none ((2, 2) ∷ [])
    ≡ some (record { profile = cdc_acm_profile; role = serial_bridge })
unfolding classify profile_for by_vid_pid has_dock_marker
by_interface = refl
