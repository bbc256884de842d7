-- ===== src/Usb/Doctor/Examples.antt =====
-- An adapter and its pinned port, for the theorems on the doctor.
use jornada_link.Common.{
  String, ℕ, ◌≡◌, refl, true, false, none, some, List, [], ◌∷◌, ◌++◌, All, keep, text_eq, text_lt,
  ◌⊎◌,
}
use jornada_link.Common.Result.{ok}
use jornada_link.Usb.{is_sync}
use jornada_link.Usb.Classify.{classify, profile_for, by_vid_pid, has_dock_marker}
use jornada_link.Webapi.Chars.{lf}
use jornada_link.Usb.Doctor.{
  UsbDevice, is_hub, starts_with, raised_score, all_candidates, insert, sort, rank_candidates,
  recommend_serial_path,
}
use jornada_link.Usb.Doctor.Findings.{Finding, level_warn, pin_missing, diagnose}
use jornada_link.Usb.Doctor.Pin.{
  is_valid_serial_path, after_prefix, serial_rest, serial_char, write_pin, read_pin,
  read_pin-write_pin,
}
use jornada_link.Usb.Doctor.Ranking.{Descending, rank_candidates_lem, diagnose-pin}

abbrev slow_port : List ℕ
slow_port = b'/' ∷ b'd' ∷ b'e' ∷ b'v' ∷ b'/' ∷ b'c' ∷ b'u' ∷ b'.' ∷ b'a' ∷ []

abbrev fast_port : List ℕ
fast_port = b'/' ∷ b'd' ∷ b'e' ∷ b'v' ∷ b'/' ∷ b'c' ∷ b'u' ∷ b'.' ∷ b'b' ∷ []

-- An FTDI adapter with two nodes, one of which the user cannot open.
abbrev adapter : UsbDevice
adapter = record {
  vendor_id = 0x0403;
  product_id = 0x6001;
  vendor = "FTDI";
  product = "FT232R USB UART";
  serial = "A1";
  location_id = 1;
  device_class = 0;
  interfaces = [];
  serial_nodes =
      record { path = slow_port; driver = []; writable = false }
      ∷ record { path = fast_port; driver = []; writable = true }
      ∷ [];
}

abbrev same : String → String
same text = text

recommended_best : recommend_serial_path same (adapter ∷ []) none ≡ some fast_port
unfolding rank_candidates sort insert all_candidates raised_score starts_with classify profile_for
    by_vid_pid has_dock_marker keep text_eq text_lt
recommended_best = refl

recommended_pin : recommend_serial_path same (adapter ∷ []) (some slow_port) ≡ some slow_port
unfolding rank_candidates sort insert all_candidates raised_score starts_with classify profile_for
    by_vid_pid has_dock_marker keep text_eq text_lt
recommended_pin = refl

-- The pattern of the source also takes a path with a line feed at its end.
line_feed_is_valid : is_valid_serial_path (slow_port ++ (lf ∷ [])) ≡ true
unfolding is_valid_serial_path after_prefix serial_rest serial_char
line_feed_is_valid = refl

rank_candidates_lem_example :
    Descending (rank_candidates same (adapter ∷ []) (some slow_port))
    × All
        (λ c. (is_hub c.device ≡ false) × (is_sync c.classification.role ≡ false))
        (rank_candidates same (adapter ∷ []) (some slow_port))
rank_candidates_lem_example = rank_candidates_lem same (adapter ∷ []) (some slow_port)

diagnose-pin_example :
    ((diagnose same (adapter ∷ []) (some slow_port) none).recommended ≡ some slow_port)
    ⊎ ((later : List Finding) × ((diagnose same (adapter ∷ []) (some slow_port) none).findings
          ≡ record { level = level_warn; message = pin_missing slow_port } ∷ later))
diagnose-pin_example = diagnose-pin same (adapter ∷ []) slow_port none

read_pin-write_pin_example :
    (text : List ℕ) × (write_pin slow_port ≡ ok text) × (read_pin text ≡ some slow_port)
unfolding is_valid_serial_path after_prefix serial_rest serial_char
read_pin-write_pin_example = read_pin-write_pin slow_port refl refl
