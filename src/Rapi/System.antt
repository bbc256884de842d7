-- ===== src/Rapi/System.antt =====
-- Processes and the state of the device, in jornada/rapi.py.
use jornada_link.Common.{
  ℕ, zero, suc, ◌-◌, ◌/◌, Bool, true, Option, none, some, List, [], ◌++◌, length, get_elem?, ltb,
  if◌then◌else◌,
}
use jornada_link.Common.Result.{ok}
use jornada_link.Wire.Encode.{u32, optional_string, optional_out}
use jornada_link.Wire.Reader.{Reader, reader, Read, read_u32, read_bytes, read_optional, wchars}
use jornada_link.Wire.Reader as Wire
use jornada_link.Rapi.{Call, ◌>>=◌, ◌>>◌, pure, raise, parse, call_simple, check_bool, no_data}
use jornada_link.Rapi.Constants.{
  cmd_create_process, cmd_get_store_information, cmd_get_version_ex, cmd_get_system_power_status_ex,
  sizeof_store_information, sizeof_system_power_status_ex, sizeof_process_information,
}

pub record VersionInfo : Type 0 where
  pub major : ℕ
  pub minor : ℕ
  pub build : ℕ
  pub platform_id : ℕ
  pub csd_version : List ℕ

pub record StoreInfo : Type 0 where
  pub store_size : ℕ
  pub free_size : ℕ

pub record PowerStatus : Type 0 where
  pub ac_line_status : ℕ
  pub battery_flag : ℕ
  pub battery_percent : ℕ
  pub backup_battery_flag : ℕ
  pub backup_battery_percent : ℕ

-- `u32(0) * 7`
abbrev zero_words : ℕ → List ℕ
zero_words zero = []
zero_words (suc n) = u32 0 ++ zero_words n

-- `info is None or len(info) < size`
abbrev pub lacks : ℕ → Option (List ℕ) → Bool
lacks size none = true
lacks size (some info) = ltb (length info) size

abbrev bytes_or_empty : Option (List ℕ) → List ℕ
bytes_or_empty none = []
bytes_or_empty (some info) = info

unfoldable pub create_process : List ℕ → Option (List ℕ) → Call ℕ
create_process application command_line = do
  reply ← call_simple cmd_create_process (
      optional_string (some application)
      ++ (optional_string command_line
          ++ (zero_words 7 ++ optional_out (some sizeof_process_information))))
  check_bool reply
  (info, r) ← parse read_optional reply.body
  if lacks sizeof_process_information info
      then pure 0
      else (parse read_u32 (reader (bytes_or_empty info) 8) >>= λ p. pure p.0)

-- `data.remaining`
abbrev remaining : Reader → ℕ
remaining r = length r.bytes - r.offset

-- what `get_version` reads of the structure
unfoldable pub read_version : Read VersionInfo
read_version = Wire.◌>>=◌ read_u32 λ _. Wire.◌>>=◌ read_u32 λ major. Wire.◌>>=◌ read_u32 λ minor.
    Wire.◌>>=◌ read_u32 λ build. Wire.◌>>=◌ read_u32 λ platform_id.
      Wire.◌>>=◌ (λ r. elim (remaining r) [ zero ↦ ok ([], r) | suc n ↦ wchars (suc n / 2) r ])
        λ csd. Wire.pure (record {
          major = major;
          minor = minor;
          build = build;
          platform_id = platform_id;
          csd_version = csd;
        })

unfoldable pub get_version : Call VersionInfo
unfolding read_version
get_version = do
  reply ← call_simple cmd_get_version_ex []
  check_bool reply
  (size, r) ← parse read_u32 reply.body
  (bytes, r1) ← parse (read_bytes size) r
  (info, r2) ← parse read_version (reader bytes 0)
  pure info

abbrev read_store : Read StoreInfo
read_store = Wire.◌>>=◌ read_u32 λ store_size.
    Wire.◌>>=◌ read_u32
      λ free_size. Wire.pure (record { store_size = store_size; free_size = free_size })

unfoldable pub get_store_information : Call StoreInfo
get_store_information = do
  reply ← call_simple cmd_get_store_information (optional_out (some sizeof_store_information))
  check_bool reply
  (info, r) ← parse read_optional reply.body
  if lacks sizeof_store_information info
      then raise no_data
      else (parse read_store (reader (bytes_or_empty info) 0) >>= λ p. pure p.0)

-- `data[i]`, of bytes that are long enough
abbrev byte_at : List ℕ → ℕ → ℕ
byte_at bytes i = elim (get_elem? bytes i) [ none ↦ 0 | some b ↦ b ]

unfoldable pub get_power_status : Call PowerStatus
get_power_status = do
  reply ←
      call_simple cmd_get_system_power_status_ex
        (optional_out (some sizeof_system_power_status_ex) ++ u32 1)
  check_bool reply
  (info, r) ← parse read_optional reply.body
  if lacks sizeof_system_power_status_ex info
      then raise no_data
      else (let bytes = bytes_or_empty info in
          pure (record {
            ac_line_status = byte_at bytes 0;
            battery_flag = byte_at bytes 1;
            battery_percent = byte_at bytes 2;
            backup_battery_flag = byte_at bytes 13;
            backup_battery_percent = byte_at bytes 14;
          }))
