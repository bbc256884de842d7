-- ===== src/Info.antt =====
-- jornada/info.py: the information packet that a device sends when it connects.
pub mod RoundTrip
use jornada_link.Common.{
  ℕ, ◌+◌, ◌*◌, ◌%◌, ◌/◌, ◌^◌, Bool, String, List, [], ◌∷◌, ◌++◌, drop, length, ltb, leb,
  if◌then◌else◌,
}
use jornada_link.Common.Result.{Result, ok, err, ◌>>=◌}
use jornada_link.Wire.Utf16.{decode_utf16, before_nul}
use jornada_link.Wire.Encode.{u16, u32, wstr}
use jornada_link.Wire.Reader.{WireError, short, Reader, reader, read_u16, read_u32}

-- DCCM_MIN_PACKET_SIZE
abbrev pub min_packet_size : ℕ
min_packet_size = 0x24

pub record DeviceInfo : Type 0 where
  pub os_version : ℕ
  pub build_number : ℕ
  pub processor_type : ℕ
  pub partner_id_1 : ℕ
  pub partner_id_2 : ℕ
  pub name : List ℕ
  pub device_class : List ℕ
  pub hardware : List ℕ

-- `os_version_text`: the major and the minor version
abbrev pub os_version_text : DeviceInfo → ℕ × ℕ
os_version_text info = (info.os_version % 256, info.os_version / 2 ^ 8)

unfoldable pub string_at : List ℕ → ℕ → Result WireError (List ℕ)
string_at buffer offset = do
  (pointer, _) ← read_u32 (reader buffer offset)
  if leb (length buffer) pointer
      then err (short 0 pointer)
      else ok (before_nul (decode_utf16 (drop pointer buffer)))

unfoldable pub parse_info_packet : List ℕ → Result WireError DeviceInfo
unfolding string_at
parse_info_packet buffer =
    if ltb (length buffer) min_packet_size then err (short min_packet_size 0) else do
      (os_version, r) ← read_u16 (reader buffer 4)
      (build_number, r) ← read_u16 r
      (processor_type, r) ← read_u16 r
      (partner_id_1, r) ← read_u32 (reader buffer 0x10)
      (partner_id_2, r) ← read_u32 r
      name ← string_at buffer 0x18
      device_class ← string_at buffer 0x1C
      hardware ← string_at buffer 0x20
      ok (record {
        os_version = os_version;
        build_number = build_number;
        processor_type = processor_type;
        partner_id_1 = partner_id_1;
        partner_id_2 = partner_id_2;
        name = name;
        device_class = device_class;
        hardware = hardware;
      })

-- `build_info_packet`: the header, the three offsets, the three strings.
unfoldable pub build_info_packet : DeviceInfo → List ℕ
build_info_packet info =
    let header_size : ℕ = 0x24 in
    let name = wstr info.name in
    let device_class = wstr info.device_class in
    let hardware = wstr info.hardware in
    u32 header_size
    ++ (u16 info.os_version
        ++ (u16 info.build_number
            ++ (u16 info.processor_type
                ++ (u16 0
                    ++ (u32 0
                        ++ (u32 info.partner_id_1
                            ++ (u32 info.partner_id_2
                                ++ (u32 header_size
                                    ++ (u32 (header_size + length name)
                                        ++ (u32 (header_size + length name + length device_class)
                                            ++ (name ++ (device_class ++ hardware))))))))))))
