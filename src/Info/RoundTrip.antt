-- ===== src/Info/RoundTrip.antt =====
-- The packet that `build_info_packet` writes is parsed back.
use jornada_link.Common.{
  ℕ, ◌+◌, ◌%◌, ◌^◌, ◌<◌, ◌≤◌, ◌≡◌, refl, ap, List, [], ◌∷◌, ◌++◌, drop, length, length-append,
  length-drop, append-nil, length-drop, arith, ltb, leb, false,
}
use jornada_link.Common.Result.{ok}
use jornada_link.Wire.Utf16.{IsText, encode_utf16}
use jornada_link.Wire.Encode.{u16, u32, wstr}
use jornada_link.Wire.Reader.{reader}
use jornada_link.Wire.RoundTrip.{
  Ahead, NoNul, before_nul-decode-wstr, read_u16-u16, read_u32-u32, u16-Ahead, u32-Ahead,
  advance-Ahead,
}
use jornada_link.Info.{DeviceInfo, string_at, parse_info_packet, build_info_packet}

-- A packet can hold the values: numbers fit their fields, texts have no NUL, and the offsets of the
-- three strings fit 32 bits.
pub record Fits (info : DeviceInfo) : Type 0 where
  pub os_version : info.os_version < 2 ^ 16
  pub build_number : info.build_number < 2 ^ 16
  pub processor_type : info.processor_type < 2 ^ 16
  pub partner_id_1 : info.partner_id_1 < 2 ^ 32
  pub partner_id_2 : info.partner_id_2 < 2 ^ 32
  pub name : IsText info.name × NoNul info.name
  pub device_class : IsText info.device_class × NoNul info.device_class
  pub hardware : IsText info.hardware × NoNul info.hardware
  pub size : length (build_info_packet info) < 2 ^ 32

pointer-lt-length :
    (buffer text after : List ℕ) (pointer : ℕ)
    → Ahead (reader buffer pointer) (wstr text ++ after)
    → pointer < length buffer
unfolding wstr
pointer-lt-length buffer text after pointer there = omega (
  arith,
  there.inside,
  length-drop pointer buffer there.inside,
  ap length there.rest,
  length-append (wstr text) after,
  length-append (encode_utf16 text) (0 ∷ 0 ∷ []),
)

-- A string whose offset stands at the cursor.
string_at_lem :
    (buffer text rest after : List ℕ) (offset pointer : ℕ)
    → length buffer < 2 ^ 32
    → IsText text × NoNul text
    → Ahead (reader buffer offset) (u32 pointer ++ rest)
    → Ahead (reader buffer pointer) (wstr text ++ after)
    → string_at buffer offset ≡ ok text
unfolding string_at
string_at_lem buffer text rest after offset pointer fits (valid, no_nul) here there =
    let inside : pointer < length buffer = pointer-lt-length buffer text after pointer there in
    let same : pointer % 2 ^ 32 ≡ pointer = omega arith in
    let test : leb (length buffer) pointer ≡ false = ground arith in
    rw (
      read_u32-u32 pointer rest here,
      same,
      test,
      there.rest,
      before_nul-decode-wstr text after valid no_nul,
    )

-- The fields of a packet, read one by one.
parse_lem :
    (buffer rest rest' : List ℕ) (info : DeviceInfo)
    → Fits info
    → 0x24 ≤ length buffer
    → Ahead
        (reader buffer 4)
        (u16 info.os_version ++ (u16 info.build_number ++ (u16 info.processor_type ++ rest)))
    → Ahead (reader buffer 0x10) (u32 info.partner_id_1 ++ (u32 info.partner_id_2 ++ rest'))
    → string_at buffer 0x18 ≡ ok info.name
    → string_at buffer 0x1C ≡ ok info.device_class
    → string_at buffer 0x20 ≡ ok info.hardware
    → parse_info_packet buffer ≡ ok info
unfolding parse_info_packet
parse_lem buffer rest rest' info fits enough numbers partners name device_class hardware =
    let test : ltb (length buffer) 0x24 ≡ false = ground arith in
    let after_os = u16-Ahead info.os_version _ numbers in
    let after_build = u16-Ahead info.build_number _ after_os in
    let after_partner = u32-Ahead info.partner_id_1 _ partners in
    let os : info.os_version % 2 ^ 16 ≡ info.os_version = omega arith in
    let build : info.build_number % 2 ^ 16 ≡ info.build_number = omega arith in
    let processor : info.processor_type % 2 ^ 16 ≡ info.processor_type = omega arith in
    let partner_1 : info.partner_id_1 % 2 ^ 32 ≡ info.partner_id_1 = omega arith in
    let partner_2 : info.partner_id_2 % 2 ^ 32 ≡ info.partner_id_2 = omega arith in
    rw (
      test,
      read_u16-u16 info.os_version _ numbers,
      read_u16-u16 info.build_number _ after_os,
      read_u16-u16 info.processor_type _ after_build,
      read_u32-u32 info.partner_id_1 _ partners,
      read_u32-u32 info.partner_id_2 _ after_partner,
      name,
      device_class,
      hardware,
      os,
      build,
      processor,
      partner_1,
      partner_2,
    )

module _ (info : DeviceInfo) (fits : Fits info) where
  abbrev name : List ℕ
  name = wstr info.name

  abbrev device_class : List ℕ
  device_class = wstr info.device_class

  abbrev hardware : List ℕ
  hardware = wstr info.hardware

  -- Parsing the packet that is built of a description gives the description, if the packet can hold
  -- its values.
  pub parse-build : parse_info_packet (build_info_packet info) ≡ ok info
  unfolding parse_info_packet build_info_packet
  parse-build =
      let buffer = build_info_packet info in
      let a0 : Ahead (reader buffer 0) buffer = record {
        inside = omega arith;
        rest = unfold drop in refl;
      } in
      let a4 = u32-Ahead 0x24 _ a0 in
      let a6 = u16-Ahead info.os_version _ a4 in
      let a8 = u16-Ahead info.build_number _ a6 in
      let a10 = u16-Ahead info.processor_type _ a8 in
      let a12 = u16-Ahead 0 _ a10 in
      let a16 = u32-Ahead 0 _ a12 in
      let a20 = u32-Ahead info.partner_id_1 _ a16 in
      let a24 = u32-Ahead info.partner_id_2 _ a20 in
      let a28 = u32-Ahead 0x24 _ a24 in
      let a32 = u32-Ahead (0x24 + length name) _ a28 in
      let a36 = u32-Ahead (0x24 + length name + length device_class) _ a32 in
      let b_class = advance-Ahead name (device_class ++ hardware) a36 (length name) refl in
      let b_hardware = advance-Ahead device_class hardware b_class (length device_class) refl in
      parse_lem buffer _ _ info fits (omega (arith, a36.inside)) a4 a16
        (string_at_lem buffer info.name _ _ 0x18 0x24 fits.size fits.name a24 a36)
        (string_at_lem buffer info.device_class _ _ 0x1C _ fits.size fits.device_class a28 b_class)
        (string_at_lem buffer info.hardware _ [] 0x20 _ fits.size fits.hardware a32
          (rw append-nil b_hardware))
