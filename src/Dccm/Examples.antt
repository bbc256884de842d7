-- ===== src/Dccm/Examples.antt =====
-- Theorems about the connection, its packet and its password at concrete inputs.
use jornada_link.Common.{ℕ, ◌≡◌, ◌%◌, ◌^◌, refl, none, some, List, [], ◌∷◌, ◌++◌, length, arith}
use jornada_link.Common.Bits.{le_bytes, AreBytes}
use jornada_link.Common.Result.{ok}
use jornada_link.Wire.Utf16.{encode_utf16, decode_utf16, before_nul}
use jornada_link.Wire.Encode.{u16, u32, wstr}
use jornada_link.Transport.{Socket, Event, arrived}
use jornada_link.Transport.Exact.{stream}
use jornada_link.Info.{DeviceInfo, parse_info_packet, build_info_packet}
use jornada_link.Info.RoundTrip.{Fits, parse-build}
use jornada_link.Password.{mask, encode_password, password_packet}
use jornada_link.Password.Mask.{decode-encode_password}
use jornada_link.Dccm.{ping}
use jornada_link.Dccm.Loop.{ready, ping_due, over, connected, client_loop, read_round}
use jornada_link.Dccm.Invariant.{IsValidConn, client_loop-connected}
use jornada_link.Dccm.Handshake.{hello, welcomed, read_round-hello}
use jornada_link.Dccm.Challenge.{challenged, read_round-challenge, pings, pinged, client_loop-pings}

-- A Jornada 680e.
abbrev jornada : DeviceInfo
jornada = record {
  os_version = 0x0B02;
  build_number = 9000;
  processor_type = 10003;
  partner_id_1 = 0;
  partner_id_2 = 7;
  name = b'j' ∷ b'6' ∷ [];
  device_class = b'H' ∷ b'P' ∷ b'C' ∷ [];
  hardware = b'S' ∷ b'H' ∷ b'3' ∷ [];
}

jornada_size : length (build_info_packet jornada) ≡ 58
unfolding build_info_packet u16 u32 wstr encode_utf16 le_bytes
jornada_size = refl

jornada-Fits : Fits jornada
jornada-Fits = record {
  os_version = omega arith;
  build_number = omega arith;
  processor_type = omega arith;
  partner_id_1 = omega arith;
  partner_id_2 = omega arith;
  name = ((refl, (refl, tt)), (refl, (refl, tt)));
  device_class = ((refl, (refl, (refl, tt))), (refl, (refl, (refl, tt))));
  hardware = ((refl, (refl, (refl, tt))), (refl, (refl, (refl, tt))));
  size = omega (arith, jornada_size);
}

parse-build_example : parse_info_packet (build_info_packet jornada) ≡ ok jornada
parse-build_example = parse-build jornada jornada-Fits

abbrev secret : List ℕ
secret = b'p' ∷ b'w' ∷ []

decode-encode_password_example :
    (encoded : List ℕ) × (encode_password secret 0x5A ≡ ok encoded)
    × AreBytes encoded
    × (before_nul (decode_utf16 (mask 0x5A encoded)) ≡ secret)
decode-encode_password_example =
    decode-encode_password secret 0x5A (omega arith) (refl, (refl, tt)) (refl, (refl, tt))

-- The packet arrives in one chunk, and nothing follows.
abbrev greeting : List Event
greeting = arrived (hello jornada) ∷ []

greeting-stream : stream greeting ≡ hello jornada ++ []
unfolding u32 le_bytes
greeting-stream = refl

read_round-hello_example :
    (events' : List Event) × (read_round none
        (connected "192.168.131.201" (record { events = greeting; sent = []; send_faults = [] }))
      ≡ ok (record {
        session = welcomed "192.168.131.201" jornada;
        sock = record { events = events'; sent = [] ++ u32 ping; send_faults = [] };
        announced = welcomed "192.168.131.201" jornada ∷ [];
      }))
    × (stream events' ≡ [])
read_round-hello_example =
    read_round-hello none "192.168.131.201" jornada [] [] greeting jornada-Fits
      (omega (arith, jornada_size)) greeting-stream

abbrev key_header : ℕ
key_header = 0x0300005A

abbrev asking : List Event
asking = arrived (u32 key_header) ∷ []

asking-stream : stream asking ≡ u32 key_header ++ []
unfolding u32 le_bytes
asking-stream = refl

read_round-challenge_example :
    (encoded : List ℕ) × (events' : List Event) × (read_round
        (some secret)
        (connected "192.168.131.201" (record { events = asking; sent = []; send_faults = [] }))
      ≡ ok (record {
        session = challenged "192.168.131.201" (key_header % 2 ^ 8);
        sock = record { events = events'; sent = [] ++ password_packet encoded; send_faults = [] };
        announced = [];
      }))
    × (before_nul (decode_utf16 (mask (key_header % 2 ^ 8) encoded)) ≡ secret)
    × (stream events' ≡ [])
read_round-challenge_example =
    read_round-challenge "192.168.131.201" b'p' (b'w' ∷ []) [] [] asking key_header (omega arith)
      (omega arith) (omega arith) (refl, (refl, tt)) (refl, (refl, tt)) asking-stream

abbrev silent : Socket
silent = record { events = []; sent = []; send_faults = [] }

client_loop-connected_example :
    IsValidConn (client_loop none (ready ∷ ping_due ∷ []) (connected "192.168.131.201" silent)).1
client_loop-connected_example =
    client_loop-connected none "192.168.131.201" silent (ready ∷ ping_due ∷ [])

client_loop-pings_example :
    client_loop none (pings 5 ++ (ready ∷ [])) (connected "192.168.131.201" silent)
    ≡ (over, pinged 5 (connected "192.168.131.201" silent))
client_loop-pings_example =
    client_loop-pings none 5 (connected "192.168.131.201" silent) (ready ∷ []) refl refl
