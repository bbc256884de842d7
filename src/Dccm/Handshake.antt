-- ===== src/Dccm/Handshake.antt =====
-- What a device that follows the protocol gets.
use jornada_link.Common.{
  ℕ, ◌%◌, ◌^◌, ◌<◌, ◌≤◌, ◌≡◌, refl, true, false, Option, some, String, List, [], ◌∷◌, ◌++◌, length,
  arith, append_assoc, ltb, ◌==◌,
}
use jornada_link.Common.Bits.{le_bytes, length-le_bytes, from_le-le_bytes}
use jornada_link.Common.Result.{ok}
use jornada_link.Wire.Encode.{u32}
use jornada_link.Transport.{Socket, Event, send_all, recv_u32}
use jornada_link.Transport.Exact.{stream, recv_exact-append}
use jornada_link.Info.{DeviceInfo, parse_info_packet, build_info_packet}
use jornada_link.Info.RoundTrip.{Fits, parse-build}
use jornada_link.Dccm.{Session, fresh, ping, handle_header}
use jornada_link.Dccm.Loop.{connected, handle_ready, read_round}

pub recv_u32-append :
    (v : ℕ) (sock : Socket) (ys : List ℕ)
    → v < 2 ^ 32
    → stream sock.events ≡ u32 v ++ ys
    → (rest : List Event) × (recv_u32 sock ≡ ok (v, record sock { events = rest }))
      × (stream rest ≡ ys)
unfolding recv_u32 u32
recv_u32-append v sock ys small e =
    let same : v % 2 ^ 32 ≡ v = omega arith in
    let (rest, got, after) =
      recv_exact-append 4 sock (le_bytes 4 (v % 2 ^ 32)) ys e (length-le_bytes 4 (v % 2 ^ 32)) in
    (rest, rw (got, from_le-le_bytes 4 (v % 2 ^ 32) (omega arith), same), after)

length-build : (info : DeviceInfo) → Fits info → 0x24 ≤ length (build_info_packet info)
unfolding parse_info_packet
length-build info fits = ground (arith, parse-build info fits)

-- The header that announces the packet, then the packet.
abbrev pub hello : DeviceInfo → List ℕ
hello info = u32 (length (build_info_packet info)) ++ build_info_packet info

-- The session of a device that has told who it is and needs no password.
abbrev pub welcomed : String → DeviceInfo → Session
welcomed ip info = record (fresh ip) { info = some info; authenticated = true }

module _ (secret : Option (List ℕ)) (ip : String) (info : DeviceInfo) (rest sent : List ℕ) where
  -- The packet of an unlocked device, read by the handler.
  handle_header-hello :
      (events : List Event) (small : length (build_info_packet info) < 512)
      → Fits info
      → stream events ≡ build_info_packet info ++ rest
      → (events' : List Event) × (handle_header
            (fresh ip)
            (length (build_info_packet info))
            secret
            (record { events = events; sent = sent; send_faults = [] })
          ≡ ok (
            welcomed ip info,
            record { events = events'; sent = sent ++ u32 ping; send_faults = [] },
          ))
        × (stream events' ≡ rest)
  unfolding handle_header send_all
  handle_header-hello events small fits e =
      let sock : Socket = record { events = events; sent = sent; send_faults = [] } in
      let least = length-build info fits in
      let (events', got, after) =
        recv_exact-append (length (build_info_packet info)) sock (build_info_packet info) rest e
          refl in
      let not_zero : (length (build_info_packet info) == 0) ≡ false = ground arith in
      let not_ping : (length (build_info_packet info) == ping) ≡ false = ground arith in
      let is_packet : ltb (length (build_info_packet info)) 512 ≡ true = ground arith in
      let enough : ltb (length (build_info_packet info)) 0x24 ≡ false = ground arith in
      (events', rw (not_zero, not_ping, is_packet, enough, got, parse-build info fits), after)

  -- A device that needs no password and sends its packet, however the bytes are cut, is authenticated
  -- in one round with exactly the description it was built of: the ping is sent, the session is
  -- announced, and what follows on the stream is left. The packet must have fewer than 512 bytes.
  pub read_round-hello :
      (events : List Event)
      → Fits info
      → length (build_info_packet info) < 512
      → stream events ≡ hello info ++ rest
      → (events' : List Event) × (read_round secret
            (connected ip (record { events = events; sent = sent; send_faults = [] }))
          ≡ ok (record {
            session = welcomed ip info;
            sock = record { events = events'; sent = sent ++ u32 ping; send_faults = [] };
            announced = welcomed ip info ∷ [];
          }))
        × (stream events' ≡ rest)
  unfolding read_round handle_ready
  read_round-hello events fits small e =
      let sock : Socket = record { events = events; sent = sent; send_faults = [] } in
      let (after_header, got, left) =
        recv_u32-append (length (build_info_packet info)) sock (build_info_packet info ++ rest)
          (omega arith) (rw append_assoc at e) in
      let (events', handled, after) = handle_header-hello after_header small fits left in
      (events', rw (got, handled), after)
