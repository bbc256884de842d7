-- ===== src/Dccm.antt =====
-- jornada/dccm.py: the desktop end of a connection. `Session` and the handlers of what the device
-- sends; the loop is in `Loop`.
pub mod Loop
pub mod Invariant
pub mod Handshake
pub mod Challenge
mod Examples
use jornada_link.Common.{
  ℕ, ◌+◌, ◌%◌, ◌^◌, Bool, true, false, Option, none, some, String, List, [], ◌∷◌, ltb, ◌==◌,
  if◌then◌else◌,
}
use jornada_link.Common.Bits.{from_le}
use jornada_link.Common.Result.{Result, ok, err, ◌>>=◌}
use jornada_link.Wire.Encode.{u32}
use jornada_link.Wire.Reader.{WireError}
use jornada_link.Transport.{TransportError, Socket, send_all, recv_exact}
use jornada_link.Info.{DeviceInfo, min_packet_size, parse_info_packet}
use jornada_link.Password.{PasswordError, encode_password, password_packet}

-- DCCM_PING and DCCM_MAX_PACKET_SIZE
abbrev pub ping : ℕ
ping = 0x12345678

abbrev pub max_packet_size : ℕ
max_packet_size = 512

-- The exceptions that end a connection: `DccmError` by its four causes, and those of the callees.
pub data Error : Type 0 where
  too_small : ℕ → Error
  no_password rejected : Error
  transport : TransportError → Error
  wire : WireError → Error
  password : PasswordError → Error

pub record Session : Type 0 where
  pub ip : String
  pub info : Option DeviceInfo
  pub key : ℕ
  pub locked : Bool
  pub awaiting_password_reply : Bool
  pub authenticated : Bool
  pub missed_pings : ℕ

-- `Session(ip=ip)`
abbrev pub fresh : String → Session
fresh ip = record {
  ip = ip;
  info = none;
  key = 0;
  locked = false;
  awaiting_password_reply = false;
  authenticated = false;
  missed_pings = 0;
}

-- The exceptions of the callees as exceptions of the connection.
abbrev pub of_transport {ℓ} : {A : Type ℓ} → Result TransportError A → Result Error A
of_transport (ok a) = ok a
of_transport (err e) = err (transport e)

abbrev pub of_wire {ℓ} : {A : Type ℓ} → Result WireError A → Result Error A
of_wire (ok a) = ok a
of_wire (err e) = err (wire e)

abbrev pub of_password {ℓ} : {A : Type ℓ} → Result PasswordError A → Result Error A
of_password (ok a) = ok a
of_password (err e) = err (password e)

-- The end of the branch for an information packet.
unfoldable pub greet : Session → DeviceInfo → Socket → Result Error (Session × Socket)
greet session info sock =
    if session.locked
    then ok (record session { info = some info; awaiting_password_reply = true }, sock)
    else do
      sock' ← of_transport (send_all (u32 ping) sock)
      ok (record session { info = some info; authenticated = true }, sock')

-- The branch for a password challenge; `if not password` holds for None and for an empty text.
unfoldable pub challenge : Session → ℕ → Option (List ℕ) → Socket → Result Error (Session × Socket)
challenge session header none sock = err no_password
challenge session header (some []) sock = err no_password
challenge session header (some (c ∷ text)) sock = do
  let key = header % 2 ^ 8
  encoded ← of_password (encode_password (c ∷ text) key)
  sock' ← of_transport (send_all (password_packet encoded) sock)
  ok (record session { key = key; locked = true }, sock')

-- `handle_header`; `read_body` and `send` are those of the loop, over the socket.
unfoldable pub handle_header :
    Session → ℕ → Option (List ℕ) → Socket → Result Error (Session × Socket)
unfolding greet challenge
handle_header session header secret sock =
    if header == 0
    then ok (session, sock)
    else if header == ping
    then ok (record session { missed_pings = 0 }, sock)
    else if ltb header max_packet_size
    then (if ltb header min_packet_size then err (too_small header) else do
      (body, sock') ← of_transport (recv_exact header sock)
      info ← of_wire (parse_info_packet body)
      greet session info sock')
    else challenge session header secret sock

unfoldable pub handle_password_reply : Session → List ℕ → Socket → Result Error (Session × Socket)
handle_password_reply session reply sock = if from_le reply == 0 then err rejected else do
  sock' ← of_transport (send_all (u32 ping) sock)
  ok (record session { awaiting_password_reply = false; authenticated = true }, sock')
