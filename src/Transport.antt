-- ===== src/Transport.antt =====
-- jornada/transport.py over a socket, which is what the peer and the system will do with it.
pub mod Exact
mod Examples
use jornada_link.Common.{
  ℕ, zero, suc, ◌-◌, Bool, true, false, Option, none, some, List, [], ◌∷◌, ◌++◌, take, drop, length,
  ltb, leb, ◌==◌, if◌then◌else◌,
}
use jornada_link.Common.Bits.{from_le}
use jornada_link.Common.Result.{Result, ok, err, ◌>>=◌}
use jornada_link.Wire.Encode.{u32, frame}

pub data TransportError : Type 0 where
  -- with the bytes that are missing
  timed_out closed : ℕ → TransportError
  send_failed : TransportError
  too_large : ℕ → TransportError

-- What a call of `recv` meets next: bytes that have arrived, or a timeout. After the last event the
-- connection is closed.
pub data Event : Type 0 where
  arrived : List ℕ → Event
  timeout : Event

-- `sent` holds what was sent; `send_faults` says of each later `sendall` whether it fails, and past
-- its end none does.
pub record Socket : Type 0 where
  pub events : List Event
  pub sent : List ℕ
  pub send_faults : List Bool

-- What `recv` comes to: bytes with the events after them, the empty read of a closed connection, or
-- the exception `socket.timeout`.
pub data Received : Type 0 where
  bytes : List ℕ → List Event → Received
  nothing late : Received

-- `sock.recv(n)`: at most `n` bytes of what has arrived, and the rest stays.
unfoldable pub recv : ℕ → List Event → Received
recv n [] = nothing
recv n (timeout ∷ events) = late
recv n (arrived [] ∷ events) = nothing
recv n (arrived (b ∷ chunk) ∷ events) =
    if leb (length (b ∷ chunk)) n
    then bytes (b ∷ chunk) events
    else bytes (take n (b ∷ chunk)) (arrived (drop n (b ∷ chunk)) ∷ events)

-- The loop of `recv_exact`, with the bytes still to come. Each round brings one byte at least, so
-- `remaining` rounds are enough; the clause without fuel is never reached.
unfoldable pub recv_loop : ℕ → ℕ → List Event → Result TransportError (List ℕ × List Event)
unfolding recv
recv_loop fuel zero events = ok ([], events)
recv_loop zero (suc r) events = err (closed (suc r))
recv_loop (suc fuel) (suc r) events = elim (recv (suc r) events) [
  | late ↦ err (timed_out (suc r))
  | nothing ↦ err (closed (suc r))
  | bytes chunk rest ↦ elim (recv_loop fuel (suc r - length chunk) rest) [
    | err e ↦ err e
    | ok (more, last) ↦ ok (chunk ++ more, last)
  ]
]

unfoldable pub recv_exact : ℕ → Socket → Result TransportError (List ℕ × Socket)
unfolding recv_loop
recv_exact size sock = do
  (got, events) ← recv_loop size size sock.events
  ok (got, record sock { events = events })

unfoldable pub send_all : List ℕ → Socket → Result TransportError Socket
send_all raw sock = elim sock.send_faults [
  | [] ↦ ok (record sock { sent = sock.sent ++ raw })
  | true ∷ faults ↦ err send_failed
  | false ∷ faults ↦ ok (record sock { sent = sock.sent ++ raw; send_faults = faults })
]

unfoldable pub send_frame : List ℕ → Socket → Result TransportError Socket
unfolding send_all frame
send_frame payload = send_all (frame payload)

unfoldable pub recv_u32 : Socket → Result TransportError (ℕ × Socket)
unfolding recv_exact
recv_u32 sock = do (raw, sock') ← recv_exact 4 sock; ok (from_le raw, sock')

unfoldable pub send_u32 : ℕ → Socket → Result TransportError Socket
unfolding send_all u32
send_u32 value = send_all (u32 value)

-- `max_size is not None and size > max_size`
abbrev pub exceeds : ℕ → Option ℕ → Bool
exceeds size none = false
exceeds size (some limit) = ltb limit size

unfoldable pub recv_frame : Option ℕ → Socket → Result TransportError (List ℕ × Socket)
unfolding recv_u32
recv_frame max_size sock = do
  (size, sock') ← recv_u32 sock
  if exceeds size max_size then err (too_large size) else recv_exact size sock'
