-- ===== src/Dccm/Loop.antt =====
-- `_client_loop`, `_announce`, `_peer_allowed` and `_serve_client` of jornada/dccm.py.
use jornada_link.Common.{
  ℕ, ◌+◌, Bool, true, false, not, ◌&&◌, Option, none, some, String, List, [], ◌∷◌, ◌++◌, leb,
  if◌then◌else◌, str_eq,
}
use jornada_link.Common.Result.{Result, ok, err, ◌>>=◌}
use jornada_link.Wire.Encode.{u32}
use jornada_link.Transport.{Socket, send_all, recv_exact, recv_u32}
use jornada_link.Dccm.{
  Error, Session, fresh, ping, of_transport, handle_header, handle_password_reply,
}

-- DCCM_MAX_MISSED_PINGS
abbrev pub max_missed_pings : ℕ
max_missed_pings = 5

-- What one round of the loop meets: bytes to read before the next ping is due, the ping, or that
-- `close` has been called. The clock and `select` decide.
pub data Tick : Type 0 where
  ready ping_due stop : Tick

-- The session, the socket, and each session that `_announce` wrote to the state file and handed to
-- `on_connect`.
pub record Conn : Type 0 where
  pub session : Session
  pub sock : Socket
  pub announced : List Session

-- How the loop stands: over, ended by an exception, or waiting for the next round.
pub data End : Type 0 where
  over running : End
  failed : Error → End

abbrev pub is_newly_authenticated : Session → Session → Bool
is_newly_authenticated before after = after.authenticated && not before.authenticated

-- The handler that a round calls when there is something to read.
unfoldable pub handle_ready : Option (List ℕ) → Session → Socket → Result Error (Session × Socket)
handle_ready secret session sock =
    if session.awaiting_password_reply
    then (do
      (reply, sock') ← of_transport (recv_exact 2 sock)
      handle_password_reply session reply sock')
    else do
      (header, sock') ← of_transport (recv_u32 sock)
      handle_header session header secret sock'

-- A round that reads.
unfoldable pub read_round : Option (List ℕ) → Conn → Result Error Conn
read_round secret c = do
  (session, sock) ← handle_ready secret c.session c.sock
  ok (record {
    session = session;
    sock = sock;
    announced =
        if is_newly_authenticated c.session session
        then c.announced ++ (session ∷ [])
        else c.announced;
  })

-- A round in which the ping is due.
unfoldable pub ping_round : Conn → Result Error Conn
ping_round c = do
  sock ← of_transport (send_all (u32 ping) c.sock)
  ok (record c {
    session = record c.session { missed_pings = c.session.missed_pings + 1 };
    sock = sock;
  })

abbrev pub round : Option (List ℕ) → Tick → Conn → Result Error Conn
round secret ready c = read_round secret c
round secret ping_due c = ping_round c
round secret stop c = ok c

abbrev pub is_stop : Tick → Bool
is_stop stop = true
is_stop _ = false

-- `_client_loop` over the rounds to come.
unfoldable pub client_loop : Option (List ℕ) → List Tick → Conn → End × Conn
client_loop secret [] c =
    if leb max_missed_pings c.session.missed_pings then (over, c) else (running, c)
client_loop secret (tick ∷ ticks) c =
    let next : End × Conn = elim (round secret tick c) [
      | err e ↦ (failed e, c)
      | ok c' ↦ client_loop secret ticks c'
    ] in
    if leb max_missed_pings c.session.missed_pings
    then (over, c)
    else if is_stop tick
    then (over, c)
    else next

-- `_peer_allowed`
abbrev pub peer_allowed : Option String → String → Bool
peer_allowed none ip = true
peer_allowed (some peer) ip = str_eq ip peer

-- `_serve_client` returns the session of the loop, or the session that it began with if the loop
-- raised. While the loop is running there is no result.
abbrev pub served : Session → End × Conn → Option Session
served begun (over, c) = some c.session
served begun (failed e, c) = some begun
served begun (running, c) = none

abbrev pub connected : String → Socket → Conn
connected ip sock = record { session = fresh ip; sock = sock; announced = [] }

unfoldable pub serve_client :
    Option (List ℕ) → String → Socket → List Tick → Option Session × List Session
unfolding client_loop
serve_client secret ip sock ticks =
    let done = client_loop secret ticks (connected ip sock) in
    (served (fresh ip) done, done.1.announced)

-- A connection that `accept` has handed out: a peer that is not allowed is closed unread.
unfoldable pub accept_client :
    Option String → Option (List ℕ) → String → Socket → List Tick → Option Session × List Session
unfolding serve_client
accept_client allowed_peer secret ip sock ticks =
    if peer_allowed allowed_peer ip then serve_client secret ip sock ticks else (none, [])
