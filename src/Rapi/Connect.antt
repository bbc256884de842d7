-- ===== src/Rapi/Connect.antt =====
-- The connection of the client, in jornada/rapi.py.
use jornada_link.Common.{ℕ, Bool, Option, none, some, List, [], ◌∷◌, if◌then◌else◌}
use jornada_link.Common.Result.{Result, ok, err}
use jornada_link.Transport.{TransportError, Socket, send_all}
use jornada_link.Password.{
  PasswordError, encode_password, password_packet, ReplyError, bad_size, transport,
  recv_password_reply,
}
use jornada_link.Rapi.{Call, password_rejected, bad_value}

-- The end of the exchange: a socket whose device rejects the password is closed, and the client stays
-- as it was.
unfoldable pub settle_password : Result ReplyError (Bool × Socket) → Call (Unit {0})
settle_password (err bad_size) c = ok (err bad_value, c)
settle_password (err (transport e)) c = err e
settle_password (ok (accepted, sock)) c =
    if accepted then ok (ok tt, some sock) else ok (err password_rejected, c)

abbrev pub await_reply : Result TransportError Socket → Call (Unit {0})
await_reply (err e) c = err e
await_reply (ok sock) c = settle_password (recv_password_reply 1 sock) c

-- `send_password` and the reply to it
abbrev pub send_password : Result PasswordError (List ℕ) → Socket → Call (Unit {0})
send_password (err e) sock c = ok (err bad_value, c)
send_password (ok encoded) sock c = await_reply (send_all (password_packet encoded) sock) c

-- `connect`, with the socket that `create_connection` gives
unfoldable pub connect : Socket → Option (List ℕ) → ℕ → Call (Unit {0})
unfolding settle_password
connect sock none key c = ok (ok tt, some sock)
connect sock (some []) key c = ok (ok tt, some sock)
connect sock (some (x ∷ password)) key c = send_password (encode_password (x ∷ password) key) sock c

-- `__enter__`
unfoldable pub enter : Socket → Call (Unit {0})
unfolding connect
enter sock none = connect sock none 0 none
enter sock (some open_) = ok (ok tt, some open_)
