-- ===== src/Dccm/Challenge.antt =====
-- What a locked device gets, and what a silent one does.
use jornada_link.Common.{
  ℕ, zero, suc, ◌+◌, ◌%◌, ◌^◌, ◌<◌, ◌≤◌, ◌≡◌, ◌≢◌, true, false, Option, some, String, List, [], ◌∷◌,
  ◌++◌, arith, ltb, leb, ◌==◌,
}
use jornada_link.Common.Result.{ok}
use jornada_link.Wire.Utf16.{IsText, decode_utf16, before_nul}
use jornada_link.Wire.Encode.{u32}
use jornada_link.Wire.RoundTrip.{NoNul}
use jornada_link.Transport.{Socket, Event, send_all}
use jornada_link.Transport.Exact.{stream}
use jornada_link.Password.{mask, password_packet}
use jornada_link.Password.Mask.{decode-encode_password}
use jornada_link.Dccm.{Session, fresh, ping, handle_header}
use jornada_link.Dccm.Loop.{
  Tick, ping_due, over, running, Conn, connected, handle_ready, read_round, ping_round, client_loop,
}
use jornada_link.Dccm.Handshake.{recv_u32-append}

-- The session of a device that has asked for the password.
abbrev pub challenged : String → ℕ → Session
challenged ip key = record (fresh ip) { key = key; locked = true }

module _ (ip : String) (c : ℕ) (text rest sent : List ℕ) (events : List Event) (header : ℕ) where
  -- A device that challenges with a header that is neither a packet's length nor the ping is sent the
  -- encoded password in one round, and the session is locked with the header's low byte as its key.
  -- What is sent, masked with that key and decoded, is the password. It must not be empty.
  pub read_round-challenge :
      512 ≤ header
      → header < 2 ^ 32
      → header ≢ ping
      → IsText (c ∷ text)
      → NoNul (c ∷ text)
      → stream events ≡ u32 header ++ rest
      → (encoded : List ℕ) × (events' : List Event) × (read_round
            (some (c ∷ text))
            (connected ip (record { events = events; sent = sent; send_faults = [] }))
          ≡ ok (record {
            session = challenged ip (header % 2 ^ 8);
            sock = record {
              events = events';
              sent = sent ++ password_packet encoded;
              send_faults = [];
            };
            announced = [];
          }))
        × (before_nul (decode_utf16 (mask (header % 2 ^ 8) encoded)) ≡ c ∷ text)
        × (stream events' ≡ rest)
  unfolding read_round handle_ready handle_header send_all
  read_round-challenge big small other valid no_nul e =
      let sock : Socket = record { events = events; sent = sent; send_faults = [] } in
      let (events', got, after) = recv_u32-append header sock rest small e in
      let (encoded, done, _, back) =
        decode-encode_password (c ∷ text) (header % 2 ^ 8) (omega arith) valid no_nul in
      let not_zero : (header == 0) ≡ false = ground arith in
      let not_ping : (header == ping) ≡ false = ground arith in
      let not_packet : ltb header 512 ≡ false = ground arith in
      (encoded, events', rw (got, not_zero, not_ping, not_packet, done), back, after)

abbrev pub pings : ℕ → List Tick
pings zero = []
pings (suc n) = ping_due ∷ pings n

-- A connection after `n` pings more that nothing has answered.
abbrev pub pinged : ℕ → Conn → Conn
pinged zero c = c
pinged (suc n) c = pinged n (record c {
  session = record c.session { missed_pings = c.session.missed_pings + 1 };
  sock = record c.sock { sent = c.sock.sent ++ u32 ping };
})

abbrev next_ping : Conn → Conn
next_ping c = pinged 1 c

ping_round_lem : (c : Conn) → c.sock.send_faults ≡ [] → ping_round c ≡ ok (next_ping c)
unfolding ping_round send_all
ping_round_lem c works = ground arith

-- While sending works, the loop gives a device up once five of its pings in a row are unanswered: it
-- has then sent one ping for each that was missing, and nothing else has changed.
pub client_loop-pings :
    (secret : Option (List ℕ)) (n : ℕ) (c : Conn) (ticks : List Tick)
    → c.sock.send_faults ≡ []
    → c.session.missed_pings + n ≡ 5
    → client_loop secret (pings n ++ ticks) c ≡ (over, pinged n c)
unfolding client_loop
client_loop-pings secret zero c [] works sum = ground arith
client_loop-pings secret zero c (tick ∷ ticks) works sum = ground arith
client_loop-pings secret (suc n) c ticks works sum =
    let more : leb 5 c.session.missed_pings ≡ false = ground arith in
    rw (more, ping_round_lem c works)
      (client_loop-pings secret n (next_ping c) ticks works (omega arith))

-- With fewer unanswered pings the loop is still running.
pub client_loop-few_pings :
    (secret : Option (List ℕ)) (n : ℕ) (c : Conn)
    → c.sock.send_faults ≡ []
    → c.session.missed_pings + n < 5
    → client_loop secret (pings n) c ≡ (running, pinged n c)
unfolding client_loop
client_loop-few_pings secret zero c works less = ground arith
client_loop-few_pings secret (suc n) c works less =
    let more : leb 5 c.session.missed_pings ≡ false = ground arith in
    rw (more, ping_round_lem c works)
      (client_loop-few_pings secret n (next_ping c) works (omega arith))
