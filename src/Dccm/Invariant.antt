-- ===== src/Dccm/Invariant.antt =====
-- What holds of a connection at every moment.
use jornada_link.Common.{
  ℕ, ◌<◌, ◌≤◌, ◌≡◌, ◌≢◌, true, Option, none, some, String, List, [], ◌∷◌, ◌++◌, length,
  length-append, All, All-append, Bool-cases, inl, inr, arith, if◌then◌else◌,
}
use jornada_link.Common.Result.{ok, Result-cases}
use jornada_link.Transport.{Socket, recv_exact, recv_u32}
use jornada_link.Dccm.{Session, handle_header, handle_password_reply}
use jornada_link.Dccm.Loop.{
  Tick, ready, ping_due, stop, is_newly_authenticated, Conn, handle_ready, read_round, ping_round,
  round, client_loop, connected,
}

-- An authenticated device has told who it is, and a device whose password reply is awaited has too and
-- is locked. The key is a byte.
pub record IsValidSession (s : Session) : Type 0 where
  pub known : s.authenticated ≡ true → s.info ≢ none
  pub awaited : s.awaiting_password_reply ≡ true → (s.info ≢ none) × (s.locked ≡ true)
  pub key : s.key < 256

-- What a handler keeps: the invariant, that a device is authenticated, and that no ping is missed more.
record Keeps (s t : Session) : Type 0 where
  valid : IsValidSession s → IsValidSession t
  authenticated : s.authenticated ≡ true → t.authenticated ≡ true
  missed : t.missed_pings ≤ s.missed_pings

module _ (s t : Session) (sock sock' : Socket) where
  handle_header-Keeps :
      (header : ℕ) (secret : Option (List ℕ))
      → handle_header s header secret sock ≡ ok (t, sock')
      → Keeps s t
  unfolding handle_header
  handle_header-Keeps header none h = ground arith
  handle_header-Keeps header (some []) h = ground arith
  handle_header-Keeps header (some (c ∷ text)) h = ground arith

  handle_password_reply-Keeps :
      (reply : List ℕ)
      → s.awaiting_password_reply ≡ true
      → handle_password_reply s reply sock ≡ ok (t, sock')
      → Keeps s t
  unfolding handle_password_reply
  handle_password_reply-Keeps reply awaiting h = ground arith

handle_ready-Keeps :
    (s t : Session) (sock sock' : Socket) (secret : Option (List ℕ))
    → handle_ready secret s sock ≡ ok (t, sock')
    → Keeps s t
unfolding handle_ready
handle_ready-Keeps s t sock sock' secret h = elim (Bool-cases s.awaiting_password_reply) [
  | inl e ↦ elim (Result-cases (recv_exact 2 sock)) [
    | inl ((reply, rest), got) ↦ handle_password_reply-Keeps s t rest sock' reply e (ground arith)
    | inr (_, got) ↦ ground arith
  ]
  | inr e ↦ elim (Result-cases (recv_u32 sock)) [
    | inl ((header, rest), got) ↦ handle_header-Keeps s t rest sock' header secret (ground arith)
    | inr (_, got) ↦ ground arith
  ]
]

-- A connection announces its device when the device becomes authenticated, and never again; what it
-- announces is an authenticated device that has told who it is. It misses at most five pings.
pub record IsValidConn (c : Conn) : Type 0 where
  pub session : IsValidSession c.session
  pub missed : c.session.missed_pings ≤ 5
  pub once : length c.announced ≡ (if c.session.authenticated then 1 else 0)
  pub announced : All (λ s. (s.authenticated ≡ true) × (s.info ≢ none)) c.announced

abbrev announce : Conn → Session → List Session
announce c t = if is_newly_authenticated c.session t then c.announced ++ (t ∷ []) else c.announced

abbrev IsKnown : Session → Type 0
IsKnown s = (s.authenticated ≡ true) × (s.info ≢ none)

announce-All :
    (c : Conn) (t : Session) → IsValidConn c → IsValidSession t → All IsKnown (announce c t)
announce-All c t v w = elim (Bool-cases (is_newly_authenticated c.session t)) [
  | inl e ↦
      let on : t.authenticated ≡ true = ground arith in
      rw e (All-append IsKnown c.announced (t ∷ []) v.announced ((on, w.known on), tt))
  | inr e ↦ rw e v.announced
]

announce-IsValidConn :
    (c : Conn) (t : Session) (sock : Socket) {c' : Conn}
    → IsValidConn c
    → Keeps c.session t
    → c' ≡ record { session = t; sock = sock; announced = announce c t }
    → IsValidConn c'
announce-IsValidConn c t sock v k e = rw e (record {
  session = k.valid v.session;
  missed = omega arith;
  once = ground (arith, length-append c.announced (t ∷ []));
  announced = announce-All c t v (k.valid v.session);
})

read_round-IsValidConn :
    (secret : Option (List ℕ)) (c c' : Conn)
    → IsValidConn c
    → read_round secret c ≡ ok c'
    → IsValidConn c'
unfolding read_round
read_round-IsValidConn secret c c' v h =
    elim (Result-cases (handle_ready secret c.session c.sock)) [
      | inl ((t, sock'), got) ↦
          announce-IsValidConn c t sock' v (handle_ready-Keeps c.session t c.sock sock' secret got)
            (ground arith)
      | inr (_, got) ↦ ground arith
    ]

ping_round-IsValidConn :
    (c c' : Conn)
    → c.session.missed_pings < 5
    → IsValidConn c
    → ping_round c ≡ ok c'
    → IsValidConn c'
unfolding ping_round
ping_round-IsValidConn c c' less v h = ground arith

round-IsValidConn :
    (secret : Option (List ℕ)) (tick : Tick) (c c' : Conn)
    → c.session.missed_pings < 5
    → IsValidConn c
    → round secret tick c ≡ ok c'
    → IsValidConn c'
round-IsValidConn secret ready c c' less v h = read_round-IsValidConn secret c c' v h
round-IsValidConn secret ping_due c c' less v h = ping_round-IsValidConn c c' less v h
round-IsValidConn secret stop c c' less v h = ground arith

client_loop-IsValidConn :
    (secret : Option (List ℕ)) (ticks : List Tick) (c : Conn)
    → IsValidConn c
    → IsValidConn (client_loop secret ticks c).1
unfolding client_loop
client_loop-IsValidConn secret [] c v = ground arith
client_loop-IsValidConn secret (tick ∷ ticks) c v = elim (Result-cases (round secret tick c)) [
  | inl (c', got) ↦
      ground (arith, client_loop-IsValidConn secret ticks c', round-IsValidConn secret tick c c')
  | inr (_, got) ↦ ground arith
]

connected-IsValidConn : (ip : String) (sock : Socket) → IsValidConn (connected ip sock)
connected-IsValidConn ip sock = ground arith

-- However a connection goes, from its start and at every moment: a device is announced exactly once
-- if it is authenticated and never otherwise, only with its information packet read, a password reply
-- is awaited only from a locked device, the key is a byte, and at most five pings are missed.
pub client_loop-connected :
    (secret : Option (List ℕ)) (ip : String) (sock : Socket) (ticks : List Tick)
    → IsValidConn (client_loop secret ticks (connected ip sock)).1
client_loop-connected secret ip sock ticks =
    client_loop-IsValidConn secret ticks (connected ip sock) (connected-IsValidConn ip sock)
