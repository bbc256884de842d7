-- ===== src/Ppp/Frames.antt =====
-- The frames of a recorded stream, however it is cut into records.
use jornada_link.Common.{
  ℕ, zero, suc, ◌+◌, ◌-◌, ◌*◌, ◌/◌, ◌%◌, ◌≤◌, ◌<◌, ◌≡◌, refl, sym, ap, ap₂, ◌∙◌, Bool, true, false,
  some, List, [], ◌∷◌, ◌++◌, append-nil, append_assoc, map, length, take, drop, All, length-append,
  take-length-append, drop-length-append, arith, ◌==◌, ==_iff, ltb, All-append,
}
use jornada_link.Common.Bits.{AreBytes, length-le_bytes, le_bytes-AreBytes, IsByte}
use jornada_link.Ppp.{
  Direction, sent, rcvd, Frame, flag, good_fcs, fcs16, unescape, parse_frame, frame_of,
  strip_address,
}
use jornada_link.Ppp.Fcs.{trailer, fcs16-append_trailer}
use jornada_link.Ppp.Stuffing.{Escapes, stuff, HasNoFlag, unescape-stuff, stuff-HasNoFlag}
use jornada_link.Ppp.Record.{
  Body, Capture, pending, set_pending, feed, flush, record_loop, parse_bodies, parse_record_file,
  start,
}

-- A packet of a protocol whose number is sent in two bytes.
pub record Packet : Type 0 where
  pub protocol_high : ℕ
  pub protocol_low : ℕ
  pub payload : List ℕ

abbrev pub content : Packet → List ℕ
content p = 0xFF ∷ 0x03 ∷ p.protocol_high ∷ p.protocol_low ∷ p.payload

abbrev pub raw : Packet → List ℕ
raw p = content p ++ trailer (content p)

-- The protocol's number has an even first byte, and all are bytes.
abbrev pub CanSend : Packet → Type 0
CanSend p =
    (p.protocol_high < 256)
    × (p.protocol_high % 2 ≡ 0)
    × (p.protocol_low < 256)
    × AreBytes p.payload

-- The frame that shows a packet, at the start of the recording.
abbrev pub shown : Direction → Packet → Frame
shown d p = record {
  direction = d;
  timestamp = 0;
  raw = raw p;
  fcs_ok = true;
  protocol = some (p.protocol_high * 256 + p.protocol_low);
  payload = p.payload;
}

-- A sender's stream: every packet with a flag behind it.
unfoldable pub stream : Escapes → List Packet → List ℕ
stream e [] = []
stream e (p ∷ packets) = stuff e.must (raw p) ++ (flag ∷ stream e packets)

abbrev pub record_type : Direction → ℕ
record_type sent = 1
record_type rcvd = 2

-- The records of a stream that is cut into chunks.
unfoldable pub records : Direction → List (List ℕ) → List ℕ
records d [] = []
records d (chunk ∷ chunks) =
    record_type d ∷ (length chunk / 256) ∷ (length chunk % 256) ∷ (chunk ++ records d chunks)

unfoldable pub join : List (List ℕ) → List ℕ
join [] = []
join (chunk ∷ chunks) = chunk ++ join chunks

feed-append :
    (d : Direction) (xs ys : List ℕ) (c : Capture) → feed d (xs ++ ys) c ≡ feed d ys (feed d xs c)
unfolding feed
feed-append d [] ys c = refl
feed-append d (x ∷ xs) ys c = feed-append d xs ys _

behind :
    (d : Direction) (fuel n : ℕ) (chunk rest : List ℕ) (c : Capture)
    → n ≡ length chunk
    → record_loop fuel (drop n (chunk ++ rest)) (feed d (take n (chunk ++ rest)) c)
      ≡ record_loop fuel rest (feed d chunk c)
behind d fuel n chunk rest c e =
    rw (e, take-length-append chunk rest, drop-length-append chunk rest) refl

record_turn :
    (d : Direction) (fuel : ℕ) (high low : ℕ) (chunk rest : List ℕ) (c : Capture)
    → high * 256 + low ≡ length chunk
    → record_loop (suc fuel) (record_type d ∷ high ∷ low ∷ (chunk ++ rest)) c
      ≡ record_loop fuel rest (feed d chunk c)
unfolding record_loop
record_turn sent fuel high low chunk rest c e = behind sent fuel _ chunk rest c e
record_turn rcvd fuel high low chunk rest c e = behind rcvd fuel _ chunk rest c e

-- The loop over such records is one pass over the whole stream.
record_loop-records :
    (d : Direction) (chunks : List (List ℕ)) (fuel : ℕ) (c : Capture)
    → length (records d chunks) ≤ fuel
    → record_loop fuel (records d chunks) c ≡ feed d (join chunks) c
unfolding records join record_loop feed
record_loop-records d [] zero c h = refl
record_loop-records d [] (suc fuel) c h = refl
record_loop-records d (chunk ∷ chunks) zero c h = absurd (omega arith)
record_loop-records d (chunk ∷ chunks) (suc fuel) c h =
    record_turn d fuel _ _ chunk (records d chunks) c (omega arith)
    ∙ record_loop-records d chunks fuel (feed d chunk c)
        (omega (arith, length-append chunk (records d chunks)))
    ∙ sym (feed-append d chunk (join chunks) c)

feed-bytes :
    (d : Direction) (xs : List ℕ) (c : Capture)
    → HasNoFlag xs
    → feed d xs c ≡ set_pending d (pending d c ++ xs) c
unfolding feed
feed-bytes sent [] c h = rw (append-nil c.sent_pending) refl
feed-bytes rcvd [] c h = rw (append-nil c.rcvd_pending) refl
feed-bytes sent (x ∷ xs) c h = rw h.0 (
    feed-bytes sent xs _ h.1
    ∙ ap (λ p. set_pending sent p c) (append_assoc c.sent_pending (x ∷ []) xs))
feed-bytes rcvd (x ∷ xs) c h = rw h.0 (
    feed-bytes rcvd xs _ h.1
    ∙ ap (λ p. set_pending rcvd p c) (append_assoc c.rcvd_pending (x ∷ []) xs))

-- The body that a packet's escaped bytes leave in `frames`.
abbrev body : Direction → ℕ → Escapes → Packet → Body
body d now e p = record { direction = d; timestamp = now; bytes = stuff e.must (raw p) }

content-AreBytes : (p : Packet) → CanSend p → AreBytes (content p)
content-AreBytes p (high, even, low, bytes) = (omega arith, (omega arith, (high, (low, bytes))))

ltb-apart : (a b : ℕ) → b ≤ a → ltb a b ≡ false
ltb-apart a b h = ground arith

raw-AreBytes : (p : Packet) → CanSend p → AreBytes (raw p)
raw-AreBytes p h =
    All-append IsByte (content p) (trailer (content p)) (content-AreBytes p h)
      (le_bytes-AreBytes 2 _)

parse_raw :
    (d : Direction) (now : ℕ) (bytes r c : List ℕ)
    → unescape bytes ≡ r
    → 4 ≤ length r
    → take (length r - 2) r ≡ c
    → parse_frame d now bytes ≡ frame_of d now r (strip_address c)
unfolding parse_frame
parse_raw d now bytes r c er hl ec = rw (er, ec, ltb-apart (length r) 4 hl) refl

take-raw : (p : Packet) → take (length (raw p) - 2) (raw p) ≡ content p
take-raw p =
    ap (λ n. take n (raw p))
      (let e : length (raw p) - 2 ≡ length (content p) = omega (
        arith,
        length-append (content p) (trailer (content p)),
        length-le_bytes 2 (0xFFFF - fcs16 (content p)),
      ) in
        e)
    ∙ take-length-append (content p) (trailer (content p))

frame_of-raw :
    (d : Direction) (p : Packet)
    → CanSend p
    → frame_of d 0 (raw p) (strip_address (content p)) ≡ some (shown d p)
frame_of-raw d p h = rw (
  (let e : (p.protocol_high % 2 == 1) ≡ false = ground arith in e),
  (let e : (fcs16 (raw p) == good_fcs) ≡ true =
        (==_iff _ _).1 (fcs16-append_trailer (content p) (content-AreBytes p h)) in
      e),
)

parse-body :
    (d : Direction) (e : Escapes) (p : Packet)
    → CanSend p
    → parse_frame d 0 (stuff e.must (raw p)) ≡ some (shown d p)
parse-body d e p h =
    parse_raw d 0 (stuff e.must (raw p)) (raw p) (content p)
      (unescape-stuff e (raw p) (raw-AreBytes p h)) (omega arith) (take-raw p)
    ∙ frame_of-raw d p h

stuff-longer : (must : ℕ → Bool) (b : ℕ) (bs : List ℕ) → 1 ≤ length (stuff must (b ∷ bs))
unfolding stuff
stuff-longer must b bs = ground arith

flush-bytes :
    (d : Direction) (xs : List ℕ) (c : Capture)
    → 1 ≤ length xs
    → pending d c ≡ []
    → flush d (set_pending d (pending d c ++ xs) c)
      ≡ set_pending d [] (record c {
        frames = c.frames ++ (record { direction = d; timestamp = c.now; bytes = xs } ∷ []);
      })
flush-bytes d [] c h e = absurd (omega arith)
flush-bytes sent (x ∷ xs) c h e = rw e refl
flush-bytes rcvd (x ∷ xs) c h e = rw e refl

pending-cleared : (d : Direction) (c : Capture) → pending d (set_pending d [] c) ≡ []
pending-cleared sent c = refl
pending-cleared rcvd c = refl

frames-cleared : (d : Direction) (c : Capture) → (set_pending d [] c).frames ≡ c.frames
frames-cleared sent c = refl
frames-cleared rcvd c = refl

now-cleared : (d : Direction) (c : Capture) → (set_pending d [] c).now ≡ c.now
now-cleared sent c = refl
now-cleared rcvd c = refl

feed-flag :
    (d : Direction) (xs rest : List ℕ) (c : Capture)
    → HasNoFlag xs
    → feed d (xs ++ (flag ∷ rest)) c ≡ feed d rest (flush d (set_pending d (pending d c ++ xs) c))
unfolding feed
feed-flag d xs rest c h =
    feed-append d xs (flag ∷ rest) c ∙ ap (λ x. feed d rest (flush d x)) (feed-bytes d xs c h)

-- Each packet of a stream leaves its body in `frames`.
feed-stream :
    (d : Direction) (e : Escapes) (packets : List Packet) (c : Capture)
    → All CanSend packets
    → pending d c ≡ []
    → (feed d (stream e packets) c).frames ≡ c.frames ++ map (body d c.now e) packets
unfolding stream feed
feed-stream d e [] c h clear = sym (append-nil c.frames)
feed-stream d e (p ∷ packets) c h clear =
    let xs = stuff e.must (raw p) in
    let c' = record c { frames = c.frames ++ (body d c.now e p ∷ []) } in
    ap (λ x. x.frames)
      (feed-flag d xs (stream e packets) c (stuff-HasNoFlag e (raw p) (raw-AreBytes p h.0)))
    ∙ ap (λ x. (feed d (stream e packets) x).frames)
        (flush-bytes d xs c (stuff-longer e.must 0xFF _) clear)
    ∙ feed-stream d e packets (set_pending d [] c') h.1 (pending-cleared d c')
    ∙ ap₂ (λ x n. x ++ map (body d n e) packets) (frames-cleared d c') (now-cleared d c')
    ∙ append_assoc c.frames (body d c.now e p ∷ []) (map (body d c.now e) packets)

parse_bodies-stream :
    (d : Direction) (e : Escapes) (packets : List Packet)
    → All CanSend packets
    → parse_bodies (map (body d 0 e) packets) ≡ map (shown d) packets
unfolding parse_bodies
parse_bodies-stream d e [] h = refl
parse_bodies-stream d e (p ∷ packets) h =
    rw (parse_bodies, parse-body d e p h.0)
      (ap (◌∷◌ (shown d p)) (parse_bodies-stream d e packets h.1))

pending-start : (d : Direction) → pending d start ≡ []
pending-start sent = refl
pending-start rcvd = refl

-- The decoder shows exactly the packets that one side sent, each with its protocol, its payload and
-- a good checksum, whatever map of escapes the sender uses and however pppd cuts the stream into
-- records. The packets' protocols are sent in two bytes.
pub parse_record_file-records :
    (d : Direction) (e : Escapes) (packets : List Packet) (chunks : List (List ℕ))
    → All CanSend packets
    → join chunks ≡ stream e packets
    → parse_record_file (records d chunks) ≡ map (shown d) packets
unfolding parse_record_file
parse_record_file-records d e packets chunks h cut =
    ap (λ c. parse_bodies c.frames)
      (record_loop-records d chunks (length (records d chunks)) start (omega arith))
    ∙ ap (λ bytes. parse_bodies (feed d bytes start).frames) cut
    ∙ ap parse_bodies (feed-stream d e packets start h (pending-start d))
    ∙ parse_bodies-stream d e packets h
