-- ===== src/Ppp/Record.antt =====
-- `parse_record_file` of jornada/ppprecord.py.
use jornada_link.Common.{
  ℕ, zero, suc, ◌+◌, ◌*◌, none, some, List, [], ◌∷◌, ◌++◌, length, take, drop, ◌==◌, if◌then◌else◌,
}
use jornada_link.Ppp.{Direction, sent, rcvd, Frame, flag, parse_frame}

-- `int.from_bytes(…, "big")`, continued from a value
unfoldable pub from_be : ℕ → List ℕ → ℕ
from_be value [] = value
from_be value (b ∷ bs) = from_be (value * 256 + b) bs

pub record Body : Type 0 where
  pub direction : Direction
  pub timestamp : ℕ
  pub bytes : List ℕ

-- The variables of `parse_record_file`: `now` in tenths of a second, `pending` of both states, and
-- `frames`.
pub record Capture : Type 0 where
  pub now : ℕ
  pub sent_pending : List ℕ
  pub rcvd_pending : List ℕ
  pub frames : List Body

abbrev pub start : Capture
start = record { now = 0; sent_pending = []; rcvd_pending = []; frames = [] }

abbrev pub pending : Direction → Capture → List ℕ
pending sent c = c.sent_pending
pending rcvd c = c.rcvd_pending

abbrev pub set_pending : Direction → List ℕ → Capture → Capture
set_pending sent bytes c = record c { sent_pending = bytes }
set_pending rcvd bytes c = record c { rcvd_pending = bytes }

-- `if state.pending: frames.append(…); state.pending.clear()`
abbrev pub flush : Direction → Capture → Capture
flush d c = elim (pending d c) [
  | [] ↦ c
  | b ∷ bs ↦ set_pending d [] (record c {
    frames = c.frames ++ (record { direction = d; timestamp = c.now; bytes = b ∷ bs } ∷ []);
  })
]

-- `for byte in take(length): …`
unfoldable pub feed : Direction → List ℕ → Capture → Capture
feed d [] c = c
feed d (byte ∷ bytes) c =
    feed d bytes (if byte == flag then flush d c else set_pending d (pending d c ++ (byte ∷ [])) c)

-- What one turn of the loop comes to: the loop is left, or goes on behind the record.
pub data Turn : Type 0 where
  stop : Turn
  more : List ℕ → Capture → Turn

abbrev data_record : Direction → List ℕ → Capture → Turn
data_record d (high ∷ low ∷ rest) c =
    more (drop (high * 256 + low) rest) (feed d (take (high * 256 + low) rest) c)
data_record d rest c = stop

-- `step = take(1)`
abbrev short_step : List ℕ → Capture → Turn
short_step [] c = more [] c
short_step (step ∷ rest) c = more rest (record c { now = c.now + step })

-- one turn, for a record's type and what stands behind it
abbrev pub read_record : ℕ → List ℕ → Capture → Turn
read_record rtype rest c =
    if rtype == 1
    then data_record sent rest c
    else if rtype == 2
    then data_record rcvd rest c
    else if rtype == 3
    then more rest (flush sent c)
    else if rtype == 4
    then more rest (flush rcvd c)
    else if rtype == 5
    then more (drop 4 rest) (record c { now = c.now + from_be 0 (take 4 rest) })
    else if rtype == 6
    then short_step rest c
    else if rtype == 7
    then more (drop 4 rest) (record c { now = 10 * from_be 0 (take 4 rest) })
    else stop

-- `while pos < len(data)`: a turn takes a byte at least.
unfoldable pub record_loop : ℕ → List ℕ → Capture → Capture
record_loop fuel [] c = c
record_loop zero (rtype ∷ rest) c = c
record_loop (suc fuel) (rtype ∷ rest) c = elim (read_record rtype rest c) [
  | stop ↦ c
  | more rest' c' ↦ record_loop fuel rest' c'
]

unfoldable pub parse_bodies : List Body → List Frame
parse_bodies [] = []
parse_bodies (body ∷ bodies) = elim (parse_frame body.direction body.timestamp body.bytes) [
  | none ↦ parse_bodies bodies
  | some frame ↦ frame ∷ parse_bodies bodies
]

-- `parse_record_file`: the frames that it yields.
unfoldable pub parse_record_file : List ℕ → List Frame
unfolding record_loop parse_bodies
parse_record_file data_ = parse_bodies (record_loop (length data_) data_ start).frames
