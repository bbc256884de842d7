-- ===== src/Ppp.antt =====
-- jornada/ppprecord.py: the decoder of the files in which pppd records a connection. Frames are
-- here, the file's records in `Ppp.Record`. Times are counted in tenths of a second, which the source
-- adds as floats.
pub mod Fcs
pub mod Stuffing
pub mod Record
pub mod Frames
pub mod Examples
use Prim.Native.Nat.{bit_xor}
use jornada_link.Common.{
  ℕ, zero, suc, ◌+◌, ◌-◌, ◌*◌, ◌/◌, ◌%◌, Bool, true, false, ◌&&◌, Option, none, some, List, [], ◌∷◌,
  length, take, ltb, ◌==◌, if◌then◌else◌,
}

abbrev pub flag : ℕ
flag = 0x7E

abbrev pub escape : ℕ
escape = 0x7D

abbrev pub good_fcs : ℕ
good_fcs = 0xF0B8

-- `(fcs >> 1) ^ 0x8408 if fcs & 1 else fcs >> 1`
abbrev pub fcs_bit : ℕ → ℕ
fcs_bit fcs = if fcs % 2 == 1 then bit_xor (fcs / 2) 0x8408 else fcs / 2

-- `for _ in range(n)` of `fcs16`
unfoldable pub fcs_bits : ℕ → ℕ → ℕ
fcs_bits zero fcs = fcs
fcs_bits (suc n) fcs = fcs_bits n (fcs_bit fcs)

-- the loop of `fcs16`, from a given value on
unfoldable pub fcs_from : ℕ → List ℕ → ℕ
fcs_from fcs [] = fcs
fcs_from fcs (byte ∷ data_) = fcs_from (fcs_bits 8 (bit_xor fcs byte)) data_

abbrev pub fcs16 : List ℕ → ℕ
fcs16 data_ = fcs_from 0xFFFF data_

-- the loop of `_unescape`, with its variable `escaped`
unfoldable pub unescape_from : Bool → List ℕ → List ℕ
unescape_from escaped [] = []
unescape_from true (byte ∷ chunk) = bit_xor byte 0x20 ∷ unescape_from false chunk
unescape_from false (byte ∷ chunk) =
    let after_escape = unescape_from true chunk in
    let after_byte = unescape_from false chunk in
    if byte == escape then after_escape else byte ∷ after_byte

abbrev pub unescape : List ℕ → List ℕ
unescape chunk = unescape_from false chunk

pub data Direction : Type 0 where
  sent : Direction
  rcvd : Direction

pub record Frame : Type 0 where
  pub direction : Direction
  pub timestamp : ℕ
  pub raw : List ℕ
  pub fcs_ok : Bool
  pub protocol : Option ℕ
  pub payload : List ℕ

-- `if content[:2] == b"\xff\x03": content = content[2:]`
abbrev pub strip_address : List ℕ → List ℕ
strip_address (a ∷ b ∷ content) = if (a == 0xFF) && (b == 0x03) then content else a ∷ b ∷ content
strip_address content = content

-- The protocol field, of one byte if that is odd, and what follows it; `(a << 8) | b` of bytes.
abbrev pub split_protocol : ℕ → List ℕ → Option ℕ × List ℕ
split_protocol a [] = if a % 2 == 1 then (some a, []) else (none, [])
split_protocol a (b ∷ rest) = if a % 2 == 1 then (some a, b ∷ rest) else (some (a * 256 + b), rest)

-- the end of `_parse_frame`, once the content is known
abbrev pub frame_of : Direction → ℕ → List ℕ → List ℕ → Option Frame
frame_of direction timestamp raw [] = none
frame_of direction timestamp raw (a ∷ content) = some (record {
  direction = direction;
  timestamp = timestamp;
  raw = raw;
  fcs_ok = fcs16 raw == good_fcs;
  protocol = (split_protocol a content).0;
  payload = (split_protocol a content).1;
})

-- `_parse_frame`
unfoldable pub parse_frame : Direction → ℕ → List ℕ → Option Frame
parse_frame direction timestamp body =
    let raw = unescape body in
    if ltb (length raw) 4
    then none
    else frame_of direction timestamp raw (strip_address (take (length raw - 2) raw))
