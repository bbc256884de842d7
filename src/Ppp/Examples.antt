-- ===== src/Ppp/Examples.antt =====
-- Tests of the decoder, and its theorems at concrete inputs.
use jornada_link.Common.{ℕ, ◌≡◌, refl, ◌||◌, List, [], ◌∷◌, map, take, drop, ◌==◌, arith}
use jornada_link.Ppp.{rcvd, flag, escape, fcs16, fcs_from, fcs_bits, unescape, unescape_from}
use jornada_link.Common.Bits.{le_bytes}
use jornada_link.Ppp.Stuffing.{Escapes, stuff, unescape-stuff}
use jornada_link.Ppp.Record.{parse_record_file}
use jornada_link.Ppp.Frames.{
  Packet, CanSend, join, shown, stream, records, parse_record_file-records,
}

-- The check value of this checksum over the digits 1 to 9, before its complement.
check_value : fcs16 (b'1' ∷ b'2' ∷ b'3' ∷ b'4' ∷ b'5' ∷ b'6' ∷ b'7' ∷ b'8' ∷ b'9' ∷ []) ≡ 0x6F91
unfolding fcs_from fcs_bits
check_value = refl

unescaped : unescape (1 ∷ 0x7D ∷ 0x5E ∷ 2 ∷ 0x7D ∷ []) ≡ 1 ∷ 0x7E ∷ 2 ∷ []
unfolding unescape_from
unescaped = refl

-- An LCP Configure-Request with an MRU of 1500.
abbrev request : Packet
request = record {
  protocol_high = 0xC0;
  protocol_low = 0x21;
  payload = 1 ∷ 1 ∷ 0 ∷ 8 ∷ 1 ∷ 4 ∷ 5 ∷ 0xDC ∷ [];
}

abbrev few : Escapes
few = record {
  must = λ b. b == flag || b == escape;
  must_flag = refl;
  must_escape = refl;
  never = refl;
}

unescape-stuff_example : unescape (stuff few.must (0x7E ∷ 0x7D ∷ 3 ∷ [])) ≡ 0x7E ∷ 0x7D ∷ 3 ∷ []
unescape-stuff_example = unescape-stuff few (0x7E ∷ 0x7D ∷ 3 ∷ []) (omega arith)

abbrev sent_bytes : List ℕ
sent_bytes = stream few (request ∷ request ∷ [])

abbrev cut : List (List ℕ)
cut = take 5 sent_bytes ∷ drop 5 sent_bytes ∷ []

request-CanSend : CanSend request
request-CanSend = (omega arith, refl, omega arith, omega arith)

join-cut : join cut ≡ sent_bytes
unfolding join take drop stream stuff le_bytes fcs_from fcs_bits
join-cut = refl

parse_record_file-records_example :
    parse_record_file (records rcvd cut) ≡ map (shown rcvd) (request ∷ request ∷ [])
parse_record_file-records_example =
    parse_record_file-records rcvd few (request ∷ request ∷ []) cut
      (request-CanSend, (request-CanSend, tt)) join-cut
