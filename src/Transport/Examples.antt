-- ===== src/Transport/Examples.antt =====
-- Tests of the socket helpers, and their theorems at concrete inputs.
use jornada_link.Common.{◌≡◌, refl, some, List, [], ◌∷◌, take, drop, arith}
use jornada_link.Common.Bits.{from_le}
use jornada_link.Common.Result.{ok, err}
use jornada_link.Transport.{
  Event, arrived, timeout, Socket, too_large, recv_exact, recv_frame, timed_out,
}
use jornada_link.Transport.Exact.{stream, recv_exact_lem}

-- Six bytes in three chunks, then a timeout.
abbrev chunked : Socket
chunked = record {
  events = arrived (1 ∷ 2 ∷ []) ∷ arrived (3 ∷ []) ∷ arrived (4 ∷ 5 ∷ 6 ∷ []) ∷ timeout ∷ [];
  sent = [];
  send_faults = [];
}

four :
    recv_exact 4 chunked
    ≡ ok (1 ∷ 2 ∷ 3 ∷ 4 ∷ [], record chunked { events = arrived (5 ∷ 6 ∷ []) ∷ timeout ∷ [] })
unfolding recv_exact take drop
four = refl

seven : recv_exact 7 chunked ≡ err (timed_out 1)
unfolding recv_exact take drop
seven = refl

-- A frame that is announced as larger than the limit is not read.
oversized :
    recv_frame
      (some 100)
      (record { events = arrived (0 ∷ 1 ∷ 0 ∷ 0 ∷ []) ∷ []; sent = []; send_faults = [] })
    ≡ err (too_large 256)
unfolding recv_frame take drop from_le
oversized = refl

recv_exact_lem_example :
    (rest : List Event) × (recv_exact 4 chunked
      ≡ ok (take 4 (stream chunked.events), record chunked { events = rest }))
    × (stream rest ≡ drop 4 (stream chunked.events))
recv_exact_lem_example = recv_exact_lem 4 chunked (omega arith)
