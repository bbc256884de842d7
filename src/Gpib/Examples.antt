-- ===== src/Gpib/Examples.antt =====
-- Tests of the gateway's client, and its theorems at concrete inputs.
use jornada_link.Common.{ℕ, ◌≡◌, refl, true, false, none, some, List, [], ◌∷◌, ◌++◌, All, arith}
use jornada_link.Common.Result.{ok, err}
use jornada_link.Gpib.{
  encode_ascii, decode_ascii, strip_line_end, is_command, line_bytes, decimal, digits,
}
use jornada_link.Gpib.Session.{
  chunk, Socket, read_line, ends_line, set_address, send_line, bad_address,
}
use jornada_link.Gpib.Lines.{
  ordinary, unguarded, unescaped, line_bytes_lem, pieces, joined, read_line-pieces,
}

-- A query with a sign, a carriage return and a line feed in it.
abbrev asking : List ℕ
asking = b'V' ∷ b'+' ∷ b'1' ∷ b'?' ∷ 0x0D ∷ 0x0A ∷ []

line_bytes_lem_example :
    (unguarded (line_bytes asking ++ (b'x' ∷ []))
      ≡ ordinary asking ++ (0x0A ∷ unguarded (b'x' ∷ [])))
    × (unescaped (line_bytes asking ++ (b'x' ∷ [])) ≡ asking ++ (0x0A ∷ unescaped (b'x' ∷ [])))
    × (is_command (line_bytes asking ++ (b'x' ∷ [])) ≡ false)
line_bytes_lem_example = line_bytes_lem asking (b'x' ∷ []) (ground arith) refl

-- What is left of it without the bytes that the protocol treats specially.
ordinary-asking : ordinary asking ≡ b'V' ∷ b'1' ∷ b'?' ∷ []
unfolding ordinary
ordinary-asking = refl

abbrev cut_answer : List (ℕ × List ℕ)
cut_answer = (b'H', b'P' ∷ []) ∷ []

abbrev waiting : Socket
waiting = record {
  sent = [];
  sends = 9;
  answers = chunk b'H' (b'P' ∷ []) ∷ chunk b'1' (0x0D ∷ 0x0A ∷ []) ∷ chunk b'z' [] ∷ [];
}

pieces-cut :
    waiting.answers ≡ pieces cut_answer ++ (chunk b'1' (0x0D ∷ 0x0A ∷ []) ∷ chunk b'z' [] ∷ [])
unfolding pieces
pieces-cut = refl

cut-ends : All (λ c. ends_line (c.0 ∷ c.1) ≡ false) cut_answer
unfolding ends_line
cut-ends = (refl, tt)

last-ends : ends_line (b'1' ∷ 0x0D ∷ 0x0A ∷ []) ≡ true
unfolding ends_line
last-ends = refl

read_line-pieces_example : read_line (some waiting) ≡ (
  ok (strip_line_end (decode_ascii (joined cut_answer ++ (b'1' ∷ 0x0D ∷ 0x0A ∷ [])))),
  some (record waiting { answers = chunk b'z' [] ∷ [] }),
)
read_line-pieces_example =
    read_line-pieces waiting cut_answer b'1' (0x0D ∷ 0x0A ∷ []) (chunk b'z' [] ∷ []) cut-ends
      last-ends pieces-cut

-- The line end goes.
stripped : strip_line_end (b'H' ∷ 0x0D ∷ 0x0A ∷ []) ≡ b'H' ∷ []
unfolding strip_line_end
stripped = refl

-- The line that selects an instrument.
selecting : set_address 22 none (some waiting) ≡ (
  ok tt,
  some (record waiting {
    sent = b'+' ∷ b'+' ∷ b'a' ∷ b'd' ∷ b'd' ∷ b'r' ∷ b' ' ∷ b'2' ∷ b'2' ∷ 0x0A ∷ [];
    sends = 8;
  }),
)
unfolding send_line decimal digits encode_ascii
selecting = refl

no_address : set_address 31 none (some waiting) ≡ (err (bad_address 31), some waiting)
no_address = refl
