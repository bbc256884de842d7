-- ===== src/Gpib/Session.antt =====
-- `GpibGateway` of jornada/gpib.py: a session with the gateway.
use jornada_link.Common.{
  ℕ, zero, suc, ◌+◌, Bool, false, Option, none, some, List, [], ◌∷◌, ◌++◌, ◌==◌, ltb, if◌then◌else◌,
}
use jornada_link.Common.Result.{Result, ok, err}
use jornada_link.Gpib.{lf, decode_ascii, strip_line_end, line_bytes, decimal}

-- What the next `recv` comes to: bytes, the end of the stream, silence until the timeout, or an error.
pub data Answer : Type 0 where
  chunk : ℕ → List ℕ → Answer
  closed : Answer
  silence : Answer
  broken : Answer

-- The gateway's end of the connection. `sends` is the number of `sendall` calls that still succeed;
-- after the last answer the gateway is silent.
pub record Socket : Type 0 where
  pub sent : List ℕ
  pub sends : ℕ
  pub answers : List Answer

-- What a method raises: a GpibError, or the socket's OSError.
pub data GpibError : Type 0 where
  not_connected : GpibError
  no_answer : GpibError
  bad_address : ℕ → GpibError
  socket_error : GpibError

-- A method takes `_sock` and leaves it, with its value or what it raised.
abbrev pub Method : Type 0 → Type 0
Method A = Option Socket → Result GpibError A × Option Socket

-- One method's body after another: what is raised ends both.
infixr 20 ◌and_then◌
abbrev pub ◌and_then◌ : {A B : Type 0} → Method A → (A → Method B) → Method B
(m and_then f) gateway =
    let (r, gateway') = m gateway in elim r [ ok a ↦ f a gateway' | err e ↦ (err e, gateway') ]

-- `close`
abbrev pub close : Method (Unit {0})
close gateway = (ok tt, none)

-- `send_line`
unfoldable pub send_line : List ℕ → Method (Unit {0})
send_line line none = (err not_connected, none)
send_line line (some sock) = elim (sock.sends) [
  | zero ↦ (err socket_error, some sock)
  | suc n ↦ (ok tt, some (record sock { sent = sock.sent ++ line_bytes line; sends = n }))
]

-- `data.endswith(b"\n")`
unfoldable pub ends_line : List ℕ → Bool
ends_line [] = false
ends_line (b ∷ []) = b == lf
ends_line (a ∷ b ∷ bytes) = ends_line (b ∷ bytes)

-- The loop of `read_line` over `data`, with what is then left to receive.
unfoldable pub read_loop : List ℕ → List Answer → Result GpibError (List ℕ) × List Answer
read_loop [] [] = (err no_answer, [])
read_loop (d ∷ data_) [] = (ok (d ∷ data_), [])
read_loop data_ (chunk b bytes ∷ answers) =
    let later = read_loop (data_ ++ (b ∷ bytes)) answers in
    if ends_line (data_ ++ (b ∷ bytes)) then (ok (data_ ++ (b ∷ bytes)), answers) else later
read_loop data_ (closed ∷ answers) = (ok data_, answers)
read_loop [] (silence ∷ answers) = (err no_answer, answers)
read_loop (d ∷ data_) (silence ∷ answers) = (ok (d ∷ data_), answers)
read_loop data_ (broken ∷ answers) = (err socket_error, answers)

-- the end of `read_line`
abbrev line_of : Result GpibError (List ℕ) → Result GpibError (List ℕ)
line_of (ok data_) = ok (strip_line_end (decode_ascii data_))
line_of (err e) = err e

-- `read_line`
unfoldable pub read_line : Method (List ℕ)
read_line none = (err not_connected, none)
read_line (some sock) = (
  line_of (read_loop [] sock.answers).0,
  some (record sock { answers = (read_loop [] sock.answers).1 }),
)

-- The lines that the methods send.
abbrev pub auto_off : List ℕ
auto_off = b'+' ∷ b'+' ∷ b'a' ∷ b'u' ∷ b't' ∷ b'o' ∷ b' ' ∷ b'0' ∷ []

abbrev pub read_eoi : List ℕ
read_eoi = b'+' ∷ b'+' ∷ b'r' ∷ b'e' ∷ b'a' ∷ b'd' ∷ b' ' ∷ b'e' ∷ b'o' ∷ b'i' ∷ []

abbrev pub ifc_line : List ℕ
ifc_line = b'+' ∷ b'+' ∷ b'i' ∷ b'f' ∷ b'c' ∷ []

abbrev pub clr_line : List ℕ
clr_line = b'+' ∷ b'+' ∷ b'c' ∷ b'l' ∷ b'r' ∷ []

abbrev pub trg_line : List ℕ
trg_line = b'+' ∷ b'+' ∷ b't' ∷ b'r' ∷ b'g' ∷ []

abbrev pub loc_line : List ℕ
loc_line = b'+' ∷ b'+' ∷ b'l' ∷ b'o' ∷ b'c' ∷ []

abbrev pub ver_line : List ℕ
ver_line = b'+' ∷ b'+' ∷ b'v' ∷ b'e' ∷ b'r' ∷ []

abbrev pub quit_line : List ℕ
quit_line = b'+' ∷ b'+' ∷ b'q' ∷ b'u' ∷ b'i' ∷ b't' ∷ []

abbrev pub addr_word : List ℕ
addr_word = b'+' ∷ b'+' ∷ b'a' ∷ b'd' ∷ b'd' ∷ b'r' ∷ b' ' ∷ []

abbrev pub address_line : ℕ → Option ℕ → List ℕ
address_line pad none = addr_word ++ decimal pad
address_line pad (some sad) = addr_word ++ (decimal pad ++ (b' ' ∷ decimal (sad + 96)))

-- `command`
abbrev pub command : List ℕ → Method (List ℕ)
command text = send_line text and_then λ _. read_line

-- `set_address`; a negative `pad` is outside of the model.
abbrev pub set_address : ℕ → Option ℕ → Method (Unit {0})
set_address pad sad =
    if ltb 30 pad
    then (λ gateway. (err (bad_address pad), gateway))
    else send_line (address_line pad sad)

-- `write`
abbrev pub write : ℕ → List ℕ → Method (Unit {0})
write pad text = set_address pad none and_then λ _. send_line auto_off and_then λ _. send_line text

-- `read`
abbrev pub read : ℕ → Method (List ℕ)
read pad = set_address pad none and_then λ _. send_line read_eoi and_then λ _. read_line

-- `query`
abbrev pub query : ℕ → List ℕ → Method (List ℕ)
query pad text = write pad text and_then λ _. send_line read_eoi and_then λ _. read_line

-- `interface_clear`
abbrev pub interface_clear : Method (Unit {0})
interface_clear = send_line ifc_line

-- `device_clear`
abbrev pub device_clear : ℕ → Method (Unit {0})
device_clear pad = set_address pad none and_then λ _. send_line clr_line

-- `trigger`
abbrev pub trigger : ℕ → Method (Unit {0})
trigger pad = set_address pad none and_then λ _. send_line trg_line

-- `local`
abbrev pub local : ℕ → Method (Unit {0})
local pad = set_address pad none and_then λ _. send_line loc_line

-- `version`
abbrev pub version : Method (List ℕ)
version = command ver_line

-- `quit_gateway`
abbrev pub quit_gateway : Method (Unit {0})
quit_gateway = send_line quit_line
