-- ===== src/Password.antt =====
-- jornada/password.py: the password exchange.
pub mod Mask
use Prim.Native.Nat.{bit_xor}
use jornada_link.Common.{
  ℕ, zero, suc, ◌<◌, ◌≡◌, refl, Bool, true, false, not, ◌&&◌, ◌||◌, List, [], ◌∷◌, ◌++◌, map,
  length, All, arith, ltb, ◌==◌, ==_iff, if◌then◌else◌,
}
use jornada_link.Common.Bits.{AreBytes, IsByte, from_le}
use jornada_link.Common.Result.{Result, ok, err}
use jornada_link.Wire.Encode.{u16, wstr}
use jornada_link.Transport.{TransportError, Socket, send_all, recv_exact}

-- `bytes(b ^ key for b in data)`
unfoldable pub mask : ℕ → List ℕ → List ℕ
mask key = map (λ b. bit_xor b key)

-- `encode_password`; `bad_key` is its ValueError for a key that is no byte.
pub data PasswordError : Type 0 where
  bad_key : ℕ → PasswordError

unfoldable pub encode_password : List ℕ → ℕ → Result PasswordError (List ℕ)
unfolding mask
encode_password password key =
    if ltb 255 key then err (bad_key key) else ok (mask key (wstr password))

-- The packet that `send_password` sends of the encoded password.
abbrev pub password_packet : List ℕ → List ℕ
password_packet encoded = u16 (length encoded) ++ encoded

-- A reply is accepted if it is not zero.
abbrev pub accepts : List ℕ → Bool
accepts raw = not (from_le raw == 0)

-- `recv_password_reply`, whose ValueError for other sizes is `bad_size`
pub data ReplyError : Type 0 where
  bad_size : ReplyError
  transport : TransportError → ReplyError

unfoldable pub recv_password_reply : ℕ → Socket → Result ReplyError (Bool × Socket)
recv_password_reply size sock =
    if not (size == 1 || size == 2) then err bad_size else elim (recv_exact size sock) [
      | err e ↦ err (transport e)
      | ok (raw, sock') ↦ ok (accepts raw, sock')
    ]
