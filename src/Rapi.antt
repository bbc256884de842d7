-- ===== src/Rapi.antt =====
-- jornada/rapi.py: the client of the device's remote API. The calls of files, of the system and of
-- databases are in the children.
pub mod Constants
pub mod Connect
pub mod Files
pub mod System
pub mod Databases
pub mod Talk
pub mod Replies
pub mod Download
pub mod Upload
pub mod Rounds
pub mod Records
mod Examples
use jornada_link.Common.{
  ℕ, zero, suc, ◌+◌, ◌/◌, ◌%◌, Bool, true, false, Option, none, some, List, [], ◌∷◌, ◌++◌, length,
  ◌==◌, if◌then◌else◌,
}
use jornada_link.Common.Result.{Result, ok, err}
use jornada_link.Wire.Encode.{u32}
use jornada_link.Wire.Reader.{WireError, Reader, reader, Read, read_u32}
use jornada_link.Transport.{TransportError, Socket, send_frame, recv_frame}
use jornada_link.Rapi.Constants.{rapi_max_frame}

-- The client's `_sock`.
abbrev pub Client : Type 0
Client = Option Socket

-- What a method raises while the socket stays in step: `RapiError` with the Win32 error, the HRESULT
-- of a refused command, or another text; `WireError`; and the ValueErrors of what a call builds or
-- unpacks.
pub data RapiError : Type 0 where
  not_connected : RapiError
  password_rejected : RapiError
  hresult_error : ℕ → ℕ → RapiError
  win32_error : ℕ → RapiError
  short_write : ℕ → ℕ → RapiError
  no_data : RapiError
  no_database : List ℕ → RapiError
  malformed : WireError → RapiError
  bad_value : RapiError

-- A method. After a TransportError nothing is known of the socket, and the model ends there.
abbrev pub Call {ℓ} : Type ℓ → Type ℓ
Call A = Client → Result TransportError (Result RapiError A × Client)

infixl 5 ◌>>=◌ ◌>>◌
abbrev pub ◌>>=◌ {ℓ κ} : {A : Type ℓ} {B : Type κ} → Call A → (A → Call B) → Call B
◌>>=◌ m f c = elim (m c) [
  | err e ↦ err e
  | ok (r, c') ↦ elim r [ err e ↦ ok (err e, c') | ok a ↦ f a c' ]
]

abbrev pub ◌>>◌ {ℓ κ} : {A : Type ℓ} {B : Type κ} → Call A → Call B → Call B
m >> k = m >>= λ _. k

abbrev pub pure {ℓ} : {A : Type ℓ} → A → Call A
pure a c = ok (ok a, c)

abbrev pub raise {ℓ} : {A : Type ℓ} → RapiError → Call A
raise e c = ok (err e, c)

-- A read of a reply.
abbrev pub parse {ℓ} : {A : Type ℓ} → Read A → Reader → Call (A × Reader)
parse m r c = elim (m r) [ err e ↦ ok (err (malformed e), c) | ok p ↦ ok (ok p, c) ]

-- `try: body finally: cleanup`. What the cleanup raises replaces the outcome of the body.
abbrev pub finally {ℓ κ} : {A : Type ℓ} {B : Type κ} → Call A → Call B → Call A
finally body cleanup c = elim (body c) [
  | err e ↦ err e
  | ok (r, c') ↦ elim (cleanup c') [
    | err e ↦ err e
    | ok (done, c'') ↦ elim done [ err e ↦ ok (err e, c'') | ok _ ↦ ok (r, c'') ]
  ]
]

-- One frame to the device and one back, on an open socket.
unfoldable pub talk : List ℕ → Socket → Result TransportError (List ℕ × Socket)
talk request sock = elim (send_frame request sock) [
  | err e ↦ err e
  | ok sock' ↦ recv_frame (some rapi_max_frame) sock'
]

unfoldable pub exchange : List ℕ → Call (List ℕ)
exchange request none = ok (err not_connected, none)
exchange request (some sock) = elim (talk request sock) [
  | err e ↦ err e
  | ok (reply, sock') ↦ ok (ok reply, some sock')
]

-- `call`
unfoldable pub call : ℕ → List ℕ → Call Reader
call command payload = do
  reply ← exchange (u32 command ++ payload)
  (result_1, r) ← parse read_u32 (reader reply 0)
  if result_1 == 1 then (parse read_u32 r >>= λ p. raise (hresult_error command p.0)) else pure r

pub record Reply : Type 0 where
  pub last_error : ℕ
  pub return_value : ℕ
  pub body : Reader

-- `_call_simple`
unfoldable pub call_simple : ℕ → List ℕ → Call Reply
call_simple command payload = do
  r ← call command payload
  (last_error, r1) ← parse read_u32 r
  (return_value, r2) ← parse read_u32 r1
  pure (record { last_error = last_error; return_value = return_value; body = r2 })

-- `_check_bool`
unfoldable pub check_bool : Reply → Call (Unit {0})
check_bool reply = if reply.return_value == 0 then raise (win32_error reply.last_error) else pure tt

-- `flags & bit`, for a bit of its own
abbrev pub has_flag : ℕ → ℕ → Bool
has_flag flags bit = flags / bit % 2 == 1

-- `close`
abbrev pub close : Call (Unit {0})
close c = ok (ok tt, none)
