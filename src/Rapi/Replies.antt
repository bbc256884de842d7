-- ===== src/Rapi/Replies.antt =====
-- The file calls over a device that answers.
use jornada_link.Common.{
  ℕ, ◌+◌, ◌^◌, ◌<◌, ◌≤◌, ◌≡◌, refl, false, some, none, List, [], ◌∷◌, ◌++◌, append-nil, length,
  length-append, arith, ◌==◌,
}
use jornada_link.Common.Result.{Result, ok}
use jornada_link.Wire.Encode.{u32, string, optional_in, optional_out}
use jornada_link.Wire.Reader.{Reader, advance, read_u32, read_bytes}
use jornada_link.Wire.RoundTrip.{length-u32, Ahead, read_bytes_lem, u32-Ahead}
use jornada_link.Rapi.Constants.{rapi_max_frame}
use jornada_link.Transport.{Socket}
use jornada_link.Rapi.{Client, Call, ◌>>=◌, parse, finally, call_simple, check_bool, RapiError}
use jornada_link.Rapi.Constants.{
  cmd_create_file, cmd_read_file, cmd_write_file, cmd_close_handle, invalid_handle_value,
}
use jornada_link.Rapi.Files.{create_file, read_file, write_file, close_handle, succeed}
use jornada_link.Rapi.Talk.{Talk, request, answer, call_simple-Talk, read_u32-small, length-answer}

-- What a method comes to while the device gives the first of its replies: a value or an exception,
-- the replies that are left, and what was sent by then.
pub record Done {A : Type 0} (m : Call A) (sock : Socket) (r : Result RapiError A)
    (replies : List (List ℕ)) (sent : List ℕ) : Type 0 where
  pub sock' : Socket
  pub run : m (some sock) ≡ ok (r, some sock')
  pub next : Talk sock' replies sent

abbrev pub create_request : List ℕ → ℕ → ℕ → ℕ → List ℕ
create_request path access share_mode disposition = request cmd_create_file (
    u32 access ++ (u32 share_mode ++ (u32 disposition ++ (u32 0 ++ (u32 0 ++ string (some path))))))

abbrev pub read_request : ℕ → ℕ → List ℕ
read_request handle size =
    request cmd_read_file (u32 handle ++ (optional_out (some size) ++ optional_in none))

abbrev pub write_request : ℕ → List ℕ → List ℕ
write_request handle bytes =
    request cmd_write_file (u32 handle ++ (optional_in (some bytes) ++ optional_in none))

abbrev pub close_request : ℕ → List ℕ
close_request handle = request cmd_close_handle (u32 handle)

-- The replies of a device that does as it is asked.
abbrev pub create_reply : ℕ → List ℕ
create_reply handle = answer 0 handle []

abbrev pub read_reply : List ℕ → List ℕ
read_reply piece = answer 0 1 (u32 (length piece) ++ piece)

abbrev pub write_reply : ℕ → List ℕ
write_reply count = answer 0 1 (u32 count)

abbrev pub close_reply : List ℕ
close_reply = answer 0 1 []

create_step :
    (path : List ℕ) (access share_mode disposition handle : ℕ) (c c' : Client) (r : Reader)
    → call_simple cmd_create_file
        (u32 access
          ++ (u32 share_mode ++ (u32 disposition ++ (u32 0 ++ (u32 0 ++ string (some path))))))
        c
      ≡ ok (ok (record { last_error = 0; return_value = handle; body = r }), c')
    → (handle == invalid_handle_value) ≡ false
    → create_file path access share_mode disposition c ≡ ok (ok handle, c')
unfolding create_file
create_step path access share_mode disposition handle c c' r e f = rw (e, create_file, ◌>>=◌, f)

succeed_step :
    (command value : ℕ) (payload : List ℕ) (c c' : Client) (r : Reader)
    → call_simple command payload c
      ≡ ok (ok (record { last_error = 0; return_value = value; body = r }), c')
    → (value == 0) ≡ false
    → succeed command payload c ≡ ok (ok tt, c')
unfolding check_bool
succeed_step command value payload c c' r e f = rw (e, succeed, ◌>>=◌, check_bool, f)

read_step :
    (handle size count : ℕ) (piece : List ℕ) (c c' : Client) (r r' r'' : Reader)
    → call_simple cmd_read_file (u32 handle ++ (optional_out (some size) ++ optional_in none)) c
      ≡ ok (ok (record { last_error = 0; return_value = 1; body = r }), c')
    → read_u32 r ≡ ok (count, r')
    → read_bytes count r' ≡ ok (piece, r'')
    → read_file handle size c ≡ ok (ok piece, c')
unfolding read_file check_bool
read_step handle size count piece c c' r r' r'' e f g = rw (e, read_file, ◌>>=◌, parse, f, g)

write_step :
    (handle count : ℕ) (bytes : List ℕ) (c c' : Client) (r r' : Reader)
    → call_simple cmd_write_file (u32 handle ++ (optional_in (some bytes) ++ optional_in none)) c
      ≡ ok (ok (record { last_error = 0; return_value = 1; body = r }), c')
    → read_u32 r ≡ ok (count, r')
    → write_file handle bytes c ≡ ok (ok count, c')
unfolding write_file check_bool
write_step handle count bytes c c' r r' e f = rw (e, write_file, ◌>>=◌, parse, f)

-- A piece that a reply can hold.
abbrev pub IsPiece : List ℕ → Type 0
IsPiece piece = length piece + 16 ≤ rapi_max_frame

-- Both the body and the cleanup run, and the body's outcome stays.
pub finally-done :
    {A : Type 0} (body : Call A) (cleanup : Call (Unit {0})) (c c' c'' : Client)
    (r : Result RapiError A)
    → body c ≡ ok (r, c')
    → cleanup c' ≡ ok (ok tt, c'')
    → finally body cleanup c ≡ ok (r, c'')
finally-done body cleanup c c' c'' r e f = rw (e, finally, f)

Ahead-nil : {r : Reader} {bytes : List ℕ} → Ahead r bytes → Ahead r (bytes ++ [])
Ahead-nil {r} {bytes} h = rw (append-nil bytes) h

module _ {sock : Socket} {sent : List ℕ} (replies : List (List ℕ)) where
  pub create_file-Done :
      (path : List ℕ) (access share_mode disposition handle : ℕ)
      → (handle == invalid_handle_value) ≡ false
      → handle < 2 ^ 32
      → Talk sock (create_reply handle ∷ replies) sent
      → Done
          (create_file path access share_mode disposition)
          sock
          (ok handle)
          replies
          (sent ++ create_request path access share_mode disposition)
  create_file-Done path access share_mode disposition handle good small t =
      let s =
        call_simple-Talk cmd_create_file 0 handle _ [] replies (omega arith) small t
          (omega (arith, length-answer 0 handle [])) in
      record {
        sock' = s.sock';
        run =
            create_step path access share_mode disposition handle (some sock) (some s.sock') s.r
              s.called good;
        next = s.next;
      }

  pub read_file-Done :
      (handle size : ℕ) (piece : List ℕ)
      → IsPiece piece
      → Talk sock (read_reply piece ∷ replies) sent
      → Done (read_file handle size) sock (ok piece) replies (sent ++ read_request handle size)
  read_file-Done handle size piece fits t =
      let s =
        call_simple-Talk cmd_read_file 0 1 _ (u32 (length piece) ++ piece) replies (omega arith)
          (omega arith) t
          (omega (
            arith,
            length-answer 0 1 (u32 (length piece) ++ piece),
            length-append (u32 (length piece)) piece,
            length-u32 (length piece),
          )) in
      let start : Ahead (advance 4 s.r) (piece ++ []) =
        Ahead-nil (u32-Ahead (length piece) piece s.ahead) in
      record {
        sock' = s.sock';
        run =
            read_step handle size (length piece) piece (some sock) (some s.sock') s.r
              (advance 4 s.r) (advance (length piece) (advance 4 s.r)) s.called
              (read_u32-small (length piece) piece (omega (arith, fits)) s.ahead)
              (read_bytes_lem piece [] start (length piece) refl);
        next = s.next;
      }

  pub write_file-Done :
      (handle count : ℕ) (bytes : List ℕ)
      → count < 2 ^ 32
      → Talk sock (write_reply count ∷ replies) sent
      → Done (write_file handle bytes) sock (ok count) replies (sent ++ write_request handle bytes)
  write_file-Done handle count bytes small t =
      let s =
        call_simple-Talk cmd_write_file 0 1 _ (u32 count) replies (omega arith) (omega arith) t
          (omega (arith, length-answer 0 1 (u32 count), length-u32 count)) in
      record {
        sock' = s.sock';
        run =
            write_step handle count bytes (some sock) (some s.sock') s.r (advance 4 s.r) s.called
              (read_u32-small count [] small (Ahead-nil s.ahead));
        next = s.next;
      }

  pub succeed-Done :
      (command : ℕ) (payload : List ℕ)
      → Talk sock (close_reply ∷ replies) sent
      → Done (succeed command payload) sock (ok tt) replies (sent ++ request command payload)
  succeed-Done command payload t =
      let s =
        call_simple-Talk command 0 1 payload [] replies (omega arith) (omega arith) t
          (omega (arith, length-answer 0 1 [])) in
      record {
        sock' = s.sock';
        run = succeed_step command 1 payload (some sock) (some s.sock') s.r s.called refl;
        next = s.next;
      }

  pub close_handle-Done :
      (handle : ℕ)
      → Talk sock (close_reply ∷ replies) sent
      → Done (close_handle handle) sock (ok tt) replies (sent ++ close_request handle)
  unfolding close_handle
  close_handle-Done handle t = record {
    sock' = (succeed-Done cmd_close_handle (u32 handle) t).sock';
    run = (succeed-Done cmd_close_handle (u32 handle) t).run;
    next = (succeed-Done cmd_close_handle (u32 handle) t).next;
  }
