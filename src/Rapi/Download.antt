-- ===== src/Rapi/Download.antt =====
-- A download from a device that answers.
use jornada_link.Common.{
  ℕ, zero, suc, ◌+◌, ◌^◌, ◌<◌, ◌≡◌, refl, ap, false, some, List, [], ◌∷◌, ◌++◌, append_assoc,
  length, All, arith, ◌==◌,
}
use jornada_link.Common.Result.{ok}
use jornada_link.Transport.{Socket}
use jornada_link.Rapi.{Client, ◌>>=◌}
use jornada_link.Rapi.Constants.{generic_read, open_existing, read_chunk, invalid_handle_value}
use jornada_link.Rapi.Files.{
  create_file, read_file, close_handle, read_pieces, rounds, download_chunked, download,
}
use jornada_link.Rapi.Talk.{Talk, Talk-spoken, length-frames}
use jornada_link.Rapi.Replies.{
  Done, IsPiece, create_request, read_request, close_request, create_reply, read_reply, close_reply,
  create_file-Done, read_file-Done, close_handle-Done, finally-done,
}

-- A piece with a byte, which a reply can hold.
abbrev pub IsFullPiece : List ℕ → Type 0
IsFullPiece piece = (0 < length piece) × IsPiece piece

-- The device gives the pieces, then an empty one, and closes the handle.
abbrev pub read_replies : List (List ℕ) → List (List ℕ) → List (List ℕ)
read_replies [] replies = read_reply [] ∷ replies
read_replies (piece ∷ pieces) replies = read_reply piece ∷ read_replies pieces replies

-- One request for each piece, and one for the empty piece.
abbrev pub read_requests : ℕ → ℕ → List (List ℕ) → List ℕ
read_requests handle chunk [] = read_request handle chunk
read_requests handle chunk (piece ∷ pieces) =
    read_request handle chunk ++ read_requests handle chunk pieces

abbrev pub joined : List (List ℕ) → List ℕ
joined [] = []
joined (piece ∷ pieces) = piece ++ joined pieces

read_pieces_end :
    (fuel handle chunk : ℕ) (c c' : Client)
    → read_file handle chunk c ≡ ok (ok [], c')
    → read_pieces (suc fuel) handle chunk c ≡ ok (ok [], c')
unfolding read_pieces
read_pieces_end fuel handle chunk c c' e = rw (e, read_pieces, ◌>>=◌)

read_pieces_step :
    (fuel handle chunk : ℕ) (piece later : List ℕ) (c c' c'' : Client)
    → 0 < length piece
    → read_file handle chunk c ≡ ok (ok piece, c')
    → read_pieces fuel handle chunk c' ≡ ok (ok later, c'')
    → read_pieces (suc fuel) handle chunk c ≡ ok (ok (piece ++ later), c'')
unfolding read_pieces
read_pieces_step fuel handle chunk [] later c c' c'' h e f = absurd (omega arith)
read_pieces_step fuel handle chunk (b ∷ bytes) later c c' c'' h e f = rw (e, read_pieces, ◌>>=◌, f)

read_pieces-Done :
    (fuel handle chunk : ℕ) (pieces replies : List (List ℕ)) {sock : Socket} {sent : List ℕ}
    → All IsFullPiece pieces
    → length pieces < fuel
    → Talk sock (read_replies pieces replies) sent
    → Done
        (read_pieces fuel handle chunk)
        sock
        (ok (joined pieces))
        replies
        (sent ++ read_requests handle chunk pieces)
read_pieces-Done zero handle chunk pieces replies full h t = absurd (omega arith)
read_pieces-Done (suc fuel) handle chunk [] replies full h t =
    let d = read_file-Done replies handle chunk [] (omega arith) t in
    record { sock' = d.sock'; run = read_pieces_end fuel handle chunk _ _ d.run; next = d.next }
read_pieces-Done (suc fuel) handle chunk (piece ∷ pieces) replies (full, later) h t =
    let d = read_file-Done (read_replies pieces replies) handle chunk piece full.1 t in
    let d' = read_pieces-Done fuel handle chunk pieces replies later (omega arith) d.next in
    record {
      sock' = d'.sock';
      run = read_pieces_step fuel handle chunk piece (joined pieces) _ _ _ full.0 d.run d'.run;
      next = Talk-spoken d'.next (append_assoc _ (read_request handle chunk) _);
    }

length-read_replies :
    (pieces replies : List (List ℕ))
    → length (read_replies pieces replies) ≡ suc (length pieces + length replies)
length-read_replies [] replies = omega arith
length-read_replies (piece ∷ pieces) replies = omega (arith, length-read_replies pieces replies)

-- The stream holds more frames than there are pieces, so that the rounds are enough.
rounds_lem :
    {sock : Socket} {sent : List ℕ}
    → (pieces replies : List (List ℕ)) → Talk sock (read_replies pieces replies) sent
    → length pieces < rounds (some sock)
rounds_lem pieces replies t = omega (
  arith,
  length-frames (read_replies pieces replies),
  length-read_replies pieces replies,
  ap length t.ahead,
)

download_step :
    (path bytes : List ℕ) (chunk handle : ℕ) (c c' c'' c''' : Client)
    → create_file path generic_read 1 open_existing c ≡ ok (ok handle, c')
    → read_pieces (rounds c') handle chunk c' ≡ ok (ok bytes, c'')
    → close_handle handle c'' ≡ ok (ok tt, c''')
    → download_chunked path chunk c ≡ ok (ok bytes, c''')
unfolding download_chunked
download_step path bytes chunk handle c c' c'' c''' e f g =
    rw (e, download_chunked, ◌>>=◌)
      (finally-done (λ c. read_pieces (rounds c) handle chunk c) (close_handle handle) c' c'' c'''
        (ok bytes) f g)

-- The requests of a download: the file is opened, read until a piece is empty, and closed.
abbrev pub download_requests : List ℕ → ℕ → List (List ℕ) → List ℕ
download_requests path handle pieces =
    create_request path generic_read 1 open_existing
    ++ (read_requests handle read_chunk pieces ++ close_request handle)

-- If the device opens the file with a handle, gives its bytes in pieces that are not empty and that
-- fit a frame, then an empty piece, and closes the handle, `download` returns the joined pieces, has
-- sent exactly the requests that open, read and close that handle, in this order, and leaves the
-- replies after those unread.
pub download_lem :
    (path : List ℕ) (handle : ℕ) (pieces replies : List (List ℕ)) (sock : Socket) (sent : List ℕ)
    → (handle == invalid_handle_value) ≡ false
    → handle < 2 ^ 32
    → All IsFullPiece pieces
    → Talk sock (create_reply handle ∷ read_replies pieces (close_reply ∷ replies)) sent
    → Done
        (download path)
        sock
        (ok (joined pieces))
        replies
        (sent ++ download_requests path handle pieces)
download_lem path handle pieces replies sock sent good small full t =
    let d =
      create_file-Done (read_replies pieces (close_reply ∷ replies)) path generic_read 1
        open_existing handle good small t in
    let d' =
      read_pieces-Done (rounds (some d.sock')) handle read_chunk pieces (close_reply ∷ replies) full
        (rounds_lem pieces (close_reply ∷ replies) d.next) d.next in
    let d'' = close_handle-Done replies handle d'.next in
    record {
      sock' = d''.sock';
      run = download_step path (joined pieces) read_chunk handle _ _ _ _ d.run d'.run d''.run;
      next = Talk-spoken d''.next (rw (append_assoc, append_assoc) refl);
    }
