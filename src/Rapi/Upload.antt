-- ===== src/Rapi/Upload.antt =====
-- An upload to a device that answers.
use jornada_link.Common.{
  ℕ, zero, suc, ◌+◌, ◌^◌, ◌<◌, ◌≤◌, ◌≡◌, refl, sym, ap, ◌∙◌, false, some, List, [], ◌∷◌, ◌++◌,
  append-nil, append_assoc, take, drop, length, length-append, take-drop, length-take_le,
  length-drop_le, All, All-map, All-append_left, arith, ◌==◌,
}
use jornada_link.Common.Result.{Result, ok, err}
use jornada_link.Transport.{Socket}
use jornada_link.Rapi.{Client, RapiError, ◌>>=◌, short_write}
use jornada_link.Rapi.Constants.{generic_write, create_always, invalid_handle_value}
use jornada_link.Rapi.Files.{
  create_file, write_file, close_handle, write_pieces, pieces_of, upload_chunked,
}
use jornada_link.Rapi.Talk.{Talk, Talk-spoken}
use jornada_link.Rapi.Replies.{
  Done, create_request, write_request, close_request, create_reply, write_reply, close_reply,
  create_file-Done, write_file-Done, close_handle-Done, finally-done,
}
use jornada_link.Rapi.Download.{joined}

-- The device answers each piece with its whole length.
abbrev pub write_replies : List (List ℕ) → List (List ℕ) → List (List ℕ)
write_replies [] replies = replies
write_replies (piece ∷ pieces) replies = write_reply (length piece) ∷ write_replies pieces replies

abbrev pub write_requests : ℕ → List (List ℕ) → List ℕ
write_requests handle [] = []
write_requests handle (piece ∷ pieces) = write_request handle piece ++ write_requests handle pieces

abbrev IsSmallPiece : List ℕ → Type 0
IsSmallPiece piece = length piece < 2 ^ 32

write_step :
    (handle written : ℕ) (piece : List ℕ) (pieces : List (List ℕ)) (c c' : Client)
    → write_file handle piece c ≡ ok (ok (length piece), c')
    → write_pieces handle written (piece ∷ pieces) c
      ≡ write_pieces handle (written + length piece) pieces c'
unfolding write_pieces
write_step handle written piece pieces c c' e = rw (e, write_pieces, ◌>>=◌) (ground arith)

short_write_step :
    (handle written count : ℕ) (piece : List ℕ) (pieces : List (List ℕ)) (c c' : Client)
    → (count == length piece) ≡ false
    → write_file handle piece c ≡ ok (ok count, c')
    → write_pieces handle written (piece ∷ pieces) c
      ≡ ok (err (short_write count (length piece)), c')
unfolding write_pieces
short_write_step handle written count piece pieces c c' h e = rw (e, write_pieces, ◌>>=◌, h)

-- The pieces that are acknowledged whole are written, and the loop goes on after them.
write_pieces-Talk :
    (handle written : ℕ) (pieces later replies : List (List ℕ)) {sock : Socket} {sent : List ℕ}
    → All IsSmallPiece pieces
    → Talk sock (write_replies pieces replies) sent
    → (sock' : Socket) × (write_pieces handle written (pieces ++ later) (some sock)
        ≡ write_pieces handle (written + length (joined pieces)) later (some sock'))
      × Talk sock' replies (sent ++ write_requests handle pieces)
write_pieces-Talk handle written [] later replies {sock} {sent} small t = (
  sock,
  ap (λ n. write_pieces handle n later (some sock)) (omega arith),
  Talk-spoken t (sym (append-nil sent)),
)
write_pieces-Talk handle written (piece ∷ pieces) later replies (s, small) t =
    let d = write_file-Done (write_replies pieces replies) handle (length piece) piece s t in
    let (sock', go, next) =
      write_pieces-Talk handle (written + length piece) pieces later replies small d.next in
    (
      sock',
      write_step handle written piece (pieces ++ later) _ _ d.run
          ∙ (go
              ∙ ap (λ n. write_pieces handle n later (some sock'))
                  (omega (arith, length-append piece (joined pieces)))),
      Talk-spoken next (append_assoc _ (write_request handle piece) _),
    )

-- The pieces join to the bytes, and none is longer than the chunk.
joined-pieces_of :
    (fuel chunk : ℕ) (bytes : List ℕ)
    → 0 < chunk
    → length bytes ≤ fuel
    → (joined (pieces_of fuel chunk bytes) ≡ bytes)
      × All (λ piece. length piece ≤ chunk) (pieces_of fuel chunk bytes)
unfolding pieces_of drop
joined-pieces_of fuel chunk [] h k = (refl, tt)
joined-pieces_of zero chunk (b ∷ bytes) h k = absurd (omega arith)
joined-pieces_of (suc fuel) zero (b ∷ bytes) h k = absurd (omega arith)
joined-pieces_of (suc fuel) (suc chunk) (b ∷ bytes) h k =
    let (whole, most) =
      joined-pieces_of fuel (suc chunk) (drop chunk bytes) h
        (omega (arith, length-drop_le chunk bytes)) in
    (
      ap (λ ys. take (suc chunk) (b ∷ bytes) ++ ys) whole ∙ take-drop (suc chunk) (b ∷ bytes),
      (length-take_le (suc chunk) (b ∷ bytes), most),
    )

upload_step :
    (path bytes : List ℕ) (chunk handle : ℕ) (r : Result RapiError ℕ) (c c1 c2 c3 : Client)
    → create_file path generic_write 0 create_always c ≡ ok (ok handle, c1)
    → write_pieces handle 0 (pieces_of (length bytes) chunk bytes) c1 ≡ ok (r, c2)
    → close_handle handle c2 ≡ ok (ok tt, c3)
    → upload_chunked path bytes chunk c ≡ ok (r, c3)
unfolding upload_chunked
upload_step path bytes chunk handle r c c1 c2 c3 e f g =
    rw (e, upload_chunked, ◌>>=◌)
      (finally-done (write_pieces handle 0 (pieces_of (length bytes) chunk bytes))
        (close_handle handle) c1 c2 c3 r f g)

write_pieces_end :
    (handle written : ℕ) (c : Client) → write_pieces handle written [] c ≡ ok (ok written, c)
unfolding write_pieces
write_pieces_end handle written c = refl

-- The requests of an upload: the file is made, the pieces are written in order, and it is closed.
abbrev pub upload_requests : List ℕ → ℕ → List (List ℕ) → List ℕ
upload_requests path handle pieces =
    create_request path generic_write 0 create_always
    ++ (write_requests handle pieces ++ close_request handle)

write_requests-append :
    (handle : ℕ) (pieces : List (List ℕ)) (bad : List ℕ)
    → write_requests handle (pieces ++ (bad ∷ []))
      ≡ write_requests handle pieces ++ write_request handle bad
write_requests-append handle [] bad = append-nil (write_request handle bad)
write_requests-append handle (piece ∷ pieces) bad =
    ap (λ ys. write_request handle piece ++ ys) (write_requests-append handle pieces bad)
    ∙ sym (append_assoc (write_request handle piece) _ _)

module _ (path bytes : List ℕ) (chunk handle : ℕ) (replies : List (List ℕ)) (sock : Socket)
    (sent : List ℕ) (positive : 0 < chunk) (word : chunk < 2 ^ 32)
    (good : (handle == invalid_handle_value) ≡ false) (small : handle < 2 ^ 32) where
  small_pieces :
      (front back : List (List ℕ))
      → pieces_of (length bytes) chunk bytes ≡ front ++ back
      → All IsSmallPiece front
  small_pieces front back e = All-append_left IsSmallPiece front back (
      rw e at (
        All-map (λ piece. length piece ≤ chunk) IsSmallPiece (λ piece h. omega arith)
          (pieces_of (length bytes) chunk bytes)
          (joined-pieces_of (length bytes) chunk bytes positive (omega arith)).1))

  -- If the device makes the file with a handle, answers each piece of the data with its whole length
  -- and closes the handle, `upload` returns the length of the data, and has sent the requests that
  -- make the file, write its pieces in order and close the handle, and nothing else. Those pieces
  -- join to the data, and none is longer than the chunk.
  pub upload_lem :
      Talk sock
        (create_reply handle
          ∷ write_replies (pieces_of (length bytes) chunk bytes) (close_reply ∷ replies))
        sent
      → Done
          (upload_chunked path bytes chunk)
          sock
          (ok (length bytes))
          replies
          (sent ++ upload_requests path handle (pieces_of (length bytes) chunk bytes))
        × (joined (pieces_of (length bytes) chunk bytes) ≡ bytes)
        × All (λ piece. length piece ≤ chunk) (pieces_of (length bytes) chunk bytes)
  upload_lem t =
      let ps = pieces_of (length bytes) chunk bytes in
      let (whole, most) = joined-pieces_of (length bytes) chunk bytes positive (omega arith) in
      let d =
        create_file-Done (write_replies ps (close_reply ∷ replies)) path generic_write 0
          create_always handle good small t in
      let (sock', go, next) =
        write_pieces-Talk handle 0 ps [] (close_reply ∷ replies)
          (small_pieces ps [] (sym (append-nil ps))) d.next in
      let d' = close_handle-Done replies handle next in
      (
        record {
          sock' = d'.sock';
          run =
              upload_step path bytes chunk handle (ok (length bytes)) _ _ _ _ d.run
                (ap (λ qs. write_pieces handle 0 qs (some d.sock')) (sym (append-nil ps))
                  ∙ (go
                      ∙ (write_pieces_end handle _ _
                          ∙ ap (λ n. ok (ok n, some sock')) (omega (arith, ap length whole)))))
                d'.run;
          next = Talk-spoken d'.next (rw (append_assoc, append_assoc) refl);
        },
        whole,
        most,
      )

  -- If the device answers some piece with another number than its length, `upload` raises for a short
  -- write with both numbers, the later pieces are not sent, and the handle is closed all the same.
  pub upload_short :
      (front back : List (List ℕ)) (bad : List ℕ) (count : ℕ)
      → pieces_of (length bytes) chunk bytes ≡ front ++ (bad ∷ back)
      → (count == length bad) ≡ false
      → count < 2 ^ 32
      → Talk sock
          (create_reply handle ∷ write_replies front (write_reply count ∷ close_reply ∷ replies))
          sent
      → Done
          (upload_chunked path bytes chunk)
          sock
          (err (short_write count (length bad)))
          replies
          (sent ++ upload_requests path handle (front ++ (bad ∷ [])))
  upload_short front back bad count e h k t =
      let d =
        create_file-Done (write_replies front (write_reply count ∷ close_reply ∷ replies)) path
          generic_write 0 create_always handle good small t in
      let (sock', go, next) =
        write_pieces-Talk handle 0 front (bad ∷ back) (write_reply count ∷ close_reply ∷ replies)
          (small_pieces front (bad ∷ back) e) d.next in
      let w = write_file-Done (close_reply ∷ replies) handle count bad k next in
      let d' = close_handle-Done replies handle w.next in
      record {
        sock' = d'.sock';
        run =
            upload_step path bytes chunk handle (err (short_write count (length bad))) _ _ _ _ d.run
              (ap (λ ps. write_pieces handle 0 ps (some d.sock')) e
                ∙ (go ∙ short_write_step handle _ count bad back _ _ h w.run))
              d'.run;
        next = Talk-spoken d'.next (
            rw (append_assoc, append_assoc, append_assoc, write_requests-append, append_assoc)
              refl);
      }
