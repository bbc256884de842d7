-- ===== src/Rapi/Examples.antt =====
-- Concrete conversations with a device, for the theorems on the file calls.
use jornada_link.Common.{
  ℕ, ◌≤◌, ◌≡◌, refl, List, [], ◌∷◌, ◌++◌, All, arith, some, length, take, drop,
}
use jornada_link.Common.Result.{ok, err}
use jornada_link.Transport.{Socket, arrived}
use jornada_link.Wire.Encode.{u16, wstr}
use jornada_link.Wire.Utf16.{encode_utf16}
use jornada_link.Cedb.{Record}
use jornada_link.Cedb.Pack.{pack_record, pack_loop, zeros}
use jornada_link.Rapi.Databases.{iter_records}
use jornada_link.Rapi.Records.{IsAnswer, record_replies, record_requests, iter_records_lem}
use jornada_link.Cedb.Samples.{
  one_float, one_float-IsExact, contact, contact-IsStored, contact_bytes,
}
use jornada_link.Rapi.{call, hresult_error, short_write}
use jornada_link.Rapi.Constants.{cmd_delete_file}
use jornada_link.Rapi.Files.{rounds, download, upload_chunked, pieces_of}
use jornada_link.Wire.Encode.{u32, frame}
use jornada_link.Common.Bits.{le_bytes}
use jornada_link.Rapi.Talk.{Talk, frames, call-refused, request}
use jornada_link.Rapi.Replies.{Done, create_reply, close_reply, write_reply}
use jornada_link.Rapi.Download.{joined, read_replies, download_requests, download_lem}
use jornada_link.Rapi.Rounds.Loop.{Loop}
use jornada_link.Rapi.Upload.{write_replies, upload_requests, upload_lem, upload_short}

-- A device whose replies arrive in one chunk.
abbrev device : List (List ℕ) → Socket
unfolding frames frame u32 le_bytes
device replies = record { events = arrived (frames replies) ∷ []; sent = []; send_faults = [] }

abbrev notes : List ℕ
notes = 0x5C ∷ b'a' ∷ []

abbrev two_pieces : List (List ℕ)
two_pieces = (7 ∷ 8 ∷ []) ∷ (9 ∷ []) ∷ []

abbrev download_device : Socket
unfolding frames device
download_device = device (create_reply 5 ∷ read_replies two_pieces (close_reply ∷ []))

download_lem_example :
    Done
      (download notes)
      download_device
      (ok (7 ∷ 8 ∷ 9 ∷ []))
      []
      (download_requests notes 5 two_pieces)
unfolding frames frame u32 le_bytes
download_lem_example =
    download_lem notes 5 two_pieces [] download_device [] refl (omega arith)
      ((omega arith, omega arith), ((omega arith, omega arith), tt))
      (record { quiet = refl; ahead = refl; spoken = refl })

-- Five bytes in chunks of two.
abbrev five : List ℕ
five = 1 ∷ 2 ∷ 3 ∷ 4 ∷ 5 ∷ []

abbrev five_pieces : List (List ℕ)
five_pieces = (1 ∷ 2 ∷ []) ∷ (3 ∷ 4 ∷ []) ∷ (5 ∷ []) ∷ []

abbrev upload_device : Socket
upload_device = device (create_reply 5 ∷ write_replies five_pieces (close_reply ∷ []))

upload_lem_example :
    Done
      (upload_chunked notes five 2)
      upload_device
      (ok 5)
      []
      (upload_requests notes 5 (pieces_of 5 2 five))
    × (joined (pieces_of 5 2 five) ≡ five)
    × All (λ piece. length piece ≤ 2) (pieces_of 5 2 five)
unfolding frames frame u32 le_bytes pieces_of take drop
upload_lem_example =
    upload_lem notes five 2 5 [] upload_device [] (omega arith) (omega arith) refl (omega arith)
      (record { quiet = refl; ahead = refl; spoken = refl })

-- The second piece is written in part.
abbrev short_device : Socket
short_device =
    device (create_reply 5 ∷ write_replies ((1 ∷ 2 ∷ []) ∷ []) (write_reply 1 ∷ close_reply ∷ []))

upload_short_example :
    Done
      (upload_chunked notes five 2)
      short_device
      (err (short_write 1 2))
      []
      (upload_requests notes 5 ((1 ∷ 2 ∷ []) ∷ (3 ∷ 4 ∷ []) ∷ []))
unfolding frames frame u32 le_bytes pieces_of take drop
upload_short_example =
    upload_short notes five 2 5 [] short_device [] (omega arith) (omega arith) refl (omega arith)
      ((1 ∷ 2 ∷ []) ∷ []) ((5 ∷ []) ∷ []) (3 ∷ 4 ∷ []) 1 refl refl (omega arith)
      (record { quiet = refl; ahead = refl; spoken = refl })

-- The device refuses to delete a file.
abbrev refusal : List ℕ
refusal = u32 1 ++ (u32 0x80004005 ++ [])

call-refused_example :
    (sock' : Socket) × (call cmd_delete_file notes (some (device (refusal ∷ [])))
      ≡ ok (err (hresult_error cmd_delete_file 0x80004005), some sock'))
    × Talk sock' [] (request cmd_delete_file notes)
unfolding frames frame u32 le_bytes
call-refused_example =
    call-refused refusal [] cmd_delete_file 0x80004005 notes [] refl (omega arith)
      (record { quiet = refl; ahead = refl; spoken = refl }) (omega arith)

-- One record, and the end.
abbrev one_contact : Record one_float
one_contact = record { oid = 0x3000042; props = contact }

one_contact-IsAnswer : IsAnswer one_contact contact_bytes
unfolding pack_record pack_loop zeros u32 u16 wstr encode_utf16 le_bytes
one_contact-IsAnswer = record {
  identified = refl;
  word = omega arith;
  counted = omega arith;
  stored = contact-IsStored;
  packed = refl;
  fits = omega arith;
}

abbrev contact_device : Socket
contact_device = device (record_replies ((one_contact, contact_bytes) ∷ []) [])

iter_records_lem_example :
    Done
      (iter_records (rounds (some contact_device)) 5)
      contact_device
      (ok (one_contact ∷ []))
      []
      (record_requests 5 ((one_contact, contact_bytes) ∷ []))
unfolding frames frame u32 u16 le_bytes pack_record pack_loop zeros wstr encode_utf16
iter_records_lem_example =
    iter_records_lem 5 ((one_contact, contact_bytes) ∷ []) [] contact_device [] one_float-IsExact
      (one_contact-IsAnswer, tt) (record { quiet = refl; ahead = refl; spoken = refl })
