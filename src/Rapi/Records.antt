-- ===== src/Rapi/Records.antt =====
-- The records of an open database, as a device gives them.
use jornada_link.Common.{
  ℕ, zero, suc, ◌+◌, ◌%◌, ◌^◌, ◌<◌, ◌≤◌, ◌≡◌, map, refl, ap, ◌∙◌, false, Option, none, some, List,
  [], ◌∷◌, ◌++◌, append-nil, append_assoc, length, length-append, All, arith, ◌==◌,
}
use jornada_link.Common.Result.{Result, ok}
use jornada_link.Transport.{Socket}
use jornada_link.Wire.Encode.{u16, u32}
use jornada_link.Wire.Reader.{Reader, advance, read_u32, read_u16}
use jornada_link.Wire.RoundTrip.{
  length-u32, length-u16, Ahead, read_bytes_lem, u32-Ahead, u16-Ahead, read_u16-u16,
}
use jornada_link.Cedb.{Float64, IsExact, PropVal, Record}
use jornada_link.Cedb.Pack.{pack_record}
use jornada_link.Cedb.Unpack.{unpack_record}
use jornada_link.Cedb.RoundTrip.{IsStored, unpack_record-pack_record}
use jornada_link.Rapi.{Client, ◌>>=◌, parse, call_simple}
use jornada_link.Rapi.Constants.{
  rapi_max_frame, cmd_read_record_props, cedb_allowrealloc, error_no_more_items,
}
use jornada_link.Rapi.Databases.{take_if, record_of, read_record, iter_records}
use jornada_link.Rapi.Talk.{
  Talk, Talk-spoken, request, answer, call_simple-Talk, read_u32-small, length-answer,
  length-frames,
}
use jornada_link.Rapi.Files.{rounds}
use jornada_link.Rapi.Replies.{Done}

abbrev record_payload : ℕ → List ℕ
record_payload handle =
    u32 handle ++ (u32 cedb_allowrealloc ++ (u32 0 ++ (u32 0 ++ (u32 0 ++ u16 0))))

abbrev pub record_request : ℕ → List ℕ
record_request handle = request cmd_read_record_props (record_payload handle)

-- A reply with a packed record, and the one after the last record.
abbrev pub record_reply : ℕ → ℕ → List ℕ → List ℕ
record_reply oid count bytes = answer 0 oid (u32 (length bytes) ++ (u16 count ++ bytes))

abbrev pub end_reply : List ℕ
end_reply = answer error_no_more_items 0 (u32 0 ++ (u16 0 ++ []))

module _ {F : Float64} where
  record_step :
      (handle last_error oid size count : ℕ) (bytes : List ℕ) (c c' : Client) (r r1 r2 r3 : Reader)
      → call_simple cmd_read_record_props (record_payload handle) c
        ≡ ok (ok (record { last_error = last_error; return_value = oid; body = r }), c')
      → read_u32 r ≡ ok (size, r1)
      → read_u16 r1 ≡ ok (count, r2)
      → take_if size r2 ≡ ok (bytes, r3)
      → read_record {F = F} handle c
        ≡ record_of {F = F}
            (record { last_error = last_error; return_value = oid; body = r })
            count
            bytes
            c'
  unfolding read_record
  record_step handle last_error oid size count bytes c c' r r1 r2 r3 e f g h =
      rw (e, read_record, ◌>>=◌, parse, f, g, h) refl

  record_of_step :
      (oid last_error count : ℕ) (r : Reader) (bytes : List ℕ) (props : List (PropVal F))
      (c : Client)
      → (oid == 0) ≡ false
      → unpack_record bytes count ≡ ok props
      → record_of (record { last_error = last_error; return_value = oid; body = r }) count bytes c
        ≡ ok (ok (some (record { oid = oid; props = props })), c)
  unfolding record_of
  record_of_step oid last_error count r bytes props c h e = rw (record_of, h, e) refl

  record_of_end :
      (count : ℕ) (r : Reader) (bytes : List ℕ) (c : Client)
      → record_of {F = F}
          (record { last_error = error_no_more_items; return_value = 0; body = r })
          count
          bytes
          c
        ≡ ok (ok none, c)
  unfolding record_of
  record_of_end count r bytes c = refl

take_if_lem :
    {r : Reader} (bytes : List ℕ)
    → Ahead r bytes
    → (r' : Reader) × (take_if (length bytes) r ≡ ok (bytes, r'))
take_if_lem {r} [] h = (r, refl)
take_if_lem {r} (b ∷ bytes) h = (
  advance (length (b ∷ bytes)) r,
  read_bytes_lem (b ∷ bytes) [] (rw (append-nil (b ∷ bytes)) h) (length (b ∷ bytes)) refl,
)

read_u16-small :
    {r : Reader} (v : ℕ) (rest : List ℕ)
    → v < 2 ^ 16
    → Ahead r (u16 v ++ rest)
    → read_u16 r ≡ ok (v, advance 2 r)
read_u16-small {r} v rest small h =
    read_u16-u16 v rest h
    ∙ ap (λ n. ok (n, advance 2 r)) (let e : v % 2 ^ 16 ≡ v = omega arith in e)

-- A record of properties that survive, which a reply can hold in these bytes.
pub record IsAnswer {F : Float64} (found : Record F) (bytes : List ℕ) : Type 0 where
  pub identified : (found.oid == 0) ≡ false
  pub word : found.oid < 2 ^ 32
  pub counted : length found.props < 2 ^ 16
  pub stored : All IsStored found.props
  pub packed : pack_record found.props ≡ ok bytes
  pub fits : length bytes + 18 ≤ rapi_max_frame

-- What the device says of a record, which the reply can hold.
module _ {F : Float64} {sock : Socket} {sent : List ℕ} (replies : List (List ℕ)) where
  reply-Done :
      (handle last_error oid count : ℕ) (bytes : List ℕ) (r : Result _ (Option (Record F)))
      → last_error < 2 ^ 32
      → oid < 2 ^ 32
      → count < 2 ^ 16
      → length bytes + 18 ≤ rapi_max_frame
      → ((body : Reader) (c : Client)
          → record_of
              (record { last_error = last_error; return_value = oid; body = body })
              count
              bytes
              c
            ≡ ok (r, c))
      → Talk sock
          (answer last_error oid (u32 (length bytes) ++ (u16 count ++ bytes)) ∷ replies)
          sent
      → Done (read_record handle) sock r replies (sent ++ record_request handle)
  reply-Done handle last_error oid count bytes r hl ho hc fits end t =
      let body = u32 (length bytes) ++ (u16 count ++ bytes) in
      let s =
        call_simple-Talk cmd_read_record_props last_error oid (record_payload handle) body replies
          hl ho t
          (omega (
            arith,
            length-answer last_error oid body,
            length-append (u32 (length bytes)) (u16 count ++ bytes),
            length-append (u16 count) bytes,
            length-u32 (length bytes),
            length-u16 count,
          )) in
      let second : Ahead (advance 4 s.r) (u16 count ++ bytes) =
        u32-Ahead (length bytes) (u16 count ++ bytes) s.ahead in
      let (r3, got) = take_if_lem bytes (u16-Ahead count bytes second) in
      record {
        sock' = s.sock';
        run =
            record_step handle last_error oid (length bytes) count bytes (some sock) (some s.sock')
              s.r (advance 4 s.r) (advance 2 (advance 4 s.r)) r3 s.called
              (read_u32-small (length bytes) (u16 count ++ bytes) (omega arith) s.ahead)
              (read_u16-small count bytes hc second) got
            ∙ end s.r (some s.sock');
        next = s.next;
      }

  end-Done :
      (handle : ℕ)
      → Talk sock (end_reply ∷ replies) sent
      → Done (read_record {F = F} handle) sock (ok none) replies (sent ++ record_request handle)
  end-Done handle t =
      reply-Done handle error_no_more_items 0 0 [] (ok none) (omega arith) (omega arith)
        (omega arith) (omega arith) (λ body c. record_of_end 0 body [] c) t

  -- A packed record in a reply is the record.
  record-Done :
      (handle : ℕ) (found : Record F) (bytes : List ℕ)
      → IsExact F
      → IsAnswer found bytes
      → Talk sock (record_reply found.oid (length found.props) bytes ∷ replies) sent
      → Done (read_record handle) sock (ok (some found)) replies (sent ++ record_request handle)
  record-Done handle found bytes exact a t =
      reply-Done handle 0 found.oid (length found.props) bytes (ok (some found)) (omega arith)
        a.word a.counted a.fits
        (λ body c.
          record_of_step found.oid 0 (length found.props) body bytes found.props c a.identified (
            unpack_record-pack_record exact found.props bytes a.stored a.packed
              (omega (arith, a.fits))))
        t

abbrev pub Answered : Float64 → Type 0
Answered F = Record F × List ℕ

module _ {F : Float64} where
  abbrev pub record_replies : List (Answered F) → List (List ℕ) → List (List ℕ)
  record_replies [] replies = end_reply ∷ replies
  record_replies ((found, bytes) ∷ later) replies =
      record_reply found.oid (length found.props) bytes ∷ record_replies later replies

  abbrev pub record_requests : ℕ → List (Answered F) → List ℕ
  record_requests handle [] = record_request handle
  record_requests handle (a ∷ later) = record_request handle ++ record_requests handle later

  iter_records_end :
      (fuel handle : ℕ) (c c' : Client)
      → read_record {F = F} handle c ≡ ok (ok none, c')
      → iter_records {F = F} (suc fuel) handle c ≡ ok (ok [], c')
  unfolding iter_records
  iter_records_end fuel handle c c' e = rw (e, iter_records, ◌>>=◌)

  iter_records_step :
      (fuel handle : ℕ) (found : Record F) (later : List (Record F)) (c c' c'' : Client)
      → read_record handle c ≡ ok (ok (some found), c')
      → iter_records fuel handle c' ≡ ok (ok later, c'')
      → iter_records (suc fuel) handle c ≡ ok (ok (found ∷ later), c'')
  unfolding iter_records
  iter_records_step fuel handle found later c c' c'' e f = rw (e, iter_records, ◌>>=◌, f)

  iter_records-Done :
      (fuel handle : ℕ) (answers : List (Answered F)) (replies : List (List ℕ)) {sock : Socket}
      {sent : List ℕ}
      → IsExact F
      → All (λ a. IsAnswer a.0 a.1) answers
      → length answers < fuel
      → Talk sock (record_replies answers replies) sent
      → Done
          (iter_records fuel handle)
          sock
          (ok (map (λ a. a.0) answers))
          replies
          (sent ++ record_requests handle answers)
  iter_records-Done zero handle answers replies exact all h t = absurd (omega arith)
  iter_records-Done (suc fuel) handle [] replies exact all h t =
      let d = end-Done replies handle t in
      record { sock' = d.sock'; run = iter_records_end fuel handle _ _ d.run; next = d.next }
  iter_records-Done (suc fuel) handle ((found, bytes) ∷ later) replies exact (a, all) h t =
      let d = record-Done (record_replies later replies) handle found bytes exact a t in
      let d' = iter_records-Done fuel handle later replies exact all (omega arith) d.next in
      record {
        sock' = d'.sock';
        run = iter_records_step fuel handle found (map (λ a. a.0) later) _ _ _ d.run d'.run;
        next = Talk-spoken d'.next (append_assoc _ (record_request handle) _);
      }

  length-record_replies :
      (answers : List (Answered F)) (replies : List (List ℕ))
      → length answers < length (record_replies answers replies)
  length-record_replies [] replies = omega arith
  length-record_replies (a ∷ later) replies = omega (arith, length-record_replies later replies)

  -- Over doubles that `struct` packs exactly: if the device gives records whose properties hold only
  -- values that their types can hold, packed by `pack_record`, each in a reply within the frame limit
  -- with a non-zero object identifier of 32 bits and fewer than 2 ^ 16 properties, and then says that
  -- there are no more items, `iter_records` gives exactly those records in that order and has sent one
  -- request for each and one more.
  pub iter_records_lem :
      (handle : ℕ) (answers : List (Answered F)) (replies : List (List ℕ)) (sock : Socket)
      (sent : List ℕ)
      → IsExact F
      → All (λ a. IsAnswer a.0 a.1) answers
      → Talk sock (record_replies answers replies) sent
      → Done
          (iter_records (rounds (some sock)) handle)
          sock
          (ok (map (λ a. a.0) answers))
          replies
          (sent ++ record_requests handle answers)
  iter_records_lem handle answers replies sock sent exact all t =
      iter_records-Done (rounds (some sock)) handle answers replies exact all
        (omega (
          arith,
          length-record_replies answers replies,
          length-frames (record_replies answers replies),
          ap length t.ahead,
        ))
        t
