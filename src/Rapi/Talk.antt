-- ===== src/Rapi/Talk.antt =====
-- A device that answers: every request gets the next reply.
use jornada_link.Common.{
  ℕ, ◌+◌, ◌%◌, ◌^◌, ◌<◌, ◌≤◌, ◌≡◌, refl, ap, ◌∙◌, false, some, List, [], ◌∷◌, ◌++◌, append_assoc,
  drop, length, length-append, arith, ◌==◌,
}
use jornada_link.Common.Result.{ok, err}
use jornada_link.Wire.Encode.{u32, frame}
use jornada_link.Transport.{Event, Socket, recv_u32, recv_frame, send_frame, send_all, exceeds}
use jornada_link.Transport.Exact.{stream, recv_exact-append}
use jornada_link.Wire.Reader.{Reader, reader, advance, read_u32}
use jornada_link.Wire.RoundTrip.{length-u32, from_le-u32, Ahead, read_u32-u32, u32-Ahead}
use jornada_link.Rapi.{◌>>=◌, parse, talk, exchange, call, call_simple, hresult_error}
use jornada_link.Rapi.Constants.{rapi_max_frame}

unfoldable pub frames : List (List ℕ) → List ℕ
frames [] = []
frames (reply ∷ replies) = frame reply ++ frames replies

-- Sending works, the replies are what the stream holds, and so much was sent.
pub record Talk (sock : Socket) (replies : List (List ℕ)) (sent : List ℕ) : Type 0 where
  pub quiet : sock.send_faults ≡ []
  pub ahead : stream sock.events ≡ frames replies
  pub spoken : sock.sent ≡ sent

-- The same with what was sent spelled in another way.
pub Talk-spoken :
    {sock : Socket} {replies : List (List ℕ)} {sent sent' : List ℕ}
    → Talk sock replies sent
    → sent ≡ sent'
    → Talk sock replies sent'
Talk-spoken t e = record { quiet = t.quiet; ahead = t.ahead; spoken = t.spoken ∙ e }

abbrev pub Fits : List ℕ → Type 0
Fits reply = length reply ≤ rapi_max_frame

not_exceeding : (size limit : ℕ) → size ≤ limit → exceeds size (some limit) ≡ false
not_exceeding size limit h = ground arith

recv_frame-frame :
    (sock : Socket) (payload rest : List ℕ)
    → stream sock.events ≡ frame payload ++ rest
    → Fits payload
    → (events : List Event) × (recv_frame (some rapi_max_frame) sock
        ≡ ok (payload, record sock { events = events }))
      × (stream events ≡ rest)
unfolding recv_frame recv_u32 frame
recv_frame-frame sock payload rest e fits =
    let n = length payload in
    let split : stream sock.events ≡ u32 n ++ (payload ++ rest) =
      e ∙ append_assoc (u32 n) payload rest in
    let (events, got, left) =
      recv_exact-append 4 sock (u32 n) (payload ++ rest) split (length-u32 n) in
    let (events', got', left') =
      recv_exact-append n (record sock { events = events }) payload rest left refl in
    (
      events',
      rw (got, from_le-u32 n (omega (arith, fits)), not_exceeding n rapi_max_frame fits) got',
      left',
    )

reader-Ahead : (reply bytes : List ℕ) → reply ≡ bytes → Ahead (reader reply 0) bytes
unfolding drop
reader-Ahead reply bytes e = record { inside = omega arith; rest = e }

-- What the client sends for a command.
abbrev pub request : ℕ → List ℕ → List ℕ
request command payload = frame (u32 command ++ payload)

-- The reply to a call that is not refused.
abbrev pub answer : ℕ → ℕ → List ℕ → List ℕ
answer last_error return_value body = u32 0 ++ (u32 last_error ++ (u32 return_value ++ body))

send_frame-quiet :
    (message : List ℕ) (sock : Socket)
    → sock.send_faults ≡ []
    → send_frame message sock ≡ ok (record sock { sent = sock.sent ++ frame message })
unfolding send_frame send_all
send_frame-quiet message sock quiet = ground arith

-- The steps of a call, each over what the one before came to.
exchange_step :
    (message reply : List ℕ) (sock sock' sock'' : Socket)
    → send_frame message sock ≡ ok sock'
    → recv_frame (some rapi_max_frame) sock' ≡ ok (reply, sock'')
    → exchange message (some sock) ≡ ok (ok reply, some sock'')
unfolding exchange talk
exchange_step message reply sock sock' sock'' e f = rw (exchange, talk, e, f) refl

call_step :
    (command result : ℕ) (payload reply : List ℕ) (sock sock' : Socket) (r : Reader)
    → exchange (u32 command ++ payload) (some sock) ≡ ok (ok reply, some sock')
    → read_u32 (reader reply 0) ≡ ok (result, r)
    → (result == 1) ≡ false
    → call command payload (some sock) ≡ ok (ok r, some sock')
unfolding call
call_step command result payload reply sock sock' r e f g = rw (e, call, ◌>>=◌, parse, f, g)

refused_step :
    (command hresult : ℕ) (payload reply : List ℕ) (sock sock' : Socket) (r r' : Reader)
    → exchange (u32 command ++ payload) (some sock) ≡ ok (ok reply, some sock')
    → read_u32 (reader reply 0) ≡ ok (1, r)
    → read_u32 r ≡ ok (hresult, r')
    → call command payload (some sock) ≡ ok (err (hresult_error command hresult), some sock')
unfolding call
refused_step command hresult payload reply sock sock' r r' e f g = rw (e, call, ◌>>=◌, parse, f, g)

simple_step :
    (command last_error return_value : ℕ) (payload : List ℕ) (sock sock' : Socket)
    (r r' r'' : Reader)
    → call command payload (some sock) ≡ ok (ok r, some sock')
    → read_u32 r ≡ ok (last_error, r')
    → read_u32 r' ≡ ok (return_value, r'')
    → call_simple command payload (some sock)
      ≡ ok (
        ok (record { last_error = last_error; return_value = return_value; body = r'' }),
        some sock',
      )
unfolding call_simple
simple_step command last_error return_value payload sock sock' r r' r'' e f g =
    rw (e, call_simple, ◌>>=◌, parse, f, g)

-- A word below 2 ^ 32 is read as it is.
pub read_u32-small :
    {r : Reader} (v : ℕ) (rest : List ℕ)
    → v < 2 ^ 32
    → Ahead r (u32 v ++ rest)
    → read_u32 r ≡ ok (v, advance 4 r)
read_u32-small {r} v rest small h =
    read_u32-u32 v rest h
    ∙ ap (λ n. ok (n, advance 4 r)) (let e : v % 2 ^ 32 ≡ v = omega arith in e)

module _ {sock : Socket} {sent : List ℕ} (reply : List ℕ) (replies : List (List ℕ)) where
  pub exchange-Talk :
      (message : List ℕ)
      → Talk sock (reply ∷ replies) sent
      → Fits reply
      → (sock' : Socket) × (exchange message (some sock) ≡ ok (ok reply, some sock'))
        × Talk sock' replies (sent ++ frame message)
  unfolding exchange talk send_frame send_all frames
  exchange-Talk message t fits =
      let (events, got, left) =
        recv_frame-frame (record sock { sent = sock.sent ++ frame message }) reply (frames replies)
          t.ahead fits in
      (
        record sock { sent = sock.sent ++ frame message; events = events },
        exchange_step message reply sock (record sock { sent = sock.sent ++ frame message })
            (record sock { sent = sock.sent ++ frame message; events = events })
            (send_frame-quiet message sock t.quiet) got,
        record { quiet = t.quiet; ahead = left; spoken = ap (λ s. s ++ frame message) t.spoken },
      )

  -- A call whose reply starts with another word than 1 gets what follows that word.
  pub call-Talk :
      (command result : ℕ) (payload body : List ℕ)
      → reply ≡ u32 result ++ body
      → (result == 1) ≡ false
      → result < 2 ^ 32
      → Talk sock (reply ∷ replies) sent
      → Fits reply
      → (r : Reader) × (sock' : Socket) × (call command payload (some sock) ≡ ok (ok r, some sock'))
        × Ahead r body
        × Talk sock' replies (sent ++ request command payload)
  unfolding call
  call-Talk command result payload body e other small t fits =
      let (sock', got, next) = exchange-Talk (u32 command ++ payload) t fits in
      let start : Ahead (reader reply 0) (u32 result ++ body) =
        reader-Ahead reply (u32 result ++ body) e in
      (
        advance 4 (reader reply 0),
        sock',
        call_step command result payload reply sock sock' (advance 4 (reader reply 0)) got
            (read_u32-small result body small start) other,
        u32-Ahead result body start,
        next,
      )

  -- A refused call raises with the HRESULT, and the socket stays in step.
  pub call-refused :
      (command hresult : ℕ) (payload body : List ℕ)
      → reply ≡ u32 1 ++ (u32 hresult ++ body)
      → hresult < 2 ^ 32
      → Talk sock (reply ∷ replies) sent
      → Fits reply
      → (sock' : Socket) × (call command payload (some sock)
          ≡ ok (err (hresult_error command hresult), some sock'))
        × Talk sock' replies (sent ++ request command payload)
  unfolding call
  call-refused command hresult payload body e small t fits =
      let (sock', got, next) = exchange-Talk (u32 command ++ payload) t fits in
      let start : Ahead (reader reply 0) (u32 1 ++ (u32 hresult ++ body)) =
        reader-Ahead reply _ e in
      (
        sock',
        refused_step command hresult payload reply sock sock' (advance 4 (reader reply 0))
            (advance 4 (advance 4 (reader reply 0))) got
            (read_u32-small 1 (u32 hresult ++ body) (omega arith) start)
            (read_u32-small hresult body small (u32-Ahead 1 (u32 hresult ++ body) start)),
        next,
      )

-- The outcome of a call of `_call_simple` that is answered.
pub record SimpleCall (command : ℕ) (payload : List ℕ) (sock : Socket) (last_error return_value : ℕ)
    (body : List ℕ) (replies : List (List ℕ)) (sent : List ℕ) : Type 0 where
  pub r : Reader
  pub sock' : Socket
  pub called :
      call_simple command payload (some sock)
      ≡ ok (
        ok (record { last_error = last_error; return_value = return_value; body = r }),
        some sock',
      )
  pub ahead : Ahead r body
  pub next : Talk sock' replies (sent ++ request command payload)

pub call_simple-Talk :
    {sock : Socket} {sent : List ℕ}
    → (command last_error return_value : ℕ) (payload body : List ℕ) (replies : List (List ℕ))
    → last_error < 2 ^ 32
    → return_value < 2 ^ 32
    → Talk sock (answer last_error return_value body ∷ replies) sent
    → Fits (answer last_error return_value body)
    → SimpleCall command payload sock last_error return_value body replies sent
unfolding call_simple
call_simple-Talk command last_error return_value payload body replies hl hr t fits =
    let (r, sock', got, start, next) =
      call-Talk (answer last_error return_value body) replies command 0 payload
        (u32 last_error ++ (u32 return_value ++ body)) refl refl (omega arith) t fits in
    let second : Ahead (advance 4 r) (u32 return_value ++ body) = u32-Ahead last_error _ start in
    record {
      r = advance 4 (advance 4 r);
      sock' = sock';
      called =
          simple_step command last_error return_value payload _ sock' r (advance 4 r)
            (advance 4 (advance 4 r)) got (read_u32-small last_error _ hl start)
            (read_u32-small return_value body hr second);
      ahead = u32-Ahead return_value body second;
      next = next;
    }

pub length-answer :
    (last_error return_value : ℕ) (body : List ℕ)
    → length (answer last_error return_value body) ≡ 12 + length body
length-answer last_error return_value body = omega (
  arith,
  length-append (u32 0) (u32 last_error ++ (u32 return_value ++ body)),
  length-append (u32 last_error) (u32 return_value ++ body),
  length-append (u32 return_value) body,
  length-u32 0,
  length-u32 last_error,
  length-u32 return_value,
)

-- A frame takes four bytes of the stream at least.
pub length-frames : (replies : List (List ℕ)) → length replies ≤ length (frames replies)
unfolding frames frame
length-frames [] = omega arith
length-frames (reply ∷ replies) = omega (
  arith,
  length-frames replies,
  length-append (frame reply) (frames replies),
  length-append (u32 (length reply)) reply,
  length-u32 (length reply),
)
