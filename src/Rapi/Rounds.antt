-- ===== src/Rapi/Rounds.antt =====
-- Why the rounds of a download are enough: each call takes bytes from the stream.
pub mod Loop
pub mod Databases
use jornada_link.Common.{
  ℕ, zero, suc, ◌+◌, ◌<◌, ◌≤◌, ◌≡◌, refl, sym, ap, ◌∙◌, Bool, true, false, Option, none, some, List,
  [], ◌∷◌, ◌++◌, length, length-drop, drop, leb, leb→le, arith, Bool-cases, inl, inr, ◌==◌,
  if◌then◌else◌,
}
use jornada_link.Common.Result.{Result, ok, err, same_ok, no_ok}
use jornada_link.Common.Result as Outcome
use jornada_link.Wire.Encode.{u32, optional_in, optional_out}
use jornada_link.Wire.Reader.{WireError, Reader, Read, reader, read_u32, read_bytes}
use jornada_link.Transport.{
  TransportError, Socket, recv_exact, recv_u32, recv_frame, send_frame, send_all, exceeds,
}
use jornada_link.Transport.Exact.{stream, recv_exact_lem, recv_exact_short}
use jornada_link.Rapi.{
  Client, Call, RapiError, ◌>>=◌, parse, talk, exchange, call, call_simple, check_bool, pure, raise,
  malformed, not_connected,
}
use jornada_link.Rapi.Constants.{rapi_max_frame, cmd_read_file}
use jornada_link.Rapi.Files.{read_file, read_pieces}

-- The bytes that are still to come.
abbrev pub left : Client → ℕ
left none = 0
left (some sock) = length (stream sock.events)

exact_uses :
    (n : ℕ) (sock sock' : Socket) (got : List ℕ)
    → recv_exact n sock ≡ ok (got, sock')
    → left (some sock') + n ≤ left (some sock)
exact_uses n sock sock' got h = elim (Bool-cases (leb n (length (stream sock.events)))) [
  | inl e ↦
      let (rest, run, after) = recv_exact_lem n sock (leb→le n (length (stream sock.events)) e) in
      let same = same_ok _ _ (sym run ∙ h) in
      let there : length (stream sock'.events) ≡ length (drop n (stream sock.events)) =
        sym (ap (λ p. length (stream (p.1.events))) same) ∙ ap length after in
      omega (arith, there, length-drop n (stream sock.events) (ground arith))
  | inr e ↦
      let (x, run) = recv_exact_short n sock (ground arith) in
      absurd (let wrong = no_ok (got, sock') x (sym run ∙ h) in omega arith)
]

result_bind :
    {E A B : Type 0} (r : Result E A) (f : A → Result E B) (b : B)
    → Outcome.◌>>=◌ r f ≡ ok b
    → (a : A) × (r ≡ ok a) × (f a ≡ ok b)
result_bind (ok a) f b h = (a, refl, h)
result_bind (err e) f b h = absurd (let wrong = no_ok b e h in omega arith)

frame_uses :
    (limit : Option ℕ) (sock sock' : Socket) (payload : List ℕ)
    → recv_frame limit sock ≡ ok (payload, sock')
    → left (some sock') + 4 ≤ left (some sock)
unfolding recv_frame recv_u32
frame_uses limit sock sock' payload h =
    let (p, e, f) = result_bind (recv_u32 sock) _ (payload, sock') h in
    let (q, g, k) = result_bind (recv_exact 4 sock) _ p e in
    let first = exact_uses 4 sock q.1 q.0 g in
    let same : left (some q.1) ≡ left (some p.1) = ap (λ r. left (some r.1)) (same_ok _ _ k) in
    elim (Bool-cases (exceeds p.0 limit)) [
      | inl over ↦ absurd (let wrong = no_ok _ _ (rw over at f) in omega arith)
      | inr fits ↦ omega (arith, first, same, exact_uses p.0 p.1 sock' payload (rw fits at f))
    ]

send_keeps :
    (message : List ℕ) (sock sock' : Socket)
    → send_frame message sock ≡ ok sock'
    → left (some sock') ≡ left (some sock)
unfolding send_frame send_all
send_keeps message sock sock' h = ground arith

-- A method that takes four bytes from the stream where it succeeds, and one that takes none or more.
abbrev pub Uses : {A : Type 0} → Call A → Type 0
Uses {A} m = (c c' : Client) (a : A) → m c ≡ ok (ok a, c') → left c' + 4 ≤ left c

abbrev pub Keeps : {A : Type 0} → Call A → Type 0
Keeps {A} m = (c c' : Client) (a : A) → m c ≡ ok (ok a, c') → left c' ≤ left c

module _ {A B : Type 0} where
  bind_parts :
      (f : A → Call B) (r : Result TransportError (Result RapiError A × Client)) (c' : Client)
      (b : B)
      → Path
          (Result TransportError (Result RapiError B × Client))
          (elim r [
            | err e ↦ err e
            | ok (r', c') ↦ elim r' [ err e ↦ ok (err e, c') | ok a ↦ f a c' ]
          ])
          (ok (ok b, c'))
      → (a : A) × (c1 : Client) × (r ≡ ok (ok a, c1)) × (f a c1 ≡ ok (ok b, c'))
  bind_parts f (err e) c' b h = absurd (let wrong = no_ok _ e h in omega arith)
  bind_parts f (ok (err e, c1)) c' b h =
      absurd (let wrong = no_ok b e (ap (λ p. p.0) (same_ok _ _ h)) in omega arith)
  bind_parts f (ok (ok a, c1)) c' b h = (a, c1, refl, h)

  pub Uses-bind : (m : Call A) (f : A → Call B) → Uses m → ((a : A) → Keeps (f a)) → Uses (m >>= f)
  Uses-bind m f hm hf c c' b h =
      let (a, c1, e, k) = bind_parts f (m c) c' b h in omega (arith, hm c c1 a e, hf a c1 c' b k)

  pub Keeps-bind :
      (m : Call A) (f : A → Call B) → Keeps m → ((a : A) → Keeps (f a)) → Keeps (m >>= f)
  Keeps-bind m f hm hf c c' b h =
      let (a, c1, e, k) = bind_parts f (m c) c' b h in omega (arith, hm c c1 a e, hf a c1 c' b k)

same_result :
    {A : Type 0} (a b : A) (c c' : Client)
    → Path (Result TransportError (Result RapiError A × Client)) (ok (ok a, c)) (ok (ok b, c'))
    → c ≡ c'
same_result a b c c' h = ap (λ p. p.1) (same_ok _ _ h)

raised :
    {A : Type 0} (e : RapiError) (b : A) (c c' : Client)
    → Path (Result TransportError (Result RapiError A × Client)) (ok (err e, c)) (ok (ok b, c'))
    → zero ≡ suc zero
raised e b c c' h = no_ok b e (ap (λ p. p.0) (same_ok _ _ h))

failed :
    {A : Type 0} (e : TransportError) (b : A) (c' : Client)
    → Path (Result TransportError (Result RapiError A × Client)) (err e) (ok (ok b, c'))
    → zero ≡ suc zero
failed e b c' h = no_ok (ok b, c') e h

parse_parts :
    {A : Type 0} (read : Result WireError (A × Reader)) (c c' : Client) (p : A × Reader)
    → Path
        (Result TransportError (Result RapiError (A × Reader) × Client))
        (elim read [ err e ↦ ok (err (malformed e), c) | ok p ↦ ok (ok p, c) ])
        (ok (ok p, c'))
    → left c' ≤ left c
parse_parts (err e) c c' p h = absurd (let wrong = raised (malformed e) p c c' h in omega arith)
parse_parts (ok q) c c' p h = omega (arith, ap left (same_result q p c c' h))

pub Keeps-parse : {A : Type 0} (m : Read A) (r : Reader) → Keeps (parse m r)
Keeps-parse m r c c' p h = parse_parts (m r) c c' p h

pub Keeps-pure : {A : Type 0} (a : A) → Keeps (pure a)
Keeps-pure a c c' b h = omega (arith, ap left (same_result a b c c' h))

pub Keeps-raise : {A : Type 0} (e : RapiError) → Keeps {A = A} (raise e)
Keeps-raise e c c' b h = absurd (let wrong = raised e b c c' h in omega arith)

pub Keeps-if :
    {A : Type 0} (t : Bool) (m n : Call A) → Keeps m → Keeps n → Keeps (if t then m else n)
Keeps-if true m n hm hn = hm
Keeps-if false m n hm hn = hn

talk_parts :
    (r : Result TransportError Socket) (sock' : Socket) (reply : List ℕ)
    → Path
        (Result TransportError (List ℕ × Socket))
        (elim r [ err e ↦ err e | ok sock1 ↦ recv_frame (some rapi_max_frame) sock1 ])
        (ok (reply, sock'))
    → (sock1 : Socket) × (r ≡ ok sock1)
      × (recv_frame (some rapi_max_frame) sock1 ≡ ok (reply, sock'))
talk_parts (err e) sock' reply h = absurd (let wrong = no_ok (reply, sock') e h in omega arith)
talk_parts (ok sock1) sock' reply h = (sock1, refl, h)

talk_uses :
    (request reply : List ℕ) (sock sock' : Socket)
    → talk request sock ≡ ok (reply, sock')
    → left (some sock') + 4 ≤ left (some sock)
unfolding talk
talk_uses request reply sock sock' h =
    let (sock1, e, f) = talk_parts (send_frame request sock) sock' reply h in
    omega
      (arith, send_keeps request sock sock1 e, frame_uses (some rapi_max_frame) sock1 sock' reply f)

exchange_parts :
    (sock : Socket) (r : Result TransportError (List ℕ × Socket)) (c' : Client) (reply : List ℕ)
    → Path
        (Result TransportError (Result RapiError (List ℕ) × Client))
        (elim r [ err e ↦ err e | ok (reply, sock') ↦ ok (ok reply, some sock') ])
        (ok (ok reply, c'))
    → (got : List ℕ) × (sock' : Socket) × (r ≡ ok (got, sock')) × (some sock' ≡ c')
exchange_parts sock (err e) c' reply h = absurd (let wrong = failed e reply c' h in omega arith)
exchange_parts sock (ok (got, sock')) c' reply h =
    (got, sock', refl, same_result got reply (some sock') c' h)

exchange-Uses : (request : List ℕ) → Uses (exchange request)
unfolding exchange
exchange-Uses request none c' reply h =
    absurd (let wrong = raised not_connected reply none c' h in omega arith)
exchange-Uses request (some sock) c' reply h =
    let (got, sock', e, same) = exchange_parts sock (talk request sock) c' reply h in
    omega (arith, talk_uses request got sock sock' e, ap left same)

call-Uses : (command : ℕ) (payload : List ℕ) → Uses (call command payload)
unfolding call
call-Uses command payload =
    Uses-bind (exchange (u32 command ++ payload)) _ (exchange-Uses (u32 command ++ payload))
      (λ reply.
        Keeps-bind (parse read_u32 (reader reply 0)) _ (Keeps-parse read_u32 (reader reply 0)) (λ p.
          Keeps-if (p.0 == 1) _ _
            (Keeps-bind (parse read_u32 p.1) _ (Keeps-parse read_u32 p.1) (λ q. Keeps-raise _))
            (Keeps-pure p.1)))

pub call_simple-Uses : (command : ℕ) (payload : List ℕ) → Uses (call_simple command payload)
unfolding call_simple
call_simple-Uses command payload =
    Uses-bind (call command payload) _ (call-Uses command payload) (λ r.
      Keeps-bind (parse read_u32 r) _ (Keeps-parse read_u32 r)
        (λ p. Keeps-bind (parse read_u32 p.1) _ (Keeps-parse read_u32 p.1) (λ q. Keeps-pure _)))

pub read_file-Uses : (handle size : ℕ) → Uses (read_file handle size)
unfolding read_file check_bool
read_file-Uses handle size =
    Uses-bind
      (call_simple cmd_read_file (u32 handle ++ (optional_out (some size) ++ optional_in none))) _
      (call_simple-Uses cmd_read_file _)
      (λ reply.
        Keeps-bind (check_bool reply) _
          (Keeps-if (reply.return_value == 0) _ _ (Keeps-raise _) (Keeps-pure tt))
          (λ done. Keeps-bind (parse read_u32 reply.body) _ (Keeps-parse read_u32 reply.body) (λ p.
            Keeps-bind (parse (read_bytes p.0) p.1) _ (Keeps-parse (read_bytes p.0) p.1)
              (λ q. Keeps-pure q.0))))
