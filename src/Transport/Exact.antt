-- ===== src/Transport/Exact.antt =====
-- How the bytes are cut into chunks does not matter to `recv_exact`.
use jornada_link.Common.{
  ℕ, zero, suc, ◌+◌, ◌-◌, ◌<◌, ◌≤◌, ◌≡◌, ◌∙◌, refl, ap, sym, List, [], ◌∷◌, ◌++◌, take, drop,
  length, length-append, length-drop, length-take, take-drop, append_assoc, take-length-append,
  drop-length-append, Bool-cases, inl, inr, ◌⊎◌, arith, leb,
}
use jornada_link.Common.Result.{ok, err}
use jornada_link.Transport.{
  TransportError, timed_out, closed, Event, arrived, timeout, Socket, nothing, late, recv,
  recv_loop, recv_exact, bytes,
}

-- Everything that arrives before a timeout or an empty read ends the stream.
abbrev pub stream : List Event → List ℕ
stream [] = []
stream (timeout ∷ events) = []
stream (arrived [] ∷ events) = []
stream (arrived (b ∷ chunk) ∷ events) = (b ∷ chunk) ++ stream events

abbrev Got : ℕ → List Event → List ℕ × List Event → Type 0
Got n events (got, rest) = (got ++ stream rest ≡ stream events) × (length got ≡ n)

stream-arrived :
    (chunk : List ℕ) (events : List Event)
    → 0 < length chunk
    → stream (arrived chunk ∷ events) ≡ chunk ++ stream events
stream-arrived [] events h = absurd (omega arith)
stream-arrived (b ∷ chunk) events h = refl

cut :
    (n : ℕ) (chunk : List ℕ) (events : List Event)
    → n < length chunk
    → take n chunk ++ stream (arrived (drop n chunk) ∷ events) ≡ chunk ++ stream events
cut n chunk events h = rw (
  stream-arrived (drop n chunk) events (omega (arith, length-drop n chunk (omega arith))),
  ← append_assoc,
  take-drop n chunk,
)

length-cut :
    (n : ℕ) (chunk : List ℕ) (events : List Event)
    → n < length chunk
    → length (take n chunk) + length (stream (arrived (drop n chunk) ∷ events))
      ≡ length (stream (arrived chunk ∷ events))
length-cut n chunk events h =
    rw (stream-arrived chunk events (omega arith), ← cut n chunk events h)
      (sym (length-append (take n chunk) _))

-- One `recv` on a stream that has a byte brings some bytes, at most `n`, from the front of it.
recv_lem :
    (n : ℕ) (events : List Event)
    → 0 < n
    → 0 < length (stream events)
    → (chunk : List ℕ) × (rest : List Event) × (recv n events ≡ bytes chunk rest)
      × (chunk ++ stream rest ≡ stream events)
      × (length chunk ≤ n)
      × (0 < length chunk)
unfolding recv
recv_lem n [] h s = absurd (omega arith)
recv_lem n (timeout ∷ events) h s = absurd (omega arith)
recv_lem n (arrived [] ∷ events) h s = absurd (omega arith)
recv_lem n (arrived (b ∷ chunk) ∷ events) h s = elim (Bool-cases (leb (length (b ∷ chunk)) n)) [
  | inl e ↦ (b ∷ chunk, events, rw e, refl, ground arith, omega arith)
  | inr e ↦
      let shorter : n < length (b ∷ chunk) = ground arith in
      let size : length (take n (b ∷ chunk)) ≡ n = length-take n (b ∷ chunk) (omega arith) in
      (
        take n (b ∷ chunk),
        arrived (drop n (b ∷ chunk)) ∷ events,
        rw e,
        cut n (b ∷ chunk) events shorter,
        omega (arith, size),
        omega (arith, size),
      )
]

recv_loop_step :
    (fuel n : ℕ) (events rest last : List Event) (chunk more : List ℕ)
    → recv (suc n) events ≡ bytes chunk rest
    → recv_loop fuel (suc n - length chunk) rest ≡ ok (more, last)
    → recv_loop (suc fuel) (suc n) events ≡ ok (chunk ++ more, last)
unfolding recv_loop
recv_loop_step fuel n events rest last chunk more e e' = rw (e, recv_loop, e')

recv_loop_lem :
    (fuel n : ℕ) (events : List Event)
    → n ≤ fuel
    → n ≤ length (stream events)
    → (got : List ℕ) × (rest : List Event) × (recv_loop fuel n events ≡ ok (got, rest))
      × (got ++ stream rest ≡ stream events)
      × (length got ≡ n)
unfolding recv_loop
recv_loop_lem zero zero events f s = ([], events, refl, refl, refl)
recv_loop_lem (suc fuel) zero events f s = ([], events, refl, refl, refl)
recv_loop_lem zero (suc n) events f s = absurd (omega arith)
recv_loop_lem (suc fuel) (suc n) events f s =
    let (chunk, rest, e, split, most, least) =
      recv_lem (suc n) events (omega arith) (omega arith) in
    let left : length chunk + length (stream rest) ≡ length (stream events) =
      (rw (length-append chunk (stream rest)) at (ap length split)) in
    let (more, last, e', split', size) =
      recv_loop_lem fuel (suc n - length chunk) rest (omega arith) (omega arith) in
    (
      chunk ++ more,
      last,
      recv_loop_step fuel n events rest last chunk more e e',
      rw (append_assoc, split', split),
      omega (arith, length-append chunk more),
    )

front_back :
    (n : ℕ) (front back whole : List ℕ)
    → front ++ back ≡ whole
    → length front ≡ n
    → (front ≡ take n whole) × (back ≡ drop n whole)
front_back n front back whole e h =
    rw (← e, ← h) (sym (take-length-append front back), sym (drop-length-append front back))

-- If the stream holds the bytes that are asked for, `recv_exact` returns as many as asked, the first
-- of the stream, and leaves the rest of the stream and what was sent as they were. How the peer's
-- bytes are cut into chunks shows in neither.
pub recv_exact_lem :
    (size : ℕ) (sock : Socket)
    → size ≤ length (stream sock.events)
    → (rest : List Event) × (recv_exact size sock
        ≡ ok (take size (stream sock.events), record sock { events = rest }))
      × (stream rest ≡ drop size (stream sock.events))
unfolding recv_exact
recv_exact_lem size sock h =
    let (got, rest, e, split, n) = recv_loop_lem size size sock.events (omega arith) h in
    let (front, back) = front_back size got (stream rest) (stream sock.events) split n in
    (rest, rw (e, ← front), back)

-- The same for a stream that is known to begin with some bytes.
pub recv_exact-append :
    (size : ℕ) (sock : Socket) (xs ys : List ℕ)
    → stream sock.events ≡ xs ++ ys
    → length xs ≡ size
    → (rest : List Event) × (recv_exact size sock ≡ ok (xs, record sock { events = rest }))
      × (stream rest ≡ ys)
recv_exact-append size sock xs ys e n =
    let whole : size ≤ length (stream sock.events) =
      omega (arith, ap length e, length-append xs ys) in
    let (rest, got, after) = recv_exact_lem size sock whole in
    let (front, back) = front_back size xs ys (stream sock.events) (sym e) n in
    (rest, got ∙ ap (λ zs. ok (zs, record sock { events = rest })) (sym front), after ∙ sym back)

recv_cases :
    (n : ℕ) (events : List Event)
    → (recv n events ≡ late)
      ⊎ (recv n events ≡ nothing)
      ⊎ ((chunk : List ℕ) × (rest : List Event) × (recv n events ≡ bytes chunk rest)
          × (length chunk + length (stream rest) ≡ length (stream events)))
unfolding recv
recv_cases n [] = inr (inl refl)
recv_cases n (timeout ∷ events) = inl refl
recv_cases n (arrived [] ∷ events) = inr (inl refl)
recv_cases n (arrived (b ∷ chunk) ∷ events) = elim (Bool-cases (leb (length (b ∷ chunk)) n)) [
  | inl e ↦
      inr (inr (b ∷ chunk, events, rw e, omega (arith, length-append (b ∷ chunk) (stream events))))
  | inr e ↦ inr (
      inr (
        take n (b ∷ chunk),
        arrived (drop n (b ∷ chunk)) ∷ events,
        rw e,
        length-cut n (b ∷ chunk) events (ground arith),
      ))
]

recv_loop_short :
    (fuel n : ℕ) (events : List Event)
    → length (stream events) < n
    → (e : TransportError) × (recv_loop fuel n events ≡ err e)
unfolding recv_loop
recv_loop_short zero zero events h = absurd (omega arith)
recv_loop_short (suc fuel) zero events h = absurd (omega arith)
recv_loop_short zero (suc n) events h = (closed (suc n), refl)
recv_loop_short (suc fuel) (suc n) events h = elim (recv_cases (suc n) events) [
  | inl e ↦ (timed_out (suc n), rw (e, recv_loop))
  | inr (inl e) ↦ (closed (suc n), rw (e, recv_loop))
  | inr (inr (chunk, rest, e, split)) ↦
      let (error, e') = recv_loop_short fuel (suc n - length chunk) rest (omega arith) in
      (error, rw (e, recv_loop, e'))
]

-- If the stream is too short, `recv_exact` raises: it never returns fewer bytes than asked.
pub recv_exact_short :
    (size : ℕ) (sock : Socket)
    → length (stream sock.events) < size
    → (e : TransportError) × (recv_exact size sock ≡ err e)
unfolding recv_exact
recv_exact_short size sock h =
    let (error, e) = recv_loop_short size size sock.events h in (error, rw e)
