-- ===== src/Rapi/Rounds/Loop.antt =====
-- The loop of `iter_download` (jornada/rapi.py) as it stands in the source, without a number of rounds.
use jornada_link.Common.{ℕ, zero, suc, ◌<◌, ◌≡◌, refl, none, some, ap, List, [], ◌∷◌, ◌++◌, arith}
use jornada_link.Common.Result.{Result, ok, err}
use jornada_link.Transport.{TransportError}
use jornada_link.Rapi.{Client, RapiError, ◌>>=◌}
use jornada_link.Rapi.Files.{read_file, read_pieces, rounds}
use jornada_link.Rapi.Rounds.{left, read_file-Uses}

-- What a loop comes to: the transport has failed, or the pieces or what was raised, with the client.
abbrev pub Outcome : Type 0
Outcome = Result TransportError (Result RapiError (List ℕ) × Client)

-- A piece that was yielded before the rest of the loop.
abbrev pub yielded : List ℕ → Outcome → Outcome
yielded piece (err e) = err e
yielded piece (ok (err e, c)) = ok (err e, c)
yielded piece (ok (ok later, c)) = ok (ok (piece ++ later), c)

-- `while True: data = self.read_file(handle, chunk)`, from a client to an outcome: `if not data: break`,
-- an exception of `read_file`, or `yield data` and the loop from the client that it left.
pub data Loop (handle chunk : ℕ) : Client → Outcome → Type 0 where
  breaks :
      {c c' : Client}
      → read_file handle chunk c ≡ ok (ok [], c')
      → Loop handle chunk c (ok (ok [], c'))
  raises :
      {c c' : Client} {e : RapiError}
      → read_file handle chunk c ≡ ok (err e, c')
      → Loop handle chunk c (ok (err e, c'))
  loses :
      {c : Client} {e : TransportError}
      → read_file handle chunk c ≡ err e
      → Loop handle chunk c (err e)
  yields :
      {c c' : Client} {b : ℕ} {bytes : List ℕ} {outcome : Outcome}
      → read_file handle chunk c ≡ ok (ok (b ∷ bytes), c')
      → Loop handle chunk c' outcome
      → Loop handle chunk c (yielded (b ∷ bytes) outcome)

-- The stream holds fewer bytes than there are rounds.
pub rounds_enough : (c : Client) → left c < rounds c
rounds_enough none = omega arith
rounds_enough (some sock) = omega arith

module _ (handle chunk : ℕ) where
  joined-yielded :
      (b : ℕ) (bytes : List ℕ) (c : Client) (outcome : Outcome)
      → Path Outcome
          (elim outcome [
            | err e ↦ err e
            | ok (r, c') ↦ elim r [
              | err e ↦ ok (err e, c')
              | ok later ↦ ok (ok ((b ∷ bytes) ++ later), c')
            ]
          ])
          (yielded (b ∷ bytes) outcome)
  joined-yielded b bytes c (err e) = refl
  joined-yielded b bytes c (ok (err e, c')) = refl
  joined-yielded b bytes c (ok (ok later, c')) = refl

  -- A round that yields a piece.
  read_pieces-yields :
      (fuel : ℕ) (c c' : Client) (b : ℕ) (bytes : List ℕ)
      → read_file handle chunk c ≡ ok (ok (b ∷ bytes), c')
      → read_pieces (suc fuel) handle chunk c
        ≡ yielded (b ∷ bytes) (read_pieces fuel handle chunk c')
  unfolding read_pieces
  read_pieces-yields fuel c c' b bytes h =
      rw (h, read_pieces, ◌>>=◌) (joined-yielded b bytes c' (read_pieces fuel handle chunk c'))

  -- The loop comes to nothing else.
  Loop-read_pieces :
      {c : Client} {outcome : Outcome} (fuel : ℕ)
      → Loop handle chunk c outcome
      → left c < fuel
      → read_pieces fuel handle chunk c ≡ outcome
  unfolding read_pieces
  Loop-read_pieces zero run h = absurd (omega arith)
  Loop-read_pieces (suc fuel) (breaks e) h = rw (e, read_pieces, ◌>>=◌) refl
  Loop-read_pieces (suc fuel) (raises e) h = rw (e, read_pieces, ◌>>=◌) refl
  Loop-read_pieces (suc fuel) (loses e) h = rw (e, read_pieces, ◌>>=◌) refl
  Loop-read_pieces {c} (suc fuel) (yields {c' = c'} {b = b} {bytes = bytes} e run) h =
      let less = read_file-Uses handle chunk c c' (b ∷ bytes) e in
      rw (read_pieces-yields fuel c c' b bytes e)
        (ap (yielded (b ∷ bytes)) (Loop-read_pieces fuel run (omega (arith, less))))
