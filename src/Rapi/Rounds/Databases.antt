-- ===== src/Rapi/Rounds/Databases.antt =====
-- Why the rounds of `iter_records` are enough.
use jornada_link.Common.{ℕ, ◌≡◌, [], ◌∷◌, none, some, List}
use jornada_link.Common.Result.{Result, ok, err}
use jornada_link.Transport.{TransportError}
use jornada_link.Cedb.{Float64, Record}
use jornada_link.Rapi.{Client, RapiError}
use jornada_link.Rapi.Databases.{read_record}

-- What the loop comes to.
abbrev pub RecordsOutcome : Float64 → Type 0
RecordsOutcome F = Result TransportError (Result RapiError (List (Record F)) × Client)

-- A record that was yielded before the rest of the loop.
abbrev pub record_yielded : {F : Float64} → Record F → RecordsOutcome F → RecordsOutcome F
record_yielded found (err e) = err e
record_yielded found (ok (err e, c)) = ok (err e, c)
record_yielded found (ok (ok later, c)) = ok (ok (found ∷ later), c)

-- The loop of `iter_records` (jornada/rapi_database.py) without a number of rounds, from a client to an
-- outcome: `if record is None: return`, an exception of `read_record`, or `yield record` and the loop
-- from the client that it left.
pub data RecordLoop {F : Float64} (handle : ℕ) : Client → RecordsOutcome F → Type 0 where
  returns :
      {c c' : Client}
      → read_record {F = F} handle c ≡ ok (ok none, c')
      → RecordLoop handle c (ok (ok [], c'))
  raises :
      {c c' : Client} {e : RapiError}
      → read_record {F = F} handle c ≡ ok (err e, c')
      → RecordLoop handle c (ok (err e, c'))
  loses :
      {c : Client} {e : TransportError}
      → read_record {F = F} handle c ≡ err e
      → RecordLoop handle c (err e)
  yields :
      {c c' : Client} {found : Record F} {outcome : RecordsOutcome F}
      → read_record handle c ≡ ok (ok (some found), c')
      → RecordLoop handle c' outcome
      → RecordLoop handle c (record_yielded found outcome)
