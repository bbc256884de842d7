-- ===== src/Lib.antt =====
-- A model of jornada-link, the desktop end of a link to an HP Jornada handheld: the parts of
-- the Python package `jornada` that decide something, translated function by function, with
-- theorems about them. Functions keep the source's names, without a leading underscore.
--
-- The parts, and how they come together:
--
-- - Wire (jornada/wire.py): the encoders of a RAPI request, and `Reader`, a cursor over the bytes of
--   an answer. `Wire.Utf16` is Python's UTF-16-LE codec with `errors="replace"`. Bytes are lists of
--   numbers, and `IsByte` is a hypothesis where it matters. A text is a list of Unicode scalar
--   values: a Python text may hold lone surrogates, for which `encode` raises.
-- - Transport (jornada/transport.py): `recv_exact`, `send_all` and the frames over a socket. What
--   the peer and the system will do is the value of `Socket`: the chunks that arrive, the end of the
--   stream or a failure, and how many sends still succeed.
-- - Info (jornada/info.py): the packet in which a device describes itself.
-- - Password (jornada/password.py): the masked password that a locked device is sent.
-- - Dccm (jornada/dccm.py): the desktop end of a connection. `Session` is the connection's state with
--   its socket and what was reported; `read_round` and `ping_round` are the two things that a turn of
--   `_client_loop` can do. `select` and the clock are a list of `Tick`s, one for each turn.
-- - Ppp (jornada/ppprecord.py): the decoder of pppd's recordings. Frames with their escapes and
--   checksum are in `Ppp`, the records of a file in `Ppp.Record`. `Ppp.Stuffing`, `Ppp.Fcs` and
--   `Ppp.Frames` describe what a sender does, after RFC 1662.
-- - Cedb (jornada/cedb.py): the records of the object store. A property's value and its type, which
--   the source keeps apart, are one tagged union, so that a value is always of its type. `Cedb.Pack`
--   and `Cedb.Unpack` are the two directions; doubles are packed by `struct`, which is the argument
--   `Float64` with the law `IsExact`.
-- - Usb (jornada/usb_profiles.py): the tables of USB drivers and of handhelds, and what is found out
--   about a device by them. `str.upper` is an argument.
-- - Rapi (jornada/rapi.py, jornada/rapi_database.py): the client of the device's remote API. A method
--   is a `Call` over the field `_sock`, with what it raises while the socket stays in step; after a
--   failure of the transport the model ends. `Rapi.Connect`, `Rapi.Files`, `Rapi.System` and
--   `Rapi.Databases` have the methods; `Rapi.Talk` and `Rapi.Replies` describe a device that answers,
--   for `Rapi.Download`, `Rapi.Upload` and `Rapi.Records`. The names of jornada/constants.py are in
--   `Rapi.Constants` in lower case. Times stay FILETIMEs, and `str.casefold` is an argument.
-- - Usb.Doctor (jornada/usb_doctor.py, with the devices of jornada/usb_registry.py): the ranking of
--   serial ports, the recommendation and the findings, and the pinned port (`Usb.Doctor.Pin`). A
--   candidate's score is the source's plus 500, so that it is a natural number.
-- - Webapi (jornada/webapi/_textprops.py): the content lines of iCalendar and vCard. Texts are lists of
--   code points. `Webapi.Chars` has the methods of `str` that are used, `Webapi.Escape` the escapes,
--   `Webapi.Fold` the folded lines, `Webapi.Lines` values, parameters and lines. `str.upper` is an
--   argument.
-- - Gpib (jornada/gpib.py): the client of the GPIB gateway. `Gpib.Session` has the methods of
--   `GpibGateway` as functions of its field `_sock`; what the gateway will answer is in the socket.
--   `Gpib.Lines` describes what the escapes of the line protocol guard, and the cut of an answer.
-- - Sync (jornada/sync): the two-way synchroniser. `Sync.State` (jornada/sync/state.py) holds the
--   links between device records and remote items. `Sync.Model` has the data of
--   jornada/sync/base.py and jornada/sync/engine.py, `Sync.Linked`, `Sync.Pairing` and `Sync.Plan`
--   are `plan`, `Sync.Apply` is `apply`, `Sync.Refresh` is `refresh_hashes`. What the engine calls
--   of a neutral record is the interface `Model`, an instance argument; the two stores are values
--   of `Store`, whose operations succeed with a new store or raise one of the exceptions that
--   `apply` catches.
-- - Common: Boolean tests, lists and bytes over the native numbers, texts, raised exceptions.
--
-- The source's `Action` is one record with optional fields; here it is a tagged union with the fields
-- that each kind has. Errors that `apply` records keep the action and the message. The dict
-- `unmatched` of `_pair_new` is an association list in the order of insertion.
--
-- Bounds and fuel: `recv_loop` has the number of missing bytes as fuel, which is enough since every
-- chunk that is not empty brings one (`Transport.Exact`). `record_loop` has the length of the file,
-- of which every record takes a byte at least. `decimal` has one more than the number as fuel, which
-- has fewer digits than that. `read_pieces` and `iter_records` run while frames arrive, and have one
-- more than the bytes of the stream as fuel, of which each frame takes four at least
-- (`Rapi.Rounds`); the loops without fuel are the relations `Loop` of `Rapi.Rounds.Loop` and
-- `RecordLoop` of `Rapi.Rounds.Databases`;
-- `pieces_of` has the length of the data, of which each piece takes a byte.
-- `client_loop` runs over its ticks, `read_loop` over the answers. All other loops are structural
-- recursion.
--
-- Not modelled: the file of the links (JSON on disk), logging, threads and signals, the discovery of
-- devices, the walk of the I/O registry, the set-up of PPP, the callers of the RAPI methods, the
-- device's clock, the component trees of iCalendar and vCard, the neutral records and their text
-- formats, the accounts of the web, the command line.
pub mod Common
pub mod Wire
pub mod Transport
pub mod Info
pub mod Password
pub mod Dccm
pub mod Ppp
pub mod Usb
pub mod Gpib
pub mod Cedb
pub mod Rapi
pub mod Sync
pub mod Webapi
