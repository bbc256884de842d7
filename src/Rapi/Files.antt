-- ===== src/Rapi/Files.antt =====
-- The files and directories of the device, in jornada/rapi.py.
use jornada_link.Common.{
  ℕ, zero, suc, ◌+◌, ◌*◌, ◌^◌, Bool, true, false, not, Option, none, some, List, [], ◌∷◌, ◌++◌,
  length, take, drop, ◌==◌, if◌then◌else◌,
}
use jornada_link.Common.Result.{ok}
use jornada_link.Wire.Encode.{u32, string, optional_string, optional_in, optional_out}
use jornada_link.Wire.Reader.{Reader, Read, read_u32, read_bytes, wchars}
use jornada_link.Wire.Reader as Wire
use jornada_link.Transport.Exact.{stream}
use jornada_link.Rapi.{
  Client, Call, ◌>>=◌, ◌>>◌, pure, raise, parse, finally, call, call_simple, check_bool,
  win32_error, short_write, has_flag,
}
use jornada_link.Rapi.Constants.{
  cmd_get_file_attributes, cmd_create_file, cmd_read_file, cmd_write_file, cmd_close_handle,
  cmd_find_all_files, cmd_create_directory, cmd_remove_directory, cmd_move_file, cmd_delete_file,
  cmd_create_shortcut, faf_attributes, faf_creation_time, faf_lastaccess_time, faf_lastwrite_time,
  faf_size_high, faf_size_low, faf_oid, faf_name, file_attribute_directory, invalid_file_attributes,
  generic_read, generic_write, create_always, open_existing, invalid_handle_value, read_chunk,
  write_chunk, faf_listing,
}

-- `mtime` is the FILETIME, which the source turns into a float.
pub record FileEntry : Type 0 where
  pub name : List ℕ
  pub attributes : ℕ
  pub size : ℕ
  pub mtime : Option ℕ

-- `is_dir`
abbrev pub is_dir : FileEntry → Bool
is_dir entry = has_flag entry.attributes file_attribute_directory

-- `reader.u32() if flags & bit else 0`
abbrev pub u32_if : Bool → Read ℕ
u32_if b r = elim b [ true ↦ read_u32 r | false ↦ ok (0, r) ]

-- `if flags & bit: reader.u32(); reader.u32()`, with the number of 64 bits that they are
abbrev pub u64_if : Bool → Read (Option ℕ)
u64_if b r = elim b [
  | false ↦ ok (none, r)
  | true ↦
      (Wire.◌>>=◌ read_u32
          λ low. Wire.◌>>=◌ read_u32 λ high. Wire.pure (some (high * 2 ^ 32 + low)))
        r
]

-- `filetime_to_unix` up to its float: no time for zero
abbrev pub filetime : Option ℕ → Option ℕ
filetime none = none
filetime (some zero) = none
filetime (some (suc ticks)) = some (suc ticks)

abbrev pub wchars_if : Bool → ℕ → Read (List ℕ)
wchars_if b count r = elim b [ true ↦ wchars count r | false ↦ ok ([], r) ]

-- `_read_find_entry`
unfoldable pub read_find_entry : ℕ → Read FileEntry
read_find_entry flags = Wire.◌>>=◌ (u32_if (has_flag flags faf_name)) λ name_size.
    Wire.◌>>=◌ (u32_if (has_flag flags faf_attributes)) λ attributes.
      Wire.◌>>=◌ (u64_if (has_flag flags faf_creation_time)) λ _.
        Wire.◌>>=◌ (u64_if (has_flag flags faf_lastaccess_time)) λ _.
          Wire.◌>>=◌ (u64_if (has_flag flags faf_lastwrite_time)) λ written.
            Wire.◌>>=◌ (u32_if (has_flag flags faf_size_high)) λ size_high.
              Wire.◌>>=◌ (u32_if (has_flag flags faf_size_low)) λ size_low.
                Wire.◌>>=◌ (u32_if (has_flag flags faf_oid)) λ _.
                  Wire.◌>>=◌ (wchars_if (has_flag flags faf_name) name_size) λ name.
                    Wire.pure (record {
                      name = name;
                      attributes = attributes;
                      size = size_high * 2 ^ 32 + size_low;
                      mtime = filetime written;
                    })

-- `[_read_find_entry(reader, flags) for _ in range(count)]`
unfoldable pub read_find_entries : ℕ → ℕ → Read (List FileEntry)
unfolding read_find_entry
read_find_entries zero flags = Wire.pure []
read_find_entries (suc count) flags =
    Wire.◌>>=◌ (read_find_entry flags)
      λ entry. Wire.◌>>=◌ (read_find_entries count flags) λ entries. Wire.pure (entry ∷ entries)

unfoldable pub find_all_files : List ℕ → ℕ → Call (List FileEntry)
find_all_files pattern_ flags = do
  r ← call cmd_find_all_files (string (some pattern_) ++ u32 flags)
  (count, r1) ← parse read_u32 r
  (entries, r2) ← parse (read_find_entries count flags) r1
  pure entries

abbrev pub backslash : ℕ
backslash = 0x5C

-- `text.rstrip("\\")`
unfoldable pub strip_backslashes : List ℕ → List ℕ
strip_backslashes [] = []
strip_backslashes (c ∷ text) = elim (strip_backslashes text) [
  | [] ↦ if c == backslash then [] else c ∷ []
  | d ∷ rest ↦ c ∷ d ∷ rest
]

-- the pattern of `listdir`
abbrev pub listing_pattern : List ℕ → List ℕ
listing_pattern [] = backslash ∷ b'*' ∷ []
listing_pattern (c ∷ directory) = strip_backslashes (c ∷ directory) ++ (backslash ∷ b'*' ∷ [])

unfoldable pub listdir : List ℕ → Call (List FileEntry)
unfolding find_all_files
listdir directory = find_all_files (listing_pattern directory) faf_listing

unfoldable pub create_file : List ℕ → ℕ → ℕ → ℕ → Call ℕ
create_file path access share_mode disposition = do
  reply ← call_simple cmd_create_file (
      u32 access
      ++ (u32 share_mode ++ (u32 disposition ++ (u32 0 ++ (u32 0 ++ string (some path))))))
  if reply.return_value == invalid_handle_value
      then raise (win32_error reply.last_error)
      else pure reply.return_value

unfoldable pub read_file : ℕ → ℕ → Call (List ℕ)
read_file handle size = do
  reply ← call_simple cmd_read_file (u32 handle ++ (optional_out (some size) ++ optional_in none))
  check_bool reply
  (bytes_read, r) ← parse read_u32 reply.body
  (bytes, r') ← parse (read_bytes bytes_read) r
  pure bytes

unfoldable pub write_file : ℕ → List ℕ → Call ℕ
write_file handle bytes = do
  reply ← call_simple cmd_write_file (u32 handle ++ (optional_in (some bytes) ++ optional_in none))
  check_bool reply
  (written, r) ← parse read_u32 reply.body
  pure written

unfoldable pub close_handle : ℕ → Call (Unit {0})
close_handle handle = do reply ← call_simple cmd_close_handle (u32 handle); check_bool reply

-- The loop of `iter_download`, with what it yields joined. Each round takes a frame from the stream,
-- so that its length is enough rounds; the clause without fuel is never reached.
unfoldable pub read_pieces : ℕ → ℕ → ℕ → Call (List ℕ)
read_pieces zero handle chunk = pure []
read_pieces (suc fuel) handle chunk = read_file handle chunk >>= λ piece. elim piece [
  | [] ↦ pure []
  | b ∷ bytes ↦ read_pieces fuel handle chunk >>= λ later. pure ((b ∷ bytes) ++ later)
]

-- more rounds than frames that can still arrive
abbrev pub rounds : Client → ℕ
rounds none = 1
rounds (some sock) = suc (length (stream sock.events))

-- `download`: the pieces of `iter_download` joined
unfoldable pub download_chunked : List ℕ → ℕ → Call (List ℕ)
unfolding read_pieces
download_chunked path chunk = do
  handle ← create_file path generic_read 1 open_existing
  finally (λ c. read_pieces (rounds c) handle chunk c) (close_handle handle)

abbrev pub download : List ℕ → Call (List ℕ)
download path = download_chunked path read_chunk

-- `data[offset:offset + chunk] for offset in range(0, len(data), chunk)`, for a chunk that is not 0;
-- each piece has a byte, so the length is enough fuel.
unfoldable pub pieces_of : ℕ → ℕ → List ℕ → List (List ℕ)
pieces_of fuel chunk [] = []
pieces_of zero chunk (b ∷ bytes) = []
pieces_of (suc fuel) chunk (b ∷ bytes) =
    take chunk (b ∷ bytes) ∷ pieces_of fuel chunk (drop chunk (b ∷ bytes))

-- the loop of `upload`, without its progress reports
unfoldable pub write_pieces : ℕ → ℕ → List (List ℕ) → Call ℕ
write_pieces handle written_total [] = pure written_total
write_pieces handle written_total (piece ∷ pieces) = do
  written ← write_file handle piece
  if not (written == length piece)
      then raise (short_write written (length piece))
      else write_pieces handle (written_total + written) pieces

unfoldable pub upload_chunked : List ℕ → List ℕ → ℕ → Call ℕ
unfolding write_pieces pieces_of
upload_chunked path bytes chunk = do
  handle ← create_file path generic_write 0 create_always
  finally (write_pieces handle 0 (pieces_of (length bytes) chunk bytes)) (close_handle handle)

abbrev pub upload : List ℕ → List ℕ → Call ℕ
upload path bytes = upload_chunked path bytes write_chunk

-- A call whose answer is a success or a Win32 error.
abbrev pub succeed : ℕ → List ℕ → Call (Unit {0})
succeed command payload = do reply ← call_simple command payload; check_bool reply

unfoldable pub create_directory : List ℕ → Call (Unit {0})
create_directory path =
    succeed cmd_create_directory (optional_string (some path) ++ optional_in none)

unfoldable pub remove_directory : List ℕ → Call (Unit {0})
remove_directory path = succeed cmd_remove_directory (optional_string (some path))

unfoldable pub delete_file : List ℕ → Call (Unit {0})
delete_file path = succeed cmd_delete_file (optional_string (some path))

unfoldable pub move_file : List ℕ → List ℕ → Call (Unit {0})
move_file src dst = succeed cmd_move_file (optional_string (some src) ++ optional_string (some dst))

unfoldable pub get_file_attributes : List ℕ → Call (Option ℕ)
get_file_attributes path = do
  reply ← call_simple cmd_get_file_attributes (string (some path))
  if reply.return_value == invalid_file_attributes
      then pure none
      else pure (some reply.return_value)

unfoldable pub create_shortcut : List ℕ → List ℕ → Call (Unit {0})
create_shortcut shortcut_path target =
    succeed cmd_create_shortcut
      (optional_string (some shortcut_path) ++ optional_string (some target))
