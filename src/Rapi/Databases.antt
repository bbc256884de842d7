-- ===== src/Rapi/Databases.antt =====
-- jornada/rapi_database.py: the databases of the object store. `str.casefold` is an argument.
use jornada_link.Common.{
  ℕ, zero, suc, Bool, true, false, ◌||◌, Option, none, some, List, [], ◌∷◌, ◌++◌, length, ltb, ◌==◌,
  if◌then◌else◌,
}
use jornada_link.Common.Result.{ok, err}
use jornada_link.Wire.Encode.{u16, u32, string}
use jornada_link.Wire.Reader.{Reader, Read, read_u16, read_u32, read_bytes}
use jornada_link.Wire.Reader as Wire
use jornada_link.Cedb.{Float64, PropVal, Record}
use jornada_link.Cedb.Pack.{pack_record}
use jornada_link.Cedb.Unpack.{unpack_record}
use jornada_link.Rapi.{
  Call, ◌>>=◌, pure, raise, parse, finally, call, call_simple, Reply, win32_error, no_database,
  bad_value, has_flag,
}
use jornada_link.Rapi.Files.{u32_if, u64_if, wchars_if, filetime, close_handle, rounds, succeed}
use jornada_link.Rapi.Constants.{
  invalid_handle_value, cmd_find_all_databases, cmd_create_database, cmd_open_database,
  cmd_delete_database, cmd_read_record_props, cmd_write_record_props, cmd_delete_record,
  cmd_seek_database, fad_oid, fad_flags, fad_name, fad_type, fad_num_records, fad_num_sort_order,
  fad_size, fad_last_modified, fad_sort_specs, fad_listing, cedb_maxsortorder, cedb_autoincrement,
  cedb_allowrealloc, error_no_more_items,
}

-- `last_modified` is the FILETIME, which the source turns into a float.
pub record DatabaseInfo : Type 0 where
  pub oid : ℕ
  pub name : List ℕ
  pub db_type : ℕ
  pub flags : ℕ
  pub num_records : ℕ
  pub num_sort_order : ℕ
  pub size : ℕ
  pub last_modified : Option ℕ
  pub sort_specs : List (ℕ × ℕ)

abbrev u16_if : Bool → Read ℕ
u16_if b r = elim b [ true ↦ read_u16 r | false ↦ ok (0, r) ]

-- `(reader.u32(), reader.u32()) for _ in range(count)`
unfoldable pub read_specs : ℕ → Read (List (ℕ × ℕ))
read_specs zero = Wire.pure []
read_specs (suc count) = Wire.◌>>=◌ read_u32 λ cepropid.
    Wire.◌>>=◌ read_u32 λ spec_flags.
      Wire.◌>>=◌ (read_specs count) λ specs. Wire.pure ((cepropid, spec_flags) ∷ specs)

abbrev specs_if : Bool → Read (List (ℕ × ℕ))
specs_if b r = elim b [ true ↦ read_specs cedb_maxsortorder r | false ↦ ok ([], r) ]

-- `_read_find_data`
unfoldable pub read_find_data : ℕ → Read DatabaseInfo
unfolding read_specs
read_find_data flags = Wire.◌>>=◌ (u32_if (has_flag flags fad_oid)) λ oid.
    Wire.◌>>=◌ (u32_if (has_flag flags fad_name)) λ name_size.
      Wire.◌>>=◌ (u32_if (has_flag flags fad_flags)) λ db_flags.
        Wire.◌>>=◌ (wchars_if (has_flag flags fad_name) name_size) λ name.
          Wire.◌>>=◌ (u32_if (has_flag flags fad_type)) λ db_type.
            Wire.◌>>=◌ (u16_if (has_flag flags fad_num_records)) λ num_records.
              Wire.◌>>=◌ (u16_if (has_flag flags fad_num_sort_order)) λ num_sort_order.
                Wire.◌>>=◌ (u32_if (has_flag flags fad_size)) λ size.
                  Wire.◌>>=◌ (u64_if (has_flag flags fad_last_modified)) λ modified.
                    Wire.◌>>=◌ (specs_if (has_flag flags fad_sort_specs)) λ specs.
                      Wire.pure (record {
                        oid = oid;
                        name = name;
                        db_type = db_type;
                        flags = db_flags;
                        num_records = num_records;
                        num_sort_order = num_sort_order;
                        size = size;
                        last_modified = filetime modified;
                        sort_specs = specs;
                      })

unfoldable pub read_find_data_list : ℕ → ℕ → Read (List DatabaseInfo)
unfolding read_find_data
read_find_data_list zero flags = Wire.pure []
read_find_data_list (suc count) flags =
    Wire.◌>>=◌ (read_find_data flags)
      λ info. Wire.◌>>=◌ (read_find_data_list count flags) λ infos. Wire.pure (info ∷ infos)

unfoldable pub find_all_databases : ℕ → ℕ → Call (List DatabaseInfo)
find_all_databases db_type flags = do
  r ← call cmd_find_all_databases (u32 db_type ++ u16 flags)
  (count, r1) ← parse read_u16 r
  (infos, r2) ← parse (read_find_data_list count flags) r1
  pure infos

-- `==` of texts
unfoldable pub same_text : List ℕ → List ℕ → Bool
same_text [] [] = true
same_text [] (d ∷ t) = false
same_text (c ∷ s) [] = false
same_text (c ∷ s) (d ∷ t) = let rest = same_text s t in if c == d then rest else false

-- the first database of a list whose folded name is the wanted one
unfoldable pub named : (List ℕ → List ℕ) → List ℕ → List DatabaseInfo → Option DatabaseInfo
unfolding same_text
named casefold wanted [] = none
named casefold wanted (info ∷ infos) =
    let later = named casefold wanted infos in
    if same_text (casefold info.name) wanted then some info else later

unfoldable pub find_database : (List ℕ → List ℕ) → List ℕ → Call (Option DatabaseInfo)
unfolding find_all_databases named
find_database casefold name = do
  infos ← find_all_databases 0 fad_listing
  pure (named casefold (casefold name) infos)

unfoldable pub open_database : ℕ → ℕ → ℕ → Call ℕ
open_database oid flags sort_propid = do
  reply ← call_simple cmd_open_database (u32 oid ++ (u32 sort_propid ++ u32 flags))
  if reply.return_value == invalid_handle_value || reply.return_value == 0
      then raise (win32_error reply.last_error)
      else pure reply.return_value

unfoldable pub spec_bytes : List (ℕ × ℕ) → List ℕ
spec_bytes [] = []
spec_bytes ((cepropid, spec_flags) ∷ specs) = u32 cepropid ++ (u32 spec_flags ++ spec_bytes specs)

unfoldable pub create_database : List ℕ → ℕ → List (ℕ × ℕ) → Call ℕ
unfolding spec_bytes
create_database name db_type sort_specs =
    if ltb cedb_maxsortorder (length sort_specs)
    then raise bad_value
    else (call_simple cmd_create_database (
          u32 db_type ++ (u16 (length sort_specs) ++ (spec_bytes sort_specs ++ string (some name))))
        >>= λ reply.
            (if reply.return_value == 0
              then raise (win32_error reply.last_error)
              else pure reply.return_value))

unfoldable pub delete_database : ℕ → Call (Unit {0})
delete_database oid = succeed cmd_delete_database (u32 oid)

unfoldable pub delete_record : ℕ → ℕ → Call (Unit {0})
delete_record handle oid = succeed cmd_delete_record (u32 handle ++ u32 oid)

unfoldable pub seek_database : ℕ → ℕ → ℕ → Call (ℕ × ℕ)
seek_database handle seek_type value = do
  reply ← call_simple cmd_seek_database (u32 handle ++ (u32 seek_type ++ u32 value))
  (index, r) ← parse read_u32 reply.body
  pure (reply.return_value, index)

-- `reply.reader.take(size) if size else b""`
abbrev pub take_if : ℕ → Read (List ℕ)
take_if size r = elim size [ zero ↦ ok ([], r) | suc n ↦ read_bytes (suc n) r ]

module _ {F : Float64} where
  -- the end of `read_record`
  unfoldable pub record_of : Reply → ℕ → List ℕ → Call (Option (Record F))
  record_of reply count bytes =
      if reply.return_value == 0
      then (if reply.last_error == error_no_more_items
          then pure none
          else raise (win32_error reply.last_error))
      else elim (unpack_record {F = F} bytes count) [
        | err e ↦ raise bad_value
        | ok props ↦ pure (some (record { oid = reply.return_value; props = props }))
      ]

  -- `read_record`, with the flags of its default
  unfoldable pub read_record : ℕ → Call (Option (Record F))
  unfolding record_of
  read_record handle = do
    reply ←
        call_simple cmd_read_record_props
          (u32 handle ++ (u32 cedb_allowrealloc ++ (u32 0 ++ (u32 0 ++ (u32 0 ++ u16 0)))))
    (size, r) ← parse read_u32 reply.body
    (count, r1) ← parse read_u16 r
    (bytes, r2) ← parse (take_if size) r1
    record_of reply count bytes

  -- the loop of `iter_records`: each round takes a frame from the stream
  unfoldable pub iter_records : ℕ → ℕ → Call (List (Record F))
  iter_records zero handle = pure []
  iter_records (suc fuel) handle = read_record handle >>= λ found. elim found [
    | none ↦ pure []
    | some r ↦ iter_records fuel handle >>= λ later. pure (r ∷ later)
  ]

  -- `write_record`: what cannot be packed is not sent.
  unfoldable pub write_record : ℕ → List (PropVal F) → ℕ → Call ℕ
  write_record handle props oid = elim (pack_record props) [
    | err e ↦ raise bad_value
    | ok bytes ↦
        call_simple cmd_write_record_props
          (u32 handle ++ (u32 oid ++ (u16 (length props) ++ (u32 (length bytes) ++ bytes))))
        >>= λ reply.
            (if reply.return_value == 0
              then raise (win32_error reply.last_error)
              else pure reply.return_value)
  ]

  unfoldable pub read_all_records :
      (List ℕ → List ℕ) → List ℕ → Call (DatabaseInfo × List (Record F))
  unfolding iter_records
  read_all_records casefold name = find_database casefold name >>= λ found. elim found [
    | none ↦ raise (no_database name)
    | some info ↦ open_database info.oid cedb_autoincrement 0 >>= λ handle.
        finally ((λ c. iter_records (rounds c) handle c) >>= λ records. pure (info, records))
          (close_handle handle)
  ]
