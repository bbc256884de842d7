-- ===== src/Rapi/Constants.antt =====
-- The commands, flags and sizes of jornada/constants.py that the RAPI client uses.
use Prim.Native.Nat.{ℕ}

abbrev pub cmd_get_file_attributes : ℕ
cmd_get_file_attributes = 0x03

abbrev pub cmd_create_file : ℕ
cmd_create_file = 0x05

abbrev pub cmd_read_file : ℕ
cmd_read_file = 0x06

abbrev pub cmd_write_file : ℕ
cmd_write_file = 0x07

abbrev pub cmd_close_handle : ℕ
cmd_close_handle = 0x08

abbrev pub cmd_find_all_files : ℕ
cmd_find_all_files = 0x09

abbrev pub cmd_create_directory : ℕ
cmd_create_directory = 0x17

abbrev pub cmd_remove_directory : ℕ
cmd_remove_directory = 0x18

abbrev pub cmd_create_process : ℕ
cmd_create_process = 0x19

abbrev pub cmd_move_file : ℕ
cmd_move_file = 0x1A

abbrev pub cmd_delete_file : ℕ
cmd_delete_file = 0x1C

abbrev pub cmd_create_shortcut : ℕ
cmd_create_shortcut = 0x30

abbrev pub cmd_get_store_information : ℕ
cmd_get_store_information = 0x29

abbrev pub cmd_get_version_ex : ℕ
cmd_get_version_ex = 0x3B

abbrev pub cmd_get_system_power_status_ex : ℕ
cmd_get_system_power_status_ex = 0x41

abbrev pub faf_attributes : ℕ
faf_attributes = 0x0001

abbrev pub faf_creation_time : ℕ
faf_creation_time = 0x0002

abbrev pub faf_lastaccess_time : ℕ
faf_lastaccess_time = 0x0004

abbrev pub faf_lastwrite_time : ℕ
faf_lastwrite_time = 0x0008

abbrev pub faf_size_high : ℕ
faf_size_high = 0x0010

abbrev pub faf_size_low : ℕ
faf_size_low = 0x0020

abbrev pub faf_oid : ℕ
faf_oid = 0x0040

abbrev pub faf_name : ℕ
faf_name = 0x0080

abbrev pub file_attribute_directory : ℕ
file_attribute_directory = 0x0010

abbrev pub invalid_file_attributes : ℕ
invalid_file_attributes = 0xFFFFFFFF

abbrev pub generic_read : ℕ
generic_read = 0x80000000

abbrev pub generic_write : ℕ
generic_write = 0x40000000

abbrev pub create_always : ℕ
create_always = 2

abbrev pub open_existing : ℕ
open_existing = 3

abbrev pub invalid_handle_value : ℕ
invalid_handle_value = 0xFFFFFFFF

abbrev pub rapi_max_frame : ℕ
rapi_max_frame = 16777216

abbrev pub read_chunk : ℕ
read_chunk = 28672

abbrev pub write_chunk : ℕ
write_chunk = 28672

abbrev pub sizeof_store_information : ℕ
sizeof_store_information = 8

abbrev pub sizeof_system_power_status_ex : ℕ
sizeof_system_power_status_ex = 24

abbrev pub sizeof_process_information : ℕ
sizeof_process_information = 16

abbrev pub cmd_find_all_databases : ℕ
cmd_find_all_databases = 0x2C

abbrev pub cmd_create_database : ℕ
cmd_create_database = 0x0D

abbrev pub cmd_open_database : ℕ
cmd_open_database = 0x0E

abbrev pub cmd_delete_database : ℕ
cmd_delete_database = 0x0F

abbrev pub cmd_read_record_props : ℕ
cmd_read_record_props = 0x10

abbrev pub cmd_write_record_props : ℕ
cmd_write_record_props = 0x11

abbrev pub cmd_delete_record : ℕ
cmd_delete_record = 0x12

abbrev pub cmd_seek_database : ℕ
cmd_seek_database = 0x13

abbrev pub fad_oid : ℕ
fad_oid = 0x0001

abbrev pub fad_flags : ℕ
fad_flags = 0x0002

abbrev pub fad_name : ℕ
fad_name = 0x0004

abbrev pub fad_type : ℕ
fad_type = 0x0008

abbrev pub fad_num_records : ℕ
fad_num_records = 0x0010

abbrev pub fad_num_sort_order : ℕ
fad_num_sort_order = 0x0020

abbrev pub fad_size : ℕ
fad_size = 0x0040

abbrev pub fad_last_modified : ℕ
fad_last_modified = 0x0080

abbrev pub fad_sort_specs : ℕ
fad_sort_specs = 0x0100

abbrev pub cedb_maxsortorder : ℕ
cedb_maxsortorder = 4

abbrev pub cedb_autoincrement : ℕ
cedb_autoincrement = 0x00000001

abbrev pub cedb_allowrealloc : ℕ
cedb_allowrealloc = 0x00000001

abbrev pub error_no_more_items : ℕ
error_no_more_items = 259

-- FAF_LISTING and FAD_LISTING: the bits of their names together
abbrev pub faf_listing : ℕ
faf_listing = 0x00B9

abbrev pub fad_listing : ℕ
fad_listing = 0x00FF
