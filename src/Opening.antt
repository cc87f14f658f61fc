-- ===== src/Opening.antt =====
-- Opening and closing the object store: `OpenValueFile`, `OpenIndexFile`, the object part of
-- `OpenInternal`, `Flush` and `Close` of src/lumodb/database.cpp.
pub mod Reopen
pub mod Migrate
pub mod ReadOnly
use Prim.Native.String.{String}
use lumodb.Base.{
  ℕ, ◌<◌, Bool, true, false, not, ◌&&◌, Option, none, some, List, [], ◌∷◌, ltb, ◌==◌, length,
  bytes_eq, if◌then◌else◌,
}
use lumodb.Status.{
  Result, Act, ok, err, fault, corruption, io_error, invalid_argument, ◌>>=◌, ◌>>◌, require, on_ok,
}
use lumodb.Capacity.{LoadFactor, round_up_power_of_two}
use lumodb.Format.Headers.{
  ValueFileHeader, value_file_magic, legacy_value_file_magic, storage_version,
  new_value_file_header, encode_file_header, decode_file_header,
}
use lumodb.File.{Device, read_all_at, write_all_at}
use lumodb.Objects.{Index, Store}
use lumodb.Writer.{create_empty_index}
use lumodb.Recovery.{has_valid_index_layout, rebuild_index_from_values}
use lumodb.Migration.{migrated}

-- The kernel's answers during one opening or closing, by file name.
pub record Kernel : Type 0 where
  pub device : Device
  -- `open`, which creates a missing file unless it is read-only
  pub open_fails : String → Bool
  -- `fsync`, and `msync` of a mapping
  pub sync_fails : String → Bool
  pub rename_fails : Bool
  pub remove_fails : Bool

-- The index file before it is mapped: its size, and what a mapping of it shows.
pub record IndexFile : Type 0 where
  pub size : ℕ
  pub view : Index

abbrev pub no_file : IndexFile
no_file = record {
  size = 0;
  view = record {
    magic = [];
    version = 0;
    header_size = 0;
    bucket_count = 0;
    item_count = 0;
    next_sequence = 0;
    buckets = [];
  };
}

-- The store while it is opened, with the index file beside it.
pub record Files : Type 0 where
  pub store : Store
  pub index_file : IndexFile

-- The end of `MigrateLegacyValueFile`: the new file takes the place of the old one, and the index
-- file is removed.
pub swap_migrated : Kernel → Files → List ℕ × Result ℕ → Act Files
swap_migrated k fs (target, err c m) = (fs, err c m)
swap_migrated k fs (target, fault x) = (fs, fault x)
swap_migrated k fs (target, ok target_offset) =
    if k.sync_fails "values.lumov.migrating"
    then (fs, err io_error "fsync")
    else if k.rename_fails
    then (fs, err io_error "rename migrated value file")
    else let swapped = record fs.store { value_file = target } in
      if k.remove_fails
      then (record fs { store = swapped }, err io_error "remove stale object index")
      else if k.open_fails "values.lumov"
      then (record { store = swapped; index_file = no_file }, err io_error "open")
      else (
        record { store = record swapped { append_offset = target_offset }; index_file = no_file },
        ok tt,
      )

-- `MigrateLegacyValueFile`
pub migrate_legacy_value_file : Kernel → Files → ℕ → Act Files
unfolding swap_migrated
migrate_legacy_value_file k fs legacy_file_size =
    if k.open_fails "values.lumov.migrating"
    then (fs, err io_error "open")
    else if k.device.truncate_fails 0
    then (fs, err io_error "ftruncate")
    else swap_migrated k fs (migrated k.device fs.store.value_file legacy_file_size)

-- The header's fields against the magic of a format.
pub is_file_header : List ℕ → ValueFileHeader → Bool
is_file_header magic h =
    bytes_eq h.magic magic && (h.version == storage_version) && (h.header_size == 24)

-- The end of `OpenValueFile`, by what reading the header gave.
pub open_by_header : Kernel → Files → Result (List ℕ) → Act Files
unfolding is_file_header migrate_legacy_value_file
open_by_header k fs (err c m) = (fs, err c m)
open_by_header k fs (fault x) = (fs, fault x)
open_by_header k fs (ok bytes) =
    let h = decode_file_header bytes in
    let size = length fs.store.value_file in
    if is_file_header legacy_value_file_magic h
    then (if fs.store.read_only
        then (fs, err invalid_argument "legacy value file requires a read-write open for migration")
        else migrate_legacy_value_file k fs size)
    else if not (is_file_header value_file_magic h)
    then (fs, err corruption "value file header is invalid")
    else let placed = record fs.store { append_offset = size } in
      if not fs.store.read_only
      then (record fs { store = placed }, ok tt)
      else if k.device.map_fails size
      then (record fs { store = placed }, err io_error "mmap")
      else (record fs { store = record placed { value_map = some size } }, ok tt)

-- `OpenValueFile`
pub open_value_file : Kernel → Files → Act Files
unfolding open_by_header
open_value_file k fs =
    let size = length fs.store.value_file in
    if k.open_fails "values.lumov"
    then (fs, err io_error "open")
    else if k.device.stat_fails
    then (fs, err io_error "fstat")
    else if size == 0
    then (if fs.store.read_only
        then (fs, err corruption "value file is empty")
        else let (file, written) =
            write_all_at k.device fs.store.value_file 0
              (encode_file_header new_value_file_header) in
          on_ok (record fs { store = record fs.store { value_file = file } }, written)
            λ fs'. (record fs' { store = record fs'.store { append_offset = 24 } }, ok tt))
    else if ltb size 24
    then (fs, err corruption "value file header is truncated")
    else open_by_header k fs (read_all_at k.device fs.store.value_file 24 0)

-- The end of `OpenIndexFile`, with the new index.
pub rebuild_in : Kernel → Store → Result Index → Act Store
rebuild_in k s (ok ix) = rebuild_index_from_values k.device (record s { index = some ix })
rebuild_in k s (err c m) = (s, err c m)
rebuild_in k s (fault x) = (s, fault x)

-- `if (shouldRebuild)` of `OpenIndexFile`; no index is mapped here.
pub rebuild_index : Kernel → ℕ → Store → Act Store
unfolding rebuild_in
rebuild_index k initial_bucket_count s =
    if s.read_only
    then (s, err corruption "index file must be valid in read-only mode")
    else rebuild_in k s (create_empty_index k.device initial_bucket_count)

-- `OpenIndexFile`
pub open_index_file : Kernel → ℕ → Files → Act Store
unfolding rebuild_index
open_index_file k initial_bucket_count fs =
    let s = fs.store in
    let file = fs.index_file in
    if k.open_fails "index.lumoi"
    then (s, err io_error "open")
    else if k.device.stat_fails
    then (s, err io_error "fstat")
    else if s.read_only && (file.size == 0)
    then (s, err corruption "index file is empty")
    else if file.size == 0
    then rebuild_index k initial_bucket_count s
    else if k.device.map_fails file.size
    then (s, err io_error "mmap")
    else if has_valid_index_layout file.size file.view
    then (record s { index = some file.view }, ok tt)
    else rebuild_index k initial_bucket_count (record s { index = none })

-- What `CloseFiles` does to the members of the store.
pub close_files : Store → Store
close_files s = record s { index = none; value_map = none; append_offset = 0 }

-- `if (!status) { CloseFiles(); return status; }`
pub close_on_error : Act Store → Act Store
unfolding close_files
close_on_error (s, ok u) = (s, ok u)
close_on_error (s, err c m) = (close_files s, err c m)
close_on_error (s, fault x) = (s, fault x)

-- The two files, one after the other.
pub open_both : Kernel → ℕ → Act Files → Act Store
unfolding open_index_file
open_both k initial_bucket_count (fs, ok u) = open_index_file k initial_bucket_count fs
open_both k initial_bucket_count (fs, err c m) = (fs.store, err c m)
open_both k initial_bucket_count (fs, fault x) = (fs.store, fault x)

-- The end of `OpenInternal`, once the row files are open too; their opening is left out.
pub mark_open : Store → Act Store
mark_open s = (record s { is_open = true }, ok tt)

-- The object part of `OpenInternal`, on a closed store.
pub open_counted : Kernel → Files → Result ℕ → Act Store
unfolding open_value_file open_both close_on_error mark_open
open_counted k fs (ok bucket_count) =
    on_ok (close_on_error (open_both k bucket_count (open_value_file k fs))) mark_open
open_counted k fs (err c m) = (fs.store, err c m)
open_counted k fs (fault x) = (fs.store, fault x)

pub open_objects : Kernel → ℕ → Files → Act Store
unfolding open_counted
open_objects k initial_bucket_count fs =
    if not fs.store.load.in_range
    then (fs.store, err invalid_argument "maxLoadFactor must be in (0.0, 0.95)")
    else open_counted k fs (round_up_power_of_two initial_bucket_count)

-- `SyncFile` of the row value files, in order.
pub sync_each : Kernel → List String → Result (Unit {0})
sync_each k [] = ok tt
sync_each k (name ∷ names) = require (not (k.sync_fails name)) io_error "fsync" >> sync_each k names

-- `Flush`, with the names of the row value files; the row index is open whenever the index is.
pub flush : Kernel → List String → Store → Result (Unit {0})
unfolding sync_each
flush k row_files s = if s.read_only then ok tt else elim s.index [
  | none ↦ ok tt
  | some ix ↦ do
    require (not (k.sync_fails "values.lumov")) io_error "fsync"
    sync_each k row_files
    require (not (k.sync_fails "row_index.lumori mapping")) io_error "msync"
    require (not (k.sync_fails "row_index.lumori")) io_error "fsync"
    require (not (k.sync_fails "index.lumoi mapping")) io_error "msync"
    require (not (k.sync_fails "index.lumoi")) io_error "fsync"
    ok tt
]

-- `Close`: the files are closed whatever `Flush` says.
pub close : Kernel → List String → Store → Act Store
unfolding flush close_files
close k row_files s =
    if not s.is_open
    then (s, ok tt)
    else (record (close_files s) { is_open = false; read_only = false }, flush k row_files s)
