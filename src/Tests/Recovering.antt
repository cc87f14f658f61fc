-- ===== src/Tests/Recovering.antt =====
-- Openings, rebuilds and a migration of small files.
use lumodb.Base.{
  ℕ, ◌≡◌, refl, sym, true, false, none, some, List, [], ◌∷◌, ◌++◌, append-nil, arith, length,
  length-append,
}
use lumodb.Status.{ok}
use lumodb.Format.Codec.{encode_le}
use lumodb.Format.Headers.{encode_file_header, new_value_file_header, legacy_value_file_magic}
use lumodb.Format.Legacy.{encode_legacy_header}
use lumodb.Objects.{Store}
use lumodb.Objects.Records.{Entry, encode, length-encode}
use lumodb.Objects.Lookup.{Models}
use lumodb.Writer.{new_index, index_file_size}
use lumodb.Writer.Publish.{update_all}
use lumodb.Writer.Resize.{no_map, new_index-Indexes}
use lumodb.Writer.Layout.{encode_all}
use lumodb.Recovery.{has_valid_index_layout, rebuild_index_from_values}
use lumodb.Recovery.Layout.{HasHeader, has_valid_index_layout-true}
use lumodb.Recovery.Rebuild.{AllFit, rebuild_index_from_values-Models}
use lumodb.Migration.{migrated}
use lumodb.Migration.Log.{AllFitLegacy, LegacyRecord, encode_legacy_all, migrated-entries}
use lumodb.Opening.{Kernel, Files, no_file, open_objects}
use lumodb.Opening.Reopen.{Answers, file_header, open_objects-Models, open_objects-recovers}
use lumodb.Opening.Migrate.{open_objects-migrates}
use lumodb.Opening.ReadOnly.{Serves, open_objects-keeps_file, open_objects-Serves}
use lumodb.Tests.Fixture.{
  device, device-Works, header_bytes, length-header_bytes, empty_store, sixteen, start,
  four_fifths-IsLoadFactor,
}

abbrev kernel : Kernel
kernel = record {
  device = device;
  open_fails = λ name. false;
  sync_fails = λ name. false;
  rename_fails = false;
  remove_fails = false;
}

kernel-Answers : Answers kernel
kernel-Answers = record { works = device-Works; stats = refl; opens = λ name. refl }

abbrev new_index-HasHeader : HasHeader (new_index 16)
new_index-HasHeader = record { magic = refl; version = refl; header_size = refl }

has_valid_index_layout-true_example :
    has_valid_index_layout (index_file_size 16) (new_index 16) ≡ true
has_valid_index_layout-true_example =
    has_valid_index_layout-true start.is_index (omega arith) new_index-HasHeader

-- A log of one object.
abbrev ann : Entry
ann = record { column = b'u' ∷ []; key = b'a' ∷ []; value = 41 ∷ [] }

abbrev log : List Entry
log = ann ∷ []

log-length : length (encode_all log) ≡ 27
log-length = omega (arith, length-append (encode ann) [], length-encode ann)

abbrev log_file : List ℕ
log_file = header_bytes ++ encode_all log

log_file-length : length log_file ≡ 51
log_file-length =
    omega (arith, length-append header_bytes (encode_all log), log-length, length-header_bytes)

log-AllFit : AllFit log
log-AllFit =
    (record { column_fits = omega arith; key_fits = omega arith; value_fits = omega arith }, tt)

abbrev unindexed : Store
unindexed = record empty_store { value_file = log_file; index = some (new_index 16) }

rebuild_index_from_values-Models_example :
    (s' : Store) × (rebuild_index_from_values device unindexed ≡ (s', ok tt))
    × Models (update_all no_map log) s'
    × (s'.value_file ≡ log_file)
    × (s'.read_only ≡ false)
rebuild_index_from_values-Models_example =
    rebuild_index_from_values-Models device-Works.reads device-Works.grants unindexed
      four_fifths-IsLoadFactor header_bytes log refl refl refl refl length-header_bytes
      (omega (arith, log_file-length)) log-AllFit
      (new_index-Indexes log_file 1 sixteen (omega arith)) (omega arith) (omega arith) (omega arith)

-- The files of a store that lost its index, and of one without objects.
abbrev log_only : Files
log_only = record {
  store = record empty_store { value_file = log_file; index = none; is_open = false };
  index_file = no_file;
}

open_objects-recovers_example :
    (s' : Store) × (open_objects kernel 65536 log_only ≡ (s', ok tt))
    × Models (update_all no_map log) s'
    × (s'.is_open ≡ true)
    × (s'.read_only ≡ false)
    × (s'.value_file ≡ log_file)
open_objects-recovers_example =
    open_objects-recovers kernel-Answers log_only
      (record {
        unmapped = refl;
        file = refl;
        small = omega (arith, log_file-length);
        factor = refl;
      })
      65536 four_fifths-IsLoadFactor log refl refl refl log-AllFit (omega arith) (omega arith)

abbrev left_empty : Files
left_empty = record {
  store = record empty_store { index = none; is_open = false; read_only = true };
  index_file = record { size = index_file_size 16; view = new_index 16 };
}

open_objects-Models_example :
    (s' : Store) × (open_objects kernel 65536 left_empty ≡ (s', ok tt))
    × Models no_map s'
    × (s'.is_open ≡ true)
    × (s'.read_only ≡ true)
    × (s'.value_file ≡ header_bytes)
open_objects-Models_example =
    open_objects-Models kernel-Answers left_empty
      (record {
        unmapped = refl;
        file = sym (append-nil header_bytes);
        small = omega (arith, length-header_bytes);
        factor = refl;
      })
      65536 refl start new_index-HasHeader (omega arith) (omega arith) (omega arith) (omega arith)

abbrev left_opened : (s' : Store) × (open_objects kernel 65536 left_empty ≡ (s', ok tt))
left_opened =
    let (s', run, models, opened, mode, kept) =
      open_objects-Models kernel-Answers left_empty
        (record {
          unmapped = refl;
          file = sym (append-nil header_bytes);
          small = omega (arith, length-header_bytes);
          factor = refl;
        })
        65536 refl start new_index-HasHeader (omega arith) (omega arith) (omega arith)
        (omega arith) in
    (s', run)

open_objects-Serves_example :
    (left_opened.0.is_open ≡ true) × Serves kernel left_empty left_opened.0
open_objects-Serves_example =
    open_objects-Serves kernel left_empty 65536 left_opened.0 refl left_opened.1

-- The same object in the first format.
abbrev old_ann : LegacyRecord
old_ann = record { sequence = 1; column_hash = 2; key_hash = 3; entry = ann }

abbrev old_header : List ℕ
old_header = encode_file_header (record new_value_file_header { magic = legacy_value_file_magic })

old_header-length : length old_header ≡ 24
unfolding encode_file_header encode_le
old_header-length = refl

abbrev old_file : List ℕ
old_file = old_header ++ encode_legacy_all (old_ann ∷ [])

old_file-length : length old_file ≡ 75
unfolding encode_file_header encode_legacy_header encode_le
old_file-length = refl

abbrev old_fits : AllFitLegacy (old_ann ∷ [])
old_fits = (
  record {
    sequence_fits = omega arith;
    column_hash_fits = omega arith;
    key_hash_fits = omega arith;
    names_fit = omega arith;
    value_fits = omega arith;
  },
  tt,
)

migrated-entries_example :
    migrated device old_file (length old_file)
    ≡ (file_header ++ encode_all log, ok (length (file_header ++ encode_all log)))
migrated-entries_example =
    migrated-entries device device-Works.reads device-Works.writes old_file
      (omega (arith, old_file-length)) old_header (old_ann ∷ []) refl old_header-length old_fits

abbrev old_files : Files
old_files = record {
  store = record empty_store { value_file = old_file; index = none; is_open = false };
  index_file = no_file;
}

open_objects-migrates_example :
    (s' : Store) × (open_objects kernel 65536 old_files ≡ (s', ok tt))
    × Models (update_all no_map log) s'
    × (s'.is_open ≡ true)
    × (s'.read_only ≡ false)
    × (s'.value_file ≡ file_header ++ encode_all log)
open_objects-migrates_example =
    open_objects-migrates kernel-Answers (record { syncs = refl; renames = refl; removes = refl })
      old_files (old_ann ∷ []) refl refl (omega (arith, old_file-length)) old_fits
      four_fifths-IsLoadFactor 65536 refl refl (omega arith) (omega arith)

-- It is not migrated by a read-only open.
abbrev old_read_only : Files
old_read_only = record old_files { store = record old_files.store { read_only = true } }

open_objects-keeps_file_example : (open_objects kernel 65536 old_read_only).0.value_file ≡ old_file
open_objects-keeps_file_example = open_objects-keeps_file kernel old_read_only 65536 refl
