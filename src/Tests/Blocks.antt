-- ===== src/Tests/Blocks.antt =====
-- A row of three entries, two of them under one key, as a block in a shard.
use lumodb.Base.{
  sym, ℕ, ◌+◌, ◌<◌, ◌^◌, ◌≡◌, refl, none, List, [], ◌∷◌, ◌++◌, arith, replicate, length,
  length-append, inl, bytes_eq, if◌then◌else◌,
}
use lumodb.Status.{ok}
use lumodb.Hash.{hash_string, mix_hashes}
use lumodb.Probe.{probe_index, scan}
use lumodb.Capacity.{round_up_power_of_two}
use lumodb.Rows.Blocks.{
  RowStructEntry, empty_key_bucket, RowBlockLayout, RowFiles, BlockPlace, build_row_block_layout,
  choose_all, choose, choose_body, place_values, block_slices, find_value_in_row_block_at,
}
use lumodb.Rows.Blocks.Keys.{PieceAt}
use lumodb.Rows.Blocks.Choosing.{last_of}
use lumodb.Rows.Blocks.Bytes.{CanReadShard, length-block_slices}
use lumodb.Rows.Blocks.Finding.{value_of}
use lumodb.Rows.Blocks.Built.{FitsRow, build_row_block_layout-ok, find_value-build}
use lumodb.Format.Codec.{encode_le, decode_le}
use lumodb.Format.Rows.{
  encode_row_block_header, encode_row_key_bucket, decode_row_block_header, decode_row_key_bucket,
  is_valid_row_block_header,
}
use lumodb.Rows.Update.{piece_of, decode_bucket, decode_from, decode_row_block_entries, put_entry}
use lumodb.Rows.Update.Gathered.{Distinct}
use lumodb.Rows.Update.Put.{decode-build, find_value-put_entry}
use lumodb.Rows.Update.{load_row_entries}
use lumodb.Rows.Update.Loaded.{load_row_entries-build}
use lumodb.Tests.Fixture.{four_fifths, device, device-Works}

abbrev column : List ℕ
column = 99 ∷ []

abbrev entries : List RowStructEntry
entries =
    record { key = 1 ∷ []; bytes = 10 ∷ [] }
    ∷ record { key = 2 ∷ []; bytes = 20 ∷ 21 ∷ [] }
    ∷ record { key = 1 ∷ []; bytes = 11 ∷ 12 ∷ [] }
    ∷ []

fits : FitsRow four_fifths column entries
fits = record { column_fits = omega arith; covers = omega arith; small = omega arith }

build_row_block_layout-ok_example :
    (l : RowBlockLayout) × (build_row_block_layout four_fifths column 7 entries 5
        (hash_string column)
      ≡ ok l)
build_row_block_layout-ok_example =
    build_row_block_layout-ok four_fifths column 7 entries 5 (hash_string column) fits

-- A block of two entries, with the value of the second one.
abbrev layout_with : ℕ → List ℕ → RowBlockLayout
layout_with sequence second = record {
  header = record {
    magic = 1112297298;
    version = 1;
    header_size = 72;
    sequence = sequence;
    column_hash = 12638189399578898418;
    row_id = 7;
    column_size = 1;
    item_count = 2;
    bucket_count = 16;
    reserved32 = 0;
    key_bytes_size = 2;
    value_bytes_size = 2 + length second;
    block_size = 845 + length second;
  };
  key_buckets =
      replicate 9 empty_key_bucket
      ++ (record {
        state = 1;
        reserved = 0;
        key_hash = 12638152016183539244;
        key_offset = 0;
        key_size = 1;
        value_offset = 0;
        value_size = 2;
      }
          ∷ (replicate 2 empty_key_bucket
              ++ (record {
                state = 1;
                reserved = 0;
                key_hash = 12638155314718423877;
                key_offset = 1;
                key_size = 1;
                value_offset = 2;
                value_size = length second;
              }
                  ∷ replicate 3 empty_key_bucket)));
  key_bytes = 1 ∷ 2 ∷ [];
  value_entries = (11 ∷ 12 ∷ []) ∷ second ∷ [];
}

-- The block that the code builds of the entries: the later one under the key 1 is kept.
abbrev layout : RowBlockLayout
layout = layout_with 5 (20 ∷ 21 ∷ [])

layout_run : build_row_block_layout four_fifths column 7 entries 5 (hash_string column) ≡ ok layout
unfolding build_row_block_layout choose_all choose choose_body place_values hash_string mix_hashes
    probe_index scan round_up_power_of_two bytes_eq
layout_run = refl

-- The second shard, behind eight other bytes.
abbrev rows : RowFiles
rows = record {
  value_files = [] ∷ (replicate 8 0 ++ (block_slices column layout ++ [])) ∷ [];
  value_maps = none ∷ none ∷ [];
}

abbrev place : BlockPlace
place = record { shard_id = 1; block_offset = 8; block_size = 847 }

rows-CanReadShard : CanReadShard device rows 1
rows-CanReadShard = record {
  reads = device-Works.reads;
  there = omega arith;
  small = omega (
    arith,
    length-append (replicate 8 0) (block_slices column layout ++ []),
    length-append (block_slices column layout) [],
    length-block_slices column layout,
  );
  whole = inl refl;
}

block-PieceAt :
    PieceAt (replicate 8 0 ++ (block_slices column layout ++ [])) 8 (block_slices column layout)
block-PieceAt = record { before = replicate 8 0; after = []; split = refl; place = refl }

find_value-build_example :
    find_value_in_row_block_at device rows place layout.header (1 ∷ [])
    ≡ value_of (last_of (1 ∷ []) entries none)
find_value-build_example =
    find_value-build four_fifths column 7 entries 5 (hash_string column) fits layout layout_run
      device rows place rows-CanReadShard block-PieceAt refl (1 ∷ [])

last_run : value_of (last_of (1 ∷ []) entries none) ≡ ok (11 ∷ 12 ∷ [])
unfolding bytes_eq
last_run = refl

-- The entries that are taken out of the block.
abbrev kept : List RowStructEntry
kept =
    record { key = 1 ∷ []; bytes = 11 ∷ 12 ∷ [] }
    ∷ record { key = 2 ∷ []; bytes = 20 ∷ 21 ∷ [] }
    ∷ []

small : length (block_slices column layout) < 2 ^ 63
small = omega (arith, length-block_slices column layout)

decode-build_example :
    (es : List RowStructEntry) × (decode_row_block_entries (block_slices column layout) column 7
      ≡ ok es)
    × Distinct es
    × ((k : List ℕ) → last_of k es none ≡ last_of k entries none)
decode-build_example =
    decode-build four_fifths column 7 entries 5 fits (omega arith) (omega arith) layout layout_run
      small

kept_run : decode_row_block_entries (block_slices column layout) column 7 ≡ ok kept
unfolding decode_row_block_entries block_slices encode_row_block_header encode_row_key_bucket
    encode_le decode_from decode_bucket piece_of decode_row_block_header decode_row_key_bucket
    decode_le is_valid_row_block_header hash_string bytes_eq
kept_run = refl

-- The same row with another value under the key 2.
abbrev next_layout : RowBlockLayout
next_layout = layout_with 6 (30 ∷ [])

abbrev changed : List RowStructEntry
changed = put_entry kept (2 ∷ []) (30 ∷ [])

changed_fits : FitsRow four_fifths column changed
unfolding put_entry bytes_eq
changed_fits = record { column_fits = omega arith; covers = omega arith; small = omega arith }

next_run :
    build_row_block_layout four_fifths column 7 changed 6 (hash_string column) ≡ ok next_layout
unfolding build_row_block_layout choose_all choose choose_body place_values hash_string mix_hashes
    probe_index scan round_up_power_of_two bytes_eq put_entry
next_run = refl

abbrev next_rows : RowFiles
next_rows = record {
  value_files = [] ∷ (replicate 8 0 ++ (block_slices column next_layout ++ [])) ∷ [];
  value_maps = none ∷ none ∷ [];
}

next_rows-CanReadShard : CanReadShard device next_rows 1
next_rows-CanReadShard = record {
  reads = device-Works.reads;
  there = omega arith;
  small = omega (
    arith,
    length-append (replicate 8 0) (block_slices column next_layout ++ []),
    length-append (block_slices column next_layout) [],
    length-block_slices column next_layout,
  );
  whole = inl refl;
}

find_value-put_entry_example :
    find_value_in_row_block_at device next_rows
      (record { shard_id = 1; block_offset = 8; block_size = 846 })
      next_layout.header
      (2 ∷ [])
    ≡ (if bytes_eq (2 ∷ []) (2 ∷ [])
        then ok (30 ∷ [])
        else value_of (last_of (2 ∷ []) entries none))
find_value-put_entry_example =
    find_value-put_entry four_fifths column 7 entries 5 fits (omega arith) (omega arith) layout
      layout_run small kept kept_run (2 ∷ []) (30 ∷ []) 6 changed_fits next_layout next_run device
      next_rows (record { shard_id = 1; block_offset = 8; block_size = 846 }) next_rows-CanReadShard
      (record { before = replicate 8 0; after = []; split = refl; place = refl }) refl (2 ∷ [])

load_row_entries-build_example :
    (es : List RowStructEntry) × (load_row_entries device rows place column 7 ≡ ok es)
    × Distinct es
    × ((k : List ℕ) → last_of k es none ≡ last_of k entries none)
load_row_entries-build_example =
    load_row_entries-build four_fifths column 7 entries 5 fits (omega arith) (omega arith) layout
      layout_run device rows place rows-CanReadShard block-PieceAt
      (sym (length-block_slices column layout))
