-- ===== src/Rows/Update/Loaded.antt =====
-- `LoadRowBlock` and `DecodeRowBlockEntries` on a block that stands in a shard.
use lumodb.Base.{ℕ, ◌<◌, ◌≡◌, ap, ◌∙◌, none, List, [], arith, ltb-true, length, get_or}
use lumodb.Base.Words.{u64}
use lumodb.Status.{ok, ◌>>=◌}
use lumodb.Hash.{hash_string}
use lumodb.Capacity.{LoadFactor}
use lumodb.File.{Device}
use lumodb.Rows.Layout.{RowStructEntry, RowBlockLayout, build_row_block_layout, block_slices}
use lumodb.Rows.Blocks.{RowFiles, BlockPlace}
use lumodb.Rows.Blocks.Keys.{PieceAt}
use lumodb.Rows.Blocks.Choosing.{last_of}
use lumodb.Rows.Blocks.Bytes.{CanReadShard, PieceAt-le, read_row_value_at-piece}
use lumodb.Rows.Blocks.Built.{FitsRow}
use lumodb.Rows.Update.{load_row_block, load_row_entries, decode_row_block_entries}
use lumodb.Rows.Update.Gathered.{Distinct}
use lumodb.Rows.Update.Put.{decode-build}

load_row_block-PieceAt :
    {dev : Device} {rows : RowFiles} (at : BlockPlace) {block : List ℕ}
    → CanReadShard dev rows at.shard_id
    → PieceAt (get_or rows.value_files at.shard_id []) at.block_offset block
    → at.block_size ≡ length block
    → load_row_block dev rows at ≡ ok block
unfolding load_row_block
load_row_block-PieceAt {dev} {rows} at can piece size =
    rw (ltb-true at.shard_id (length rows.value_files) can.there)
      (read_row_value_at-piece at.block_size can piece size)

-- From a row's block that was laid out by BuildRowBlockLayout and stands in a shard that can be
-- read, the end of LoadRowEntries reads entries in which no key comes twice, and each key has the
-- last value that the block was built with.
pub load_row_entries-build :
    (load : LoadFactor) (column : List ℕ) (row_id : ℕ) (entries : List RowStructEntry)
    (sequence : ℕ)
    → FitsRow load column entries
    → sequence < u64
    → row_id < u64
    → (l : RowBlockLayout)
    → build_row_block_layout load column row_id entries sequence (hash_string column) ≡ ok l
    → (dev : Device) (rows : RowFiles) (at : BlockPlace) → CanReadShard dev rows at.shard_id
    → PieceAt (get_or rows.value_files at.shard_id []) at.block_offset (block_slices column l)
    → at.block_size ≡ length (block_slices column l)
    → (es : List RowStructEntry) × (load_row_entries dev rows at column row_id ≡ ok es)
      × Distinct es
      × ((k : List ℕ) → last_of k es none ≡ last_of k entries none)
unfolding load_row_entries
load_row_entries-build load column row_id entries sequence fits seq row l run dev rows at can piece
      size =
    let (es, decoded, distinct, same) =
      decode-build load column row_id entries sequence fits seq row l run
        (omega (arith, can.small, PieceAt-le piece)) in
    (
      es,
      ap (λ r. r >>= λ block. decode_row_block_entries block column row_id)
            (load_row_block-PieceAt at can piece size)
          ∙ decoded,
      distinct,
      same,
    )
