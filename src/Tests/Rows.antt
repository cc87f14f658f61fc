-- ===== src/Tests/Rows.antt =====
-- The header of a block of one key.
use lumodb.Base.{◌≡◌, refl, true}
use lumodb.Format.Rows.{RowBlockHeader, is_valid_row_block_header, row_block_magic}

abbrev block : RowBlockHeader
block = record {
  magic = row_block_magic;
  version = 1;
  header_size = 72;
  sequence = 9;
  column_hash = 5;
  row_id = 7;
  column_size = 3;
  item_count = 1;
  bucket_count = 2;
  reserved32 = 0;
  key_bytes_size = 4;
  value_bytes_size = 6;
  block_size = 181;
}

block_valid : is_valid_row_block_header block ≡ true
unfolding is_valid_row_block_header
block_valid = refl
