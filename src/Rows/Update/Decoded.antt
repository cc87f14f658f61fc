-- ===== src/Rows/Update/Decoded.antt =====
-- `DecodeRowBlockEntries` on a block that `BuildRowBlockLayout` laid out.
use lumodb.Base.{
  ℕ, zero, suc, ◌+◌, ◌*◌, ◌^◌, ◌<◌, ◌≡◌, refl, sym, ap, subst, ◌∙◌, true, false, Option, none, some,
  List, ◌∷◌, ◌++◌, arith, ◌==◌, ==-refl, ltb, ltb-false, length, take, take-append, append_assoc,
  length-append, get_or, bytes_eq_refl, if◌then◌else◌,
}
use lumodb.Base.Words.{add64}
use lumodb.Status.{ok, ◌>>=◌}
use lumodb.Hash.{hash_string}
use lumodb.Format.Rows.{
  RowKeyBucket, encode_row_block_header, decode_row_block_header, decode-encode_row_block_header,
  FitsRowBlockHeader, encode_row_key_bucket, decode_row_key_bucket,
}
use lumodb.Probe.Count.{filled, filled-zero}
use lumodb.File.Loops.{flatten}
use lumodb.Rows.Blocks.{
  RowStructEntry, RowBlockLayout, empty_key_bucket, bucket_empty, block_slices, column_offset,
  key_bytes_offset, value_bytes_offset, encode_key_buckets,
}
use lumodb.Rows.Blocks.Keys.{PieceAt, PieceAt-take}
use lumodb.Rows.Blocks.Values.{ValueSlot, Placed}
use lumodb.Rows.Blocks.Bytes.{
  PieceAt-trans, PieceAt-le, length-bucket, length-header, length-block_slices,
  length-encode_key_buckets, bucket_at, key_bytes_at, value_bytes_at, decode-Placed,
}
use lumodb.Rows.Blocks.Finding.{IsLayout}
use lumodb.Rows.Update.{piece_of, decode_bucket, decode_from, decode_row_block_entries}
use lumodb.Rows.Update.Gathered.{push, gather, length-gather}

pub piece_of-PieceAt :
    {block : List ℕ} {o : ℕ} {piece : List ℕ} (size o' : ℕ)
    → PieceAt block o piece
    → size ≡ length piece
    → o ≡ o'
    → piece_of block size o' ≡ ok piece
unfolding piece_of
piece_of-PieceAt {block} {o} {piece} size o' at e same =
    let at' : PieceAt block o' piece = subst (λ x. PieceAt block x piece) same at in
    rw (ltb-false (length block) (o' + size) (omega (arith, PieceAt-le at', e)))
      (ap ok (PieceAt-take size at' e))

-- The whole block, its column with it.
pub record IsBlock (column : List ℕ) (row_id : ℕ) (l : RowBlockLayout)
    (T : ℕ → Option RowStructEntry) : Type 0 where
  pub layout : IsLayout column row_id l T
  pub small : length (block_slices column l) < 2 ^ 63
  pub fits : FitsRowBlockHeader l.header
  pub is_hash : l.header.column_hash ≡ hash_string column
  pub is_count : filled T l.header.bucket_count ≡ l.header.item_count

module _ {column : List ℕ} {row_id : ℕ} {l : RowBlockLayout} {T : ℕ → Option RowStructEntry}
    (is : IsBlock column row_id l T) where
  abbrev n : ℕ
  n = l.header.bucket_count

  abbrev block : List ℕ
  block = block_slices column l

  abbrev values : List ℕ
  values = flatten l.value_entries

  room : 72 + n * 48 + length column + length l.key_bytes + length values < 2 ^ 63
  room = omega (arith, is.small, length-block_slices column l, is.layout.width)

  header_read : decode_row_block_header (take 72 block) ≡ l.header
  unfolding block_slices
  header_read =
      ap decode_row_block_header (
        take-append 72 (encode_row_block_header l.header)
          (encode_key_buckets l.key_buckets ++ (column ++ (l.key_bytes ++ values)))
          (length-header l.header))
      ∙ decode-encode_row_block_header l.header is.fits

  column_at : PieceAt block (72 + length l.key_buckets * 48) column
  column_at = record {
    before = encode_row_block_header l.header ++ encode_key_buckets l.key_buckets;
    after = l.key_bytes ++ values;
    split = split;
    place = omega (
      arith,
      length-append (encode_row_block_header l.header) (encode_key_buckets l.key_buckets),
      length-header l.header,
      length-encode_key_buckets l.key_buckets,
    );
  }
    where
      split :
          block
          ≡ (encode_row_block_header l.header ++ encode_key_buckets l.key_buckets)
            ++ (column ++ (l.key_bytes ++ values))
      split = unfold block_slices in simp append_assoc

  column_read : piece_of block l.header.column_size (column_offset l.header) ≡ ok column
  column_read =
      piece_of-PieceAt l.header.column_size (column_offset l.header) column_at is.layout.is_column
        (omega (arith, room, is.layout.width))

  decode_bucket-ValueSlot :
      (b : RowKeyBucket) (e : RowStructEntry)
      → ValueSlot l.key_bytes values b e
      → decode_bucket block l.header b ≡ ok e
  unfolding decode_bucket
  decode_bucket-ValueSlot b e slot =
      let k = PieceAt-le slot.at in
      let v = PieceAt-le slot.value_at in
      let key_in : ltb l.header.key_bytes_size (add64 b.key_offset b.key_size) ≡ false =
        ltb-false l.header.key_bytes_size (add64 b.key_offset b.key_size)
          (omega (arith, k, room, is.layout.is_keys, slot.size)) in
      let value_in : ltb l.header.value_bytes_size (add64 b.value_offset b.value_size) ≡ false =
        ltb-false l.header.value_bytes_size (add64 b.value_offset b.value_size)
          (omega (arith, v, room, is.layout.is_values, slot.value_size)) in
      rw
        (
          slot.full,
          key_in,
          value_in,
          piece_of-PieceAt b.key_size (add64 (key_bytes_offset l.header) b.key_offset)
              (PieceAt-trans (key_bytes_at column l) slot.at) slot.size
              (omega (arith, k, room, is.layout.width, is.layout.is_column)),
          piece_of-PieceAt b.value_size (add64 (value_bytes_offset l.header) b.value_offset)
              (PieceAt-trans (value_bytes_at column l) slot.value_at) slot.value_size
              (omega (arith, v, room, is.layout.width, is.layout.is_column, is.layout.is_keys)),
        )
        refl

  -- What the loop does at one bucket.
  one_bucket :
      (b : RowKeyBucket) (o : Option RowStructEntry) (es : List RowStructEntry)
      → Placed l.key_bytes values b o
      → (if b.state == bucket_empty
          then ok es
          else (decode_bucket block l.header b >>= λ e. ok es >>= λ es. ok (e ∷ es)))
        ≡ ok (push o es)
  one_bucket b none es slot =
      let is_empty : (b.state == bucket_empty) ≡ true = ap (λ x. x.state == bucket_empty) slot in
      rw is_empty refl
  one_bucket b (some e) es slot =
      let not_empty : (b.state == bucket_empty) ≡ false = ap (λ x. x == bucket_empty) slot.full in
      rw not_empty
        (ap (λ r. r >>= λ e'. ok es >>= λ es'. ok (e' ∷ es')) (decode_bucket-ValueSlot b e slot))

  decode_from-gather :
      (rounds i : ℕ) → i + rounds ≡ n → decode_from block l.header i rounds ≡ ok (gather T i rounds)
  unfolding decode_from
  decode_from-gather zero i h = refl
  decode_from-gather (suc rounds) i h =
      let b = get_or l.key_buckets i empty_key_bucket in
      let lt : i < n = omega arith in
      let read : piece_of block 48 (72 + i * 48) ≡ ok (encode_row_key_bucket b) =
        piece_of-PieceAt 48 (72 + i * 48)
          (bucket_at column l i (subst (λ x. i < x) (sym is.layout.width) lt))
          (sym (length-bucket b)) refl in
      let decoded : decode_row_key_bucket (encode_row_key_bucket b) ≡ b =
        decode-Placed l.key_bytes values b (T i) (omega (arith, room)) (omega (arith, room))
          (is.layout.slots i lt) in
      rw (read, decoded, decode_from-gather rounds (suc i) (omega arith))
        (one_bucket b (T i) (gather T (suc i) rounds) (is.layout.slots i lt))

  -- The entries of a block are taken out in the order of its buckets.
  pub decode-gather : decode_row_block_entries block column row_id ≡ ok (gather T 0 n)
  unfolding decode_row_block_entries
  decode-gather =
      let long : ltb (length block) 72 ≡ false =
        ltb-false (length block) 72 (omega (arith, length-block_slices column l)) in
      let same_size : (l.header.block_size == length block) ≡ true =
        ap (λ x. x == length block) is.layout.is_size ∙ ==-refl (length block) in
      let same_row : (l.header.row_id == row_id) ≡ true =
        ap (λ x. x == row_id) is.layout.is_row ∙ ==-refl row_id in
      let same_hash : (l.header.column_hash == hash_string column) ≡ true =
        ap (λ x. x == hash_string column) is.is_hash ∙ ==-refl (hash_string column) in
      let all : length (gather T 0 n) ≡ l.header.item_count =
        let count = length-gather T n 0 in
        let whole = ap (filled T) (let z : 0 + n ≡ n = omega arith in z) in
        omega (arith, count, whole, filled-zero T, is.is_count) in
      let counted : (length (gather T 0 n) == l.header.item_count) ≡ true =
        ap (λ x. x == l.header.item_count) all ∙ ==-refl l.header.item_count in
      rw
        (
          long,
          header_read,
          is.layout.valid,
          same_size,
          same_row,
          same_hash,
          column_read,
          bytes_eq_refl column,
          decode_from-gather n 0 (omega arith),
          counted,
        )
        refl
