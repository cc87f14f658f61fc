-- ===== src/Rows/Blocks/Bytes.antt =====
-- A row block in the bytes of a shard: where its parts stand, and what reading them gives.
use lumodb.Base.{
  ℕ, zero, suc, ◌+◌, ◌-◌, ◌*◌, ◌^◌, ◌≤◌, ◌<◌, ◌≡◌, ◌⊎◌, inl, inr, refl, sym, ap, subst, ◌∙◌, false,
  Option, none, some, List, [], ◌∷◌, ◌++◌, append_assoc, append-nil, arith, ltb, ltb-true,
  ltb-false, length, length-append, get_or,
}
use lumodb.Base.Words.{u64}
use lumodb.Status.{ok}
use lumodb.Hash.Bounds.{hash_string-lt}
use lumodb.Format.Codec.{encode_le}
use lumodb.Format.Rows.{
  RowBlockHeader, RowKeyBucket, encode_row_block_header, encode_row_key_bucket,
  decode_row_key_bucket, decode-encode_row_key_bucket,
}
use lumodb.File.{Device, Reads}
use lumodb.File.Contents.{read_all_at-inside}
use lumodb.File.Loops.{flatten}
use lumodb.Rows.Blocks.{
  RowStructEntry, RowBlockLayout, empty_key_bucket, encode_key_buckets, block_slices, RowFiles,
  read_row_value_at,
}
use lumodb.Rows.Blocks.Keys.{PieceAt, PieceAt-take}
use lumodb.Rows.Blocks.Values.{Placed}

-- A piece of a piece.
pub PieceAt-trans :
    {bytes : List ℕ} {o k : ℕ} {whole piece : List ℕ}
    → PieceAt bytes o whole
    → PieceAt whole k piece
    → PieceAt bytes (o + k) piece
PieceAt-trans {bytes} {o} {k} {whole} {piece} out inner = record {
  before = out.before ++ inner.before;
  after = inner.after ++ out.after;
  split = out.split ∙ ap (λ w. out.before ++ (w ++ out.after)) inner.split ∙ simp append_assoc;
  place = omega (arith, length-append out.before inner.before, out.place, inner.place);
}

-- A piece ends inside.
pub PieceAt-le :
    {bytes : List ℕ} {o : ℕ} {piece : List ℕ}
    → PieceAt bytes o piece
    → o + length piece ≤ length bytes
PieceAt-le {bytes} {o} {piece} at = omega (
  arith,
  ap (length {0}) at.split,
  length-append at.before (piece ++ at.after),
  length-append piece at.after,
  at.place,
)

-- Reads of a shard meet no error, through the descriptor or through the mapping.
pub record CanReadShard (dev : Device) (rows : RowFiles) (shard : ℕ) : Type 0 where
  pub reads : Reads dev
  pub there : shard < length rows.value_files
  pub small : length (get_or rows.value_files shard []) < 2 ^ 63
  pub whole :
      (get_or rows.value_maps shard none ≡ none)
      ⊎ (get_or rows.value_maps shard none ≡ some (length (get_or rows.value_files shard [])))

pub read_row_value_at-piece :
    {dev : Device} {rows : RowFiles} {shard : ℕ} {o : ℕ} {piece : List ℕ} (size : ℕ)
    → CanReadShard dev rows shard
    → PieceAt (get_or rows.value_files shard []) o piece
    → size ≡ length piece
    → read_row_value_at dev rows shard size o ≡ ok piece
unfolding read_row_value_at
read_row_value_at-piece {dev} {rows} {shard} {o} {piece} size can at e = go can.whole
  where
    file : List ℕ
    file = get_or rows.value_files shard []

    go :
        (get_or rows.value_maps shard none ≡ none)
          ⊎ (get_or rows.value_maps shard none ≡ some (length file))
        → read_row_value_at dev rows shard size o ≡ ok piece
    go (inl unmapped) =
        rw (ltb-true shard (length rows.value_files) can.there, unmapped)
          (read_all_at-inside dev file size o can.reads (omega (arith, PieceAt-le at, e)) can.small
            ∙ ap ok (PieceAt-take size at e))
    go (inr mapped) =
        let inside : ltb (length file) o ≡ false =
          ltb-false (length file) o (omega (arith, PieceAt-le at, e)) in
        let fits : ltb (length file - o) size ≡ false =
          ltb-false (length file - o) size (omega (arith, PieceAt-le at, e)) in
        rw (ltb-true shard (length rows.value_files) can.there, mapped, inside, fits)
          (ap ok (PieceAt-take size at e))

pub length-bucket : (b : RowKeyBucket) → length (encode_row_key_bucket b) ≡ 48
unfolding encode_row_key_bucket encode_le
length-bucket b = refl

pub length-header : (h : RowBlockHeader) → length (encode_row_block_header h) ≡ 72
unfolding encode_row_block_header encode_le
length-header h = refl

pub length-encode_key_buckets :
    (bs : List RowKeyBucket) → length (encode_key_buckets bs) ≡ length bs * 48
length-encode_key_buckets [] = refl
length-encode_key_buckets (b ∷ bs) = omega (
  arith,
  length-append (encode_row_key_bucket b) (encode_key_buckets bs),
  length-bucket b,
  length-encode_key_buckets bs,
)

-- Each bucket stands at its place in the table.
bucket-PieceAt :
    (bs : List RowKeyBucket) (i : ℕ)
    → i < length bs
    → PieceAt
        (encode_key_buckets bs)
        (i * 48)
        (encode_row_key_bucket (get_or bs i empty_key_bucket))
bucket-PieceAt [] i lt = absurd (omega arith)
bucket-PieceAt (b ∷ bs) zero lt = record {
  before = [];
  after = encode_key_buckets bs;
  split = refl;
  place = omega arith;
}
bucket-PieceAt (b ∷ bs) (suc i) lt =
    let rest = bucket-PieceAt bs i (omega arith) in
    record {
      before = encode_row_key_bucket b ++ rest.before;
      after = rest.after;
      split = ap (λ x. encode_row_key_bucket b ++ x) rest.split ∙ simp append_assoc;
      place =
          omega (
            arith,
            length-append (encode_row_key_bucket b) rest.before,
            length-bucket b,
            rest.place,
          );
    }

module _ (column : List ℕ) (l : RowBlockLayout) where
  abbrev h : List ℕ
  h = encode_row_block_header l.header

  abbrev table : List ℕ
  table = encode_key_buckets l.key_buckets

  abbrev values : List ℕ
  values = flatten l.value_entries

  pub length-block_slices :
      length (block_slices column l)
      ≡ 72 + length l.key_buckets * 48 + length column + length l.key_bytes + length values
  unfolding block_slices
  length-block_slices = omega (
    arith,
    length-append h (table ++ (column ++ (l.key_bytes ++ values))),
    length-header l.header,
    length-append table (column ++ (l.key_bytes ++ values)),
    length-encode_key_buckets l.key_buckets,
    length-append column (l.key_bytes ++ values),
    length-append l.key_bytes values,
  )

  pub bucket_at :
      (i : ℕ)
      → i < length l.key_buckets
      → PieceAt
          (block_slices column l)
          (72 + i * 48)
          (encode_row_key_bucket (get_or l.key_buckets i empty_key_bucket))
  unfolding block_slices
  bucket_at i lt =
      PieceAt-trans {whole = table}
        (record {
          before = h;
          after = column ++ (l.key_bytes ++ values);
          split = refl;
          place = length-header l.header;
        })
        (bucket-PieceAt l.key_buckets i lt)

  pub key_bytes_at :
      PieceAt (block_slices column l) (72 + length l.key_buckets * 48 + length column) l.key_bytes
  unfolding block_slices
  key_bytes_at = record {
    before = h ++ (table ++ column);
    after = values;
    split = simp append_assoc;
    place = omega (
      arith,
      length-append h (table ++ column),
      length-append table column,
      length-header l.header,
      length-encode_key_buckets l.key_buckets,
    );
  }

  pub value_bytes_at :
      PieceAt
        (block_slices column l)
        (72 + length l.key_buckets * 48 + length column + length l.key_bytes)
        values
  unfolding block_slices
  value_bytes_at = record {
    before = h ++ (table ++ (column ++ l.key_bytes));
    after = [];
    split = simp (append_assoc, append-nil);
    place = omega (
      arith,
      length-append h (table ++ (column ++ l.key_bytes)),
      length-append table (column ++ l.key_bytes),
      length-append column l.key_bytes,
      length-header l.header,
      length-encode_key_buckets l.key_buckets,
    );
  }

-- The buckets that the second loop leaves are read back from their bytes.
pub decode-Placed :
    (key_bytes value_bytes : List ℕ) (b : RowKeyBucket) (o : Option RowStructEntry)
    → length key_bytes < u64
    → length value_bytes < u64
    → Placed key_bytes value_bytes b o
    → decode_row_key_bucket (encode_row_key_bucket b) ≡ b
decode-Placed key_bytes value_bytes b none hk hv is_empty =
    subst (λ x. decode_row_key_bucket (encode_row_key_bucket x) ≡ x) (sym is_empty)
      (decode-encode_row_key_bucket empty_key_bucket record {
        state_fits = omega arith;
        reserved_fits = omega arith;
        key_hash_fits = omega arith;
        key_offset_fits = omega arith;
        key_size_fits = omega arith;
        value_offset_fits = omega arith;
        value_size_fits = omega arith;
      })
decode-Placed key_bytes value_bytes b (some e) hk hv slot = decode-encode_row_key_bucket b record {
  state_fits = omega (arith, slot.full);
  reserved_fits = omega (arith, slot.plain);
  key_hash_fits = omega (arith, slot.hash, hash_string-lt e.key);
  key_offset_fits = omega (arith, PieceAt-le slot.at, hk);
  key_size_fits = omega (arith, PieceAt-le slot.at, hk, slot.size);
  value_offset_fits = omega (arith, PieceAt-le slot.value_at, hv);
  value_size_fits = omega (arith, PieceAt-le slot.value_at, hv, slot.value_size);
}
