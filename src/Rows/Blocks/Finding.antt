-- ===== src/Rows/Blocks/Finding.antt =====
-- `FindValueInRowBlockAt` against the table of entries that the block holds.
use Prim.Native.Nat.{bit_and}
use lumodb.Base.{
  ℕ, ◌+◌, ◌-◌, ◌*◌, ◌^◌, ◌<◌, ◌≡◌, ◌⊎◌, inl, inr, refl, sym, ap, ap₂, subst, ◌∙◌, true, false,
  Option, none, some, List, [], arith, ◌==◌, ==-refl, ==-eq, ltb-true, ltb-false, length, get_or,
  bytes_eq, bytes_eq_refl, Bool-cases,
}
use native.Mathlib.Nat.{mod-lt}
use lumodb.Base.Words.{add64, mul64}
use lumodb.Status.{Result, ok, err, not_found, ◌>>=◌}
use lumodb.Hash.{hash_string, mix_hashes}
use lumodb.Format.Rows.{
  RowKeyBucket, encode_row_key_bucket, decode_row_key_bucket, is_valid_row_block_header,
}
use lumodb.File.{Device}
use lumodb.Probe.{Step, next, done, mask_of, scan}
use lumodb.Probe.Scan.{IsSize, IsSize-pos, at-lt, and_mask-mod, scan_done}
use lumodb.Probe.Table.{start, home, Landed, IsTable, Contents, land}
use lumodb.Probe.Writes.{Landed-eq}
use lumodb.Probe.Count.{filled, has_empty}
use lumodb.File.Loops.{flatten}
use lumodb.Rows.Blocks.{
  RowStructEntry, RowBlockLayout, empty_key_bucket, bucket_empty, block_slices, RowFiles,
  read_row_value_at, leave, BlockPlace, outside, look_in, find_value_body,
  find_value_in_row_block_at, key_bytes_offset, value_bytes_offset,
}
use lumodb.Rows.Blocks.Keys.{by_key, PieceAt}
use lumodb.Rows.Blocks.Values.{ValueSlot, Placed}
use lumodb.Rows.Blocks.Bytes.{
  PieceAt-trans, PieceAt-le, CanReadShard, length-bucket, read_row_value_at-piece,
  length-block_slices, bucket_at, key_bytes_at, value_bytes_at, decode-Placed,
}

-- The layout of a block for the row, whose key table is `T`.
pub record IsLayout (column : List ℕ) (row_id : ℕ) (l : RowBlockLayout)
    (T : ℕ → Option RowStructEntry) : Type 0 where
  pub size : IsSize l.header.bucket_count
  pub width : length l.key_buckets ≡ l.header.bucket_count
  pub slots :
      (i : ℕ)
      → i < l.header.bucket_count
      → Placed l.key_bytes (flatten l.value_entries) (get_or l.key_buckets i empty_key_bucket) (T i)
  pub table : IsTable (by_key row_id) l.header.bucket_count T
  pub spare : filled T l.header.bucket_count < l.header.bucket_count
  pub is_row : l.header.row_id ≡ row_id
  pub is_column : l.header.column_size ≡ length column
  pub is_keys : l.header.key_bytes_size ≡ length l.key_bytes
  pub is_values : l.header.value_bytes_size ≡ length (flatten l.value_entries)
  pub is_size : l.header.block_size ≡ length (block_slices column l)
  pub valid : is_valid_row_block_header l.header ≡ true

-- What a client sees of an entry.
abbrev pub value_of : Option RowStructEntry → Result (List ℕ)
value_of none = err not_found "key not found in row"
value_of (some e) = ok e.bytes

module _ {dev : Device} {rows : RowFiles} (at : BlockPlace)
    (can : CanReadShard dev rows at.shard_id) {column : List ℕ} {row_id : ℕ} {l : RowBlockLayout}
    {T : ℕ → Option RowStructEntry} (is : IsLayout column row_id l T)
    (block : PieceAt
      (get_or rows.value_files at.shard_id [])
      at.block_offset
      (block_slices column l))
    (key : List ℕ) where
  abbrev n : ℕ
  n = l.header.bucket_count

  abbrev file : List ℕ
  file = get_or rows.value_files at.shard_id []

  room :
      at.block_offset
        + 72
        + n * 48
        + length column
        + length l.key_bytes
        + length (flatten l.value_entries)
      < 2 ^ 63
  room = omega (arith, can.small, PieceAt-le block, length-block_slices column l, is.width)

  -- Reading a bucket gives the bucket.
  bucket_read :
      (i : ℕ)
      → i < n
      → (read_row_value_at dev rows at.shard_id 48 (add64 (add64 at.block_offset 72) (mul64 i 48))
          >>= λ bytes.
              look_in dev rows at l.header key (hash_string key) (decode_row_key_bucket bytes))
        ≡ look_in dev rows at l.header key
            (hash_string key)
            (get_or l.key_buckets i empty_key_bucket)
  bucket_read i lt =
      let b = get_or l.key_buckets i empty_key_bucket in
      let piece =
        PieceAt-trans block (bucket_at column l i (subst (λ x. i < x) (sym is.width) lt)) in
      let place : at.block_offset + (72 + i * 48) ≡ add64 (add64 at.block_offset 72) (mul64 i 48) =
        omega (arith, room) in
      let read =
        read_row_value_at-piece 48 can
          (subst (λ o. PieceAt file o (encode_row_key_bucket b)) place piece)
          (sym (length-bucket b)) in
      ap
        (λ r. r >>= λ bytes.
          look_in dev rows at l.header key (hash_string key) (decode_row_key_bucket bytes))
        read
      ∙ ap (look_in dev rows at l.header key (hash_string key)) (
          decode-Placed l.key_bytes (flatten l.value_entries) b (T i) (omega (arith, room))
            (omega (arith, room)) (is.slots i lt))

  module _ (b : RowKeyBucket) (e : RowStructEntry)
      (slot : ValueSlot l.key_bytes (flatten l.value_entries) b e) where
    inside : outside l.header b ≡ false
    inside =
        let k = PieceAt-le slot.at in
        let v = PieceAt-le slot.value_at in
        rw
          (
            ltb-false l.header.key_bytes_size b.key_offset (omega (arith, k, is.is_keys)),
            ltb-false (l.header.key_bytes_size - b.key_offset) b.key_size
                (omega (arith, k, is.is_keys, slot.size)),
            ltb-false l.header.value_bytes_size b.value_offset (omega (arith, v, is.is_values)),
            ltb-false (l.header.value_bytes_size - b.value_offset) b.value_size
                (omega (arith, v, is.is_values, slot.value_size)),
          )
          refl

    key_read :
        length key ≡ length e.key
        → read_row_value_at dev rows at.shard_id
            (length key)
            (add64 (add64 at.block_offset (key_bytes_offset l.header)) b.key_offset)
          ≡ ok e.key
    key_read same =
        let piece = PieceAt-trans block (PieceAt-trans (key_bytes_at column l) slot.at) in
        let place : at.block_offset
              + (72 + length l.key_buckets * 48 + length column + b.key_offset)
            ≡ add64 (add64 at.block_offset (key_bytes_offset l.header)) b.key_offset =
          omega (arith, room, is.width, is.is_column, PieceAt-le slot.at) in
        read_row_value_at-piece (length key) can (subst (λ o. PieceAt file o e.key) place piece)
          same

    value_read :
        read_row_value_at dev rows at.shard_id b.value_size
          (add64 (add64 at.block_offset (value_bytes_offset l.header)) b.value_offset)
        ≡ ok e.bytes
    value_read =
        let piece = PieceAt-trans block (PieceAt-trans (value_bytes_at column l) slot.value_at) in
        let place : at.block_offset
              + (72
                  + length l.key_buckets * 48
                  + length column
                  + length l.key_bytes
                  + b.value_offset)
            ≡ add64 (add64 at.block_offset (value_bytes_offset l.header)) b.value_offset =
          omega (arith, room, is.width, is.is_column, is.is_keys, PieceAt-le slot.value_at) in
        read_row_value_at-piece b.value_size can (subst (λ o. PieceAt file o e.bytes) place piece)
          slot.value_size

    -- A bucket of another key is passed, whatever its hash.
    look_in-other :
        bytes_eq e.key key ≡ false → look_in dev rows at l.header key (hash_string key) b ≡ ok none
    unfolding look_in
    look_in-other other = rw slot.full (elim (Bool-cases (b.key_hash == hash_string key)) [
      | inr h ↦ rw h refl
      | inl h ↦ elim (Bool-cases (b.key_size == length key)) [
        | inr s ↦ rw (h, s) refl
        | inl s ↦
            let same : length key ≡ length e.key =
              sym (==-eq b.key_size (length key) s) ∙ slot.size in
            rw (h, s, inside, key_read same, other) refl
      ]
    ])

    look_in-same :
        e.key ≡ key → look_in dev rows at l.header key (hash_string key) b ≡ ok (some e.bytes)
    unfolding look_in
    look_in-same is_key =
        let h : (b.key_hash == hash_string key) ≡ true =
          ap (λ x. x == hash_string key) (slot.hash ∙ ap hash_string is_key)
          ∙ ==-refl (hash_string key) in
        let s : (b.key_size == length key) ≡ true =
          ap (λ x. x == length key) (slot.size ∙ ap (length {0}) is_key) ∙ ==-refl (length key) in
        let eq : bytes_eq e.key key ≡ true = ap (λ k. bytes_eq k key) is_key ∙ bytes_eq_refl key in
        rw (slot.full, h, s, inside, key_read (ap (length {0}) (sym is_key)), eq, value_read) refl

  abbrev body : ℕ → Step (Result (List ℕ))
  body = find_value_body dev rows at l.header key (hash_string key)

  body-eq :
      (i : ℕ)
      → i < n
      → body i
        ≡ leave (
            look_in dev rows at l.header key
              (hash_string key)
              (get_or l.key_buckets i empty_key_bucket))
  unfolding find_value_body
  body-eq i lt = ap leave (bucket_read i lt)

  Placed-at :
      (i : ℕ)
      → i < n
      → (o : Option RowStructEntry) → T i ≡ o
      → Placed l.key_bytes (flatten l.value_entries) (get_or l.key_buckets i empty_key_bucket) o
  Placed-at i lt o h =
      subst (Placed l.key_bytes (flatten l.value_entries) (get_or l.key_buckets i empty_key_bucket))
        h (is.slots i lt)

  look_in-empty :
      (b : RowKeyBucket)
      → b ≡ empty_key_bucket
      → look_in dev rows at l.header key (hash_string key) b ≡ err not_found "key not found in row"
  unfolding look_in
  look_in-empty b h =
      let is_empty : (b.state == bucket_empty) ≡ true = ap (λ x. x.state == bucket_empty) h in
      rw is_empty refl

  -- The search leaves where the probe for the key lands, with what stands there.
  find-Landed :
      {d : ℕ}
      → Landed (by_key row_id) n T key d
      → scan body
          (err not_found "key not found in row")
          n
          (bit_and (mix_hashes (hash_string key) row_id) (mask_of n))
        ≡ value_of (T (home (by_key row_id) n key d))
  find-Landed {d} land =
      ap (scan body (err not_found "key not found in row") n)
        (and_mask-mod is.size (mix_hashes (hash_string key) row_id))
      ∙ scan_done body (err not_found "key not found in row") (start (by_key row_id) n key) d
          (value_of (T i)) is.size
          (mod-lt (mix_hashes (hash_string key) row_id) (IsSize-pos is.size)) land.inside
          (stop land.landing) go_on
    where
      i : ℕ
      i = home (by_key row_id) n key d

      inside_at : (q : ℕ) → home (by_key row_id) n key q < n
      inside_at q = at-lt (start (by_key row_id) n key) q (IsSize-pos is.size)

      stop :
          (T i ≡ none) ⊎ ((e : RowStructEntry) × (T i ≡ some e) × (e.key ≡ key))
          → body i ≡ done (value_of (T i))
      stop (inl empty) =
          body-eq i (inside_at d)
          ∙ ap leave (
              look_in-empty (get_or l.key_buckets i empty_key_bucket)
                (Placed-at i (inside_at d) none empty))
          ∙ ap (λ o. done (value_of o)) (sym empty)
      stop (inr (e, full, is_key)) =
          body-eq i (inside_at d)
          ∙ ap leave (
              look_in-same (get_or l.key_buckets i empty_key_bucket) e
                (Placed-at i (inside_at d) (some e) full) is_key)
          ∙ ap (λ o. done (value_of o)) (sym full)

      go_on : (q : ℕ) → q < d → body (home (by_key row_id) n key q) ≡ next
      go_on q lt =
          let (e, full, other) = land.passed q lt in
          let j = home (by_key row_id) n key q in
          body-eq j (inside_at q)
          ∙ ap leave (
              look_in-other (get_or l.key_buckets j empty_key_bucket) e
                (Placed-at j (inside_at q) (some e) full) other)

  -- `FindValueInRowBlockAt` finds what the block's table has under the key.
  pub find_value-Contents :
      {f : List ℕ → Option RowStructEntry}
      → Contents (by_key row_id) n T f
      → at.block_size ≡ length (block_slices column l)
      → find_value_in_row_block_at dev rows at l.header key ≡ value_of (f key)
  unfolding find_value_in_row_block_at
  find_value-Contents {f} has same_size =
      let (d, landed) =
        land (by_key row_id) n T key (IsSize-pos is.size) (has_empty T n is.spare) in
      let size : (l.header.block_size == at.block_size) ≡ true =
        ap₂ (λ a b. a == b) is.is_size same_size ∙ ==-refl (length (block_slices column l)) in
      rw (ltb-true at.shard_id (length rows.value_files) can.there, is.valid, size)
        (ap
            (λ r.
              scan body (err not_found "key not found in row") n
                (bit_and (mix_hashes (hash_string key) r) (mask_of n)))
            is.is_row
          ∙ find-Landed landed
          ∙ ap value_of (Landed-eq (by_key row_id) n is.table has landed))
