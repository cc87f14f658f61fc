-- ===== src/Rows/Update/Put.antt =====
-- What `PutRowStruct` makes of a row: the old block taken apart, one entry replaced or added, and a
-- new block built.
use lumodb.Base.{
  ℕ, ◌^◌, ◌<◌, ◌≡◌, refl, sym, ap, subst, ◌∙◌, Bool, true, false, Option, none, some, inl, inr,
  List, [], ◌∷◌, arith, length, get_or, bytes_eq, bytes_eq-eq, if◌then◌else◌, Bool-cases,
}
use lumodb.Base.Words.{u64}
use lumodb.Status.{ok}
use lumodb.Hash.{hash_string}
use lumodb.Hash.Bounds.{hash_string-lt}
use lumodb.Capacity.{LoadFactor}
use lumodb.File.{Device}
use lumodb.Rows.Blocks.{
  RowStructEntry, RowBlockLayout, build_row_block_layout, block_slices, RowFiles, BlockPlace,
  find_value_in_row_block_at,
}
use lumodb.Rows.Blocks.Keys.{PieceAt}
use lumodb.Rows.Blocks.Choosing.{last_of}
use lumodb.Rows.Blocks.Bytes.{CanReadShard}
use lumodb.Rows.Blocks.Finding.{value_of}
use lumodb.Rows.Blocks.Built.{FitsRow, Built, builds, ok_inj, find_value-build}
use lumodb.Rows.Update.{decode_row_block_entries, put_entry}
use lumodb.Rows.Update.Gathered.{
  Absent, Distinct, last_of-Absent, gather, gather-Contents, gather-Distinct,
}
use lumodb.Rows.Update.Decoded.{decode-gather}

abbrev new_entry : List ℕ → List ℕ → RowStructEntry
new_entry key bytes = record { key = key; bytes = bytes }

-- Replacing an entry, in front of entries without its key.
replaced :
    (k key bytes : List ℕ) (e : RowStructEntry) (es : List RowStructEntry)
    (o : Option RowStructEntry)
    → e.key ≡ key
    → Absent e.key es
    → last_of k (record e { bytes = bytes } ∷ es) o
      ≡ (if bytes_eq key k then some (new_entry key bytes) else last_of k (e ∷ es) o)
replaced k key bytes e es o same none_more = elim (Bool-cases (bytes_eq key k)) [
  | inl hit ↦
      let hit' : bytes_eq e.key k ≡ true = ap (λ x. bytes_eq x k) same ∙ hit in
      let absent : Absent k es =
        subst (λ x. Absent x es) (same ∙ bytes_eq-eq key k hit) none_more in
      rw (hit, hit')
        (last_of-Absent k es (some (new_entry e.key bytes)) absent
          ∙ ap (λ x. some (new_entry x bytes)) same)
  | inr miss ↦
      let miss' : bytes_eq e.key k ≡ false = ap (λ x. bytes_eq x k) same ∙ miss in
      rw (miss, miss') refl
]

-- Afterwards the key has the new value, and every other key what it had.
put_entry-last :
    (k key bytes : List ℕ) (es : List RowStructEntry) (o : Option RowStructEntry)
    → Distinct es
    → last_of k (put_entry es key bytes) o
      ≡ (if bytes_eq key k then some (new_entry key bytes) else last_of k es o)
unfolding put_entry
put_entry-last k key bytes [] o d = refl
put_entry-last k key bytes (e ∷ es) o (none_more, d) = elim (Bool-cases (bytes_eq e.key key)) [
  | inl same ↦ rw same (replaced k key bytes e es o (bytes_eq-eq e.key key same) none_more)
  | inr other ↦ rw other (put_entry-last k key bytes es (if bytes_eq e.key k then some e else o) d)
]

-- From a row's block, built of entries with a sequence number and a row number of 64 bits and less
-- than 2 ^ 63 bytes long, DecodeRowBlockEntries takes entries in which no key comes twice, and each
-- key has the last value that it was built with.
pub decode-build :
    (load : LoadFactor) (column : List ℕ) (row_id : ℕ) (entries : List RowStructEntry)
    (sequence : ℕ)
    → FitsRow load column entries
    → sequence < u64
    → row_id < u64
    → (l : RowBlockLayout)
    → build_row_block_layout load column row_id entries sequence (hash_string column) ≡ ok l
    → length (block_slices column l) < 2 ^ 63
    → (es : List RowStructEntry) × (decode_row_block_entries (block_slices column l) column row_id
        ≡ ok es)
      × Distinct es
      × ((k : List ℕ) → last_of k es none ≡ last_of k entries none)
decode-build load column row_id entries sequence fits seq row l run small =
    let (l', run', built') = builds load column row_id entries sequence (hash_string column) fits in
    let built : Built column row_id entries sequence (hash_string column) l =
      subst (Built column row_id entries sequence (hash_string column)) (ok_inj (sym run' ∙ run))
        built' in
    let layout = built.is_layout small in
    (
      gather built.T 0 l.header.bucket_count,
      decode-gather record {
        layout = layout;
        small = small;
        fits = built.fits seq row (hash_string-lt column) small;
        is_hash = built.is_hash;
        is_count = built.is_count;
      },
      gather-Distinct row_id layout.table l.header.bucket_count 0 (omega arith),
      gather-Contents row_id layout.table built.contents,
    )

-- PutRowStruct on a row: the entries of the old block with one of them replaced or added give a new
-- block, and if that stands in a shard that can be read, FindValueInRowBlockAt finds the new value
-- under its key and under every other key what the old block was built with.
pub find_value-put_entry :
    (load : LoadFactor) (column : List ℕ) (row_id : ℕ) (entries : List RowStructEntry)
    (sequence : ℕ)
    → FitsRow load column entries
    → sequence < u64
    → row_id < u64
    → (l : RowBlockLayout)
    → build_row_block_layout load column row_id entries sequence (hash_string column) ≡ ok l
    → length (block_slices column l) < 2 ^ 63
    → (es : List RowStructEntry)
    → decode_row_block_entries (block_slices column l) column row_id ≡ ok es
    → (key bytes : List ℕ) (sequence' : ℕ) → FitsRow load column (put_entry es key bytes)
    → (l' : RowBlockLayout)
    → build_row_block_layout load column row_id
        (put_entry es key bytes)
        sequence'
        (hash_string column)
      ≡ ok l'
    → (dev : Device) (rows : RowFiles) (at : BlockPlace) → CanReadShard dev rows at.shard_id
    → PieceAt (get_or rows.value_files at.shard_id []) at.block_offset (block_slices column l')
    → at.block_size ≡ l'.header.block_size
    → (k : List ℕ)
    → find_value_in_row_block_at dev rows at l'.header k
      ≡ (if bytes_eq key k then ok bytes else value_of (last_of k entries none))
find_value-put_entry load column row_id entries sequence fits seq row l run small es decoded key
      bytes sequence' fits' l' run' dev rows at can block size k =
    let (es0, decoded0, distinct0, same0) =
      decode-build load column row_id entries sequence fits seq row l run small in
    let eq : es0 ≡ es = ok_inj (sym decoded0 ∙ decoded) in
    let distinct : Distinct es = subst Distinct eq distinct0 in
    let same : last_of k es none ≡ last_of k entries none =
      ap (λ x. last_of k x none) (sym eq) ∙ same0 k in
    find_value-build load column row_id (put_entry es key bytes) sequence' (hash_string column)
      fits' l' run' dev rows at can block size k
    ∙ ap value_of (put_entry-last k key bytes es none distinct)
    ∙ split (bytes_eq key k)
    ∙ ap (λ x. if bytes_eq key k then ok bytes else value_of x) same
  where
    split :
        (b : Bool)
        → value_of (if b then some (new_entry key bytes) else last_of k es none)
          ≡ (if b then ok bytes else value_of (last_of k es none))
    split true = refl
    split false = refl
