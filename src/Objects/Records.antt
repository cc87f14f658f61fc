-- ===== src/Objects/Records.antt =====
-- Records of the value file: where one stands, what reading it gives, and that writes behind it
-- leave it alone.
use lumodb.Base.{
  ℕ, ◌+◌, ◌^◌, ◌≤◌, ◌<◌, ◌≡◌, ◌⊎◌, inl, inr, refl, sym, ap, ◌∙◌, Bool, true, false, not, ◌&&◌, ◌||◌,
  none, some, List, ◌++◌, append_assoc, arith, ◌==◌, ==-refl, length, take, drop, length-append,
  slice-append, bytes_eq, bytes_eq_refl, bytes_eq-eq, if◌then◌else◌,
}
use lumodb.Base.Words.{u32, u64, add64}
use lumodb.Status.{ok}
use lumodb.Hash.{hash_string, object_index_hash}
use lumodb.Format.Headers.{
  ValueRecordHeader, record_header_size, new_record_header, encode_record_header,
  is_valid_record_header, length-encode_record_header, decode-encode_record_header, Fits,
}
use lumodb.File.{Device, Reads, read_all_at}
use lumodb.File.Contents.{read_all_at-inside}
use lumodb.Probe.Table.{Keys}
use lumodb.Objects.{
  Store, IndexBucket, encode_record, read_value_at, read_record_header, read_record_column_key,
  record_matches,
}

-- One object: a value under a column and a key.
pub record Entry : Type 0 where
  pub column : List ℕ
  pub key : List ℕ
  pub value : List ℕ

abbrev pub encode : Entry → List ℕ
encode e = encode_record e.column e.key e.value

abbrev pub entry_hash : List ℕ → List ℕ → ℕ
entry_hash column key = object_index_hash (hash_string column) (hash_string key)

abbrev pub same_key : List ℕ × List ℕ → List ℕ × List ℕ → Bool
same_key (c, k) (c', k') = bytes_eq c c' && bytes_eq k k'

pub same_key_refl : (a : List ℕ × List ℕ) → same_key a a ≡ true
same_key_refl (c, k) = ground (arith, bytes_eq_refl c, bytes_eq_refl k)

pub same_key-eq : (a b : List ℕ × List ℕ) → same_key a b ≡ true → a ≡ b
same_key-eq (c, k) (c', k') h = ground (arith, bytes_eq-eq c c', bytes_eq-eq k k')

-- Objects in the index, by column and key.
abbrev pub objects : Keys Entry (List ℕ × List ℕ)
objects = record {
  key = λ e. (e.column, e.key);
  hash = λ k. entry_hash k.0 k.1;
  same = same_key;
  same_refl = same_key_refl;
  same_eq = same_key-eq;
}

-- The sizes of an entry fit the fields of its header.
pub record FitsRecord (e : Entry) : Type 0 where
  pub column_fits : length e.column < u32
  pub key_fits : length e.key < u32
  pub value_fits : length e.value < u64

-- The record of `e` stands at `offset`.
pub record RecordAt (file : List ℕ) (offset : ℕ) (e : Entry) : Type 0 where
  pub before : List ℕ
  pub after : List ℕ
  pub split : file ≡ before ++ (encode e ++ after)
  pub place : length before ≡ offset
  pub fits : FitsRecord e

-- What is written behind a record leaves it where it is.
pub RecordAt-append :
    {file : List ℕ} {offset : ℕ} {e : Entry} (rest : List ℕ)
    → RecordAt file offset e
    → RecordAt (file ++ rest) offset e
RecordAt-append rest at = record {
  before = at.before;
  after = at.after ++ rest;
  split = ap (λ f. f ++ rest) at.split ∙ simp append_assoc;
  place = at.place;
  fits = at.fits;
}

-- Reads of the value file meet no error, through the descriptor or through the mapping.
pub record CanRead (dev : Device) (s : Store) : Type 0 where
  pub reads : Reads dev
  pub small : length s.value_file < 2 ^ 63
  pub whole : (s.value_map ≡ none) ⊎ (s.value_map ≡ some (length s.value_file))

-- Without a mapping a read goes through the descriptor.
pub read_value_at-unmapped :
    (dev : Device) (s : Store) (size offset : ℕ)
    → s.value_map ≡ none
    → read_value_at dev s size offset ≡ read_all_at dev s.value_file size offset
unfolding read_value_at
read_value_at-unmapped dev s size offset e = rw e

module _ {dev : Device} {s : Store} (can : CanRead dev s) where
  read_value_at-inside :
      (size offset : ℕ)
      → offset + size ≤ length s.value_file
      → read_value_at dev s size offset ≡ ok (take size (drop offset s.value_file))
  unfolding read_value_at
  read_value_at-inside size offset inside = go can.whole
    where
      go :
          (s.value_map ≡ none) ⊎ (s.value_map ≡ some (length s.value_file))
          → read_value_at dev s size offset ≡ ok (take size (drop offset s.value_file))
      go (inl e) = rw e (read_all_at-inside dev s.value_file size offset can.reads inside can.small)
      go (inr e) = rw e (ground arith)

  -- A piece of the file is read by its place and its length.
  pub read_piece :
      (before piece after : List ℕ) (size offset : ℕ)
      → s.value_file ≡ before ++ (piece ++ after)
      → length before ≡ offset
      → length piece ≡ size
      → read_value_at dev s size offset ≡ ok piece
  read_piece before piece after size offset split place len =
      read_value_at-inside size offset (
        omega (
          arith,
          ap (length {0}) split,
          length-append before (piece ++ after),
          length-append piece after,
        ))
      ∙ ap (λ f. ok (take size (drop offset f))) split
      ∙ ap ok (slice-append size offset before piece after place len)

abbrev pub header_of : Entry → ValueRecordHeader
header_of e = new_record_header (length e.column) (length e.key) (length e.value)

pub header_of-Fits : {e : Entry} → FitsRecord e → Fits (header_of e)
header_of-Fits f = record {
  magic_fits = omega arith;
  version_fits = omega arith;
  header_size_fits = omega arith;
  column_fits = omega (arith, f.column_fits);
  key_fits = omega (arith, f.key_fits);
  value_fits = omega (arith, f.value_fits);
}

pub header_of-valid : (e : Entry) → is_valid_record_header (header_of e) ≡ true
unfolding is_valid_record_header
header_of-valid e = refl

pub length-encode :
    (e : Entry) → length (encode e) ≡ 24 + length e.column + length e.key + length e.value
unfolding encode_record
length-encode e = omega (
  arith,
  length-append (encode_record_header (header_of e)) (e.column ++ (e.key ++ e.value)),
  length-encode_record_header (header_of e),
  length-append e.column (e.key ++ e.value),
  length-append e.key e.value,
)

module _ {dev : Device} {s : Store} (can : CanRead dev s) {offset : ℕ} {e : Entry}
    (at : RecordAt s.value_file offset e) where
  h : List ℕ
  h = encode_record_header (header_of e)

  -- The file cut at the parts of the record.
  parts : s.value_file ≡ at.before ++ (h ++ (e.column ++ (e.key ++ (e.value ++ at.after))))
  unfolding encode_record h
  parts = at.split ∙ simp append_assoc

  room : offset + 24 + length e.column + length e.key + length e.value < 2 ^ 63
  room = omega (
    arith,
    can.small,
    ap (length {0}) at.split,
    at.place,
    length-append at.before (encode e ++ at.after),
    length-append (encode e) at.after,
    length-encode e,
  )

  -- The bytes of the header are read at the record's place.
  pub read_header-at :
      read_value_at dev s record_header_size offset ≡ ok (encode_record_header (header_of e))
  unfolding h
  read_header-at =
      read_piece can at.before h (e.column ++ (e.key ++ (e.value ++ at.after))) 24 offset parts
        at.place (length-encode_record_header (header_of e))

  -- The header of a record is read and accepted.
  pub read_record_header-at : read_record_header dev s offset ≡ ok (header_of e)
  unfolding read_record_header h
  read_record_header-at = rw (
    read_piece can at.before h (e.column ++ (e.key ++ (e.value ++ at.after))) 24 offset parts
        at.place (length-encode_record_header (header_of e)),
    decode-encode_record_header (header_of e) (header_of-Fits at.fits),
    header_of-valid e,
  )

  length-h : length h ≡ 24
  unfolding h
  length-h = length-encode_record_header (header_of e)

  read_column : read_value_at dev s (length e.column) (add64 offset 24) ≡ ok e.column
  read_column =
      read_piece can (at.before ++ h) e.column (e.key ++ (e.value ++ at.after)) (length e.column)
        (add64 offset 24) (parts ∙ simp append_assoc)
        (omega (arith, length-append at.before h, length-h, at.place, room)) refl

  read_key :
      read_value_at dev s (length e.key) (add64 (add64 offset 24) (length e.column)) ≡ ok e.key
  read_key =
      read_piece can (at.before ++ (h ++ e.column)) e.key (e.value ++ at.after) (length e.key)
        (add64 (add64 offset 24) (length e.column)) (parts ∙ simp append_assoc)
        (omega (
          arith,
          length-append at.before (h ++ e.column),
          length-append h e.column,
          length-h,
          at.place,
          room,
        ))
        refl

  -- Its column, key and value are read from the places that the header gives.
  pub read_record_column_key-at :
      read_record_column_key dev s offset (header_of e) ≡ ok (e.column, e.key)
  unfolding read_record_column_key
  read_record_column_key-at = rw (read_column, read_key)

  pub read_value-at :
      read_value_at dev s
        (length e.value)
        (add64 (add64 (add64 offset record_header_size) (length e.column)) (length e.key))
      ≡ ok e.value
  read_value-at =
      read_piece can (at.before ++ (h ++ (e.column ++ e.key))) e.value at.after (length e.value)
        (add64 (add64 (add64 offset 24) (length e.column)) (length e.key))
        (parts ∙ simp append_assoc)
        (omega (
          arith,
          length-append at.before (h ++ (e.column ++ e.key)),
          length-append h (e.column ++ e.key),
          length-append e.column e.key,
          length-h,
          at.place,
          room,
        ))
        refl

bytes_eq-length : (xs ys : List ℕ) → bytes_eq xs ys ≡ true → (length xs == length ys) ≡ true
bytes_eq-length xs ys h =
    ap (λ l. length xs == length l) (sym (bytes_eq-eq xs ys h)) ∙ ==-refl (length xs)

-- The comparison of the sizes saves reads, and does not change the answer.
sizes_first :
    (a b x y : Bool)
    → (x ≡ true → a ≡ true)
    → (y ≡ true → b ≡ true)
    → (if not a || not b then ok false else ok (x && y)) ≡ ok (x && y)
sizes_first true true x y p q = refl
sizes_first true false x true p q = cc (q refl)
sizes_first true false true false p q = refl
sizes_first true false false false p q = refl
sizes_first false b true y p q = cc (p refl)
sizes_first false b false y p q = refl

-- `RecordMatches` compares the stored column and key with the wanted ones.
pub record_matches-at :
    {dev : Device} {s : Store} (can : CanRead dev s) (column key : List ℕ) (bucket : IndexBucket)
    {e : Entry}
    → RecordAt s.value_file bucket.record_offset e
    → record_matches dev s bucket column key ≡ ok (same_key (e.column, e.key) (column, key))
unfolding record_matches
record_matches-at can column key bucket {e} at =
    rw (read_record_header-at can at, read_record_column_key-at can at)
      (sizes_first (length e.column == length column) (length e.key == length key)
        (bytes_eq e.column column) (bytes_eq e.key key) (bytes_eq-length e.column column)
        (bytes_eq-length e.key key))
