-- ===== src/Rows/Blocks/Keys.antt =====
-- The key table of a row block under construction, as a table of entries by their keys.
use lumodb.Base.{
  ℕ, ◌+◌, ◌%◌, ◌<◌, ◌≡◌, refl, sym, ap, ap₂, ◌∙◌, Bool, true, false, not, ◌||◌, Option, none, some,
  List, ◌++◌, append_assoc, ◌==◌, ==-refl, length, get_or, set, take, drop, bytes_eq, bytes_eq_refl,
  bytes_eq-eq, slice-append, if◌then◌else◌,
}
use lumodb.Hash.{hash_string, mix_hashes}
use lumodb.Format.Rows.{RowKeyBucket}
use lumodb.Status.{Result, ok}
use lumodb.Probe.{Step, next, done}
use lumodb.Probe.Scan.{IsSize}
use lumodb.Probe.Table.{Keys, IsTable}
use lumodb.Probe.Count.{filled}
use lumodb.Rows.Blocks.{
  RowStructEntry, no_entry, bucket_filled, empty_key_bucket, Chosen, choose_body,
}

-- The entries of a row by their keys.
abbrev pub by_key : ℕ → Keys RowStructEntry (List ℕ)
by_key row_id = record {
  key = λ e. e.key;
  hash = λ k. mix_hashes (hash_string k) row_id;
  same = bytes_eq;
  same_refl = bytes_eq_refl;
  same_eq = bytes_eq-eq;
}

-- A piece stands at an offset.
pub record PieceAt (bytes : List ℕ) (offset : ℕ) (piece : List ℕ) : Type 0 where
  pub before : List ℕ
  pub after : List ℕ
  pub split : bytes ≡ before ++ (piece ++ after)
  pub place : length before ≡ offset

pub PieceAt-append :
    {bytes : List ℕ} {offset : ℕ} {piece : List ℕ} (rest : List ℕ)
    → PieceAt bytes offset piece
    → PieceAt (bytes ++ rest) offset piece
PieceAt-append rest at = record {
  before = at.before;
  after = at.after ++ rest;
  split = ap (λ f. f ++ rest) at.split ∙ simp append_assoc;
  place = at.place;
}

pub PieceAt-take :
    {bytes : List ℕ} {offset : ℕ} {piece : List ℕ} (size : ℕ)
    → PieceAt bytes offset piece
    → size ≡ length piece
    → take size (drop offset bytes) ≡ piece
PieceAt-take {bytes} {offset} {piece} size at e =
    ap (λ f. take size (drop offset f)) at.split
    ∙ slice-append size offset at.before piece at.after at.place (sym e)

-- A bucket holds the key of an entry, and the entry is selected for it.
pub record KeySlot (entries : List RowStructEntry) (key_bytes : List ℕ) (b : RowKeyBucket)
    (chosen : ℕ) (e : RowStructEntry) : Type 0 where
  pub full : b.state ≡ bucket_filled
  pub plain : b.reserved ≡ 0
  pub hash : b.key_hash ≡ hash_string e.key
  pub size : b.key_size ≡ length e.key
  pub at : PieceAt key_bytes b.key_offset e.key
  pub selected : get_or entries chosen no_entry ≡ e

abbrev pub Slot : List RowStructEntry → List ℕ → RowKeyBucket → ℕ → Option RowStructEntry → Type 0
Slot entries key_bytes b chosen none = b ≡ empty_key_bucket
Slot entries key_bytes b chosen (some e) = KeySlot entries key_bytes b chosen e

pub Slot-append :
    (entries : List RowStructEntry) (key_bytes : List ℕ) (b : RowKeyBucket) (chosen : ℕ)
    (o : Option RowStructEntry) (rest : List ℕ)
    → Slot entries key_bytes b chosen o
    → Slot entries (key_bytes ++ rest) b chosen o
Slot-append entries key_bytes b chosen none rest slot = slot
Slot-append entries key_bytes b chosen (some e) rest slot = record {
  full = slot.full;
  plain = slot.plain;
  hash = slot.hash;
  size = slot.size;
  at = PieceAt-append rest slot.at;
  selected = slot.selected;
}

abbrev pub key_bucket_at : Chosen → ℕ → RowKeyBucket
key_bucket_at c i = get_or c.key_buckets i empty_key_bucket

-- The loop's variables hold the table `T` of entries.
pub record IsChosen (row_id : ℕ) (entries : List RowStructEntry) (n : ℕ) (c : Chosen)
    (T : ℕ → Option RowStructEntry) : Type 0 where
  pub size : IsSize n
  pub width : length c.key_buckets ≡ n
  pub selected_width : length c.selected ≡ n
  pub slots :
      (i : ℕ)
      → i < n
      → Slot entries c.key_bytes (key_bucket_at c i) (get_or c.selected i (length entries)) (T i)
  pub table : IsTable (by_key row_id) n T
  pub count : filled T n ≡ c.item_count

-- The three tests on a full bucket come to the test on the key.
tests_next :
    {A : Type 0} (a b k : Bool) (s : Step A)
    → k ≡ false
    → (if not a || not b then next else if not k then next else s) ≡ next
tests_next true true true s h = absurd cc
tests_next true true false s h = refl
tests_next true false k s h = refl
tests_next false b k s h = refl

module _ (entries : List RowStructEntry) (c : Chosen) (idx : ℕ) (key : List ℕ) where
  abbrev body : ℕ → Step (Result Chosen)
  body = choose_body c idx key (hash_string key)

  -- The body of the loop at an empty bucket, at another key, and at the key.
  pub body-empty :
      (i : ℕ)
      → key_bucket_at c i ≡ empty_key_bucket
      → body i
        ≡ done (
            ok (record {
              key_buckets = set c.key_buckets i (record empty_key_bucket {
                state = bucket_filled;
                key_hash = hash_string key;
                key_offset = length c.key_bytes;
                key_size = length key;
              });
              key_bytes = c.key_bytes ++ key;
              selected = set c.selected i idx;
              item_count = (c.item_count + 1) % 0x100000000;
            }))
  unfolding choose_body
  body-empty i e = rw e refl

  module _ (i : ℕ) (chosen : ℕ) (x : RowStructEntry)
      (slot : KeySlot entries c.key_bytes (key_bucket_at c i) chosen x) where
    stored :
        take (key_bucket_at c i).key_size (drop (key_bucket_at c i).key_offset c.key_bytes) ≡ x.key
    stored = PieceAt-take (key_bucket_at c i).key_size slot.at slot.size

    pub body-other : bytes_eq x.key key ≡ false → body i ≡ next
    unfolding choose_body
    body-other h = rw (slot.full) (
        tests_next ((key_bucket_at c i).key_hash == hash_string key)
          ((key_bucket_at c i).key_size == length key) _ _ (ap (λ k. bytes_eq k key) stored ∙ h))

    pub body-same : x.key ≡ key → body i ≡ done (ok (record c { selected = set c.selected i idx }))
    unfolding choose_body
    body-same h =
        let hash : ((key_bucket_at c i).key_hash == hash_string key) ≡ true =
          ap₂ (λ a b. a == b) slot.hash (ap hash_string (sym h)) ∙ ==-refl (hash_string x.key) in
        let size : ((key_bucket_at c i).key_size == length key) ≡ true =
          ap₂ (λ a b. a == b) slot.size (ap (length {0}) (sym h)) ∙ ==-refl (length x.key) in
        let bytes = ap (λ k. bytes_eq k key) (stored ∙ h) ∙ bytes_eq_refl key in
        rw (slot.full, hash, size, bytes) refl
