-- ===== src/Writer/Publish.antt =====
-- The second loop of `WriteStructs`: the records that were written come into the index.
use lumodb.Base.{
  ℕ, ◌+◌, ◌≤◌, ◌<◌, ◌≡◌, refl, sym, ap, ap₂, subst, ◌∙◌, Bool, true, false, Option, none, some,
  List, [], ◌∷◌, ◌++◌, arith, length, if◌then◌else◌,
}
use lumodb.Base.Words.{add64}
use lumodb.Status.{ok}
use lumodb.Hash.{hash_string, object_index_hash}
use lumodb.File.{Device}
use lumodb.Probe.Scan.{IsSize-pos}
use lumodb.Probe.Table.{Landed, Contents, home, write, update, land}
use lumodb.Probe.Writes.{Landed-eq, write-Contents}
use lumodb.Probe.Count.{has_empty}
use lumodb.Objects.{IndexBucket, Index, Store, find_bucket}
use lumodb.Objects.Records.{Entry, entry_hash, objects, RecordAt, CanRead}
use lumodb.Objects.Lookup.{IsIndex, IsIndex-append, Map, found, find_bucket-Landed}
use lumodb.Writer.{PendingRecord, publish_record, publish_records}
use lumodb.Writer.Place.{put_bucket, place_new_bucket-Landed, put_bucket-IsIndex}

-- The index leads to exactly the objects of `f` in the file.
pub record Indexes (file : List ℕ) (f : Map) (ix : Index) : Type 0 where
  pub T : ℕ → Option Entry
  pub is_index : IsIndex file ix T
  pub contents : Contents objects ix.bucket_count T f

-- An index of `f` that has the size of `ix` and at most `more` further items.
pub record Extends (file : List ℕ) (f : Map) (ix : Index) (more : ℕ) (ix' : Index) : Type 0 where
  pub indexes : Indexes file f ix'
  pub same_size : ix'.bucket_count ≡ ix.bucket_count
  pub items : ix'.item_count ≤ ix.item_count + more

-- `r` is a record of `e` that was written to the file.
pub record Written (file column : List ℕ) (r : PendingRecord) (e : Entry) : Type 0 where
  pub at : RecordAt file r.record_offset e
  pub is_column : column ≡ e.column
  pub is_key : r.key ≡ e.key
  pub is_hash : r.key_hash ≡ hash_string e.key

abbrev pub AllWritten : List ℕ → List ℕ → List PendingRecord → List Entry → Type 0
AllWritten file column [] [] = Unit {0}
AllWritten file column [] (e ∷ es) = ⊥
AllWritten file column (r ∷ rs) [] = ⊥
AllWritten file column (r ∷ rs) (e ∷ es) = Written file column r e × AllWritten file column rs es

-- The map after the entries are stored in order.
abbrev pub update_all : Map → List Entry → Map
update_all f [] = f
update_all f (e ∷ es) = update_all (update objects 0 f e) es

-- Each entry's key is new when its turn comes.
abbrev pub AllNew : Map → List Entry → Type 0
AllNew f [] = Unit {0}
AllNew f (e ∷ es) = (f (objects.key e) ≡ none) × AllNew (update objects 0 f e) es

item_count-le : (o : Option Entry) (n : ℕ) → (if found o then n else add64 n 1) ≤ n + 1
item_count-le none n = omega arith
item_count-le (some e) n = omega arith

-- The bucket that `WriteStructs` makes for a record.
abbrev pub bucket_of : List ℕ → PendingRecord → IndexBucket
bucket_of column r = record {
  hash = object_index_hash (hash_string column) r.key_hash;
  record_offset = r.record_offset;
}

bucket_of-hash :
    {file column : List ℕ} {r : PendingRecord} {e : Entry}
    → Written file column r e
    → (bucket_of column r).hash ≡ entry_hash e.column e.key
bucket_of-hash {e = e} w = ap₂ (λ c h. object_index_hash (hash_string c) h) w.is_column w.is_hash

module _ {dev : Device} {s : Store} (can : CanRead dev s) (body rest : List ℕ)
    (file : s.value_file ≡ body ++ rest) (column : List ℕ) {f : Map} {ix : Index}
    (is : Indexes body f ix) (r : PendingRecord) {e : Entry} (w : Written body column r e) {d : ℕ}
    (l : Landed objects ix.bucket_count is.T (objects.key e) d) where
  abbrev spot : ℕ
  spot = home objects ix.bucket_count (objects.key e) d

  find :
      find_bucket dev s ix column r.key (hash_string column) r.key_hash
      ≡ ok (record { index = spot; found = found (is.T spot) })
  find =
      ap (λ c. find_bucket dev s ix c r.key (hash_string c) r.key_hash) w.is_column
      ∙ ap₂ (λ k h. find_bucket dev s ix e.column k (hash_string e.column) h) w.is_key w.is_hash
      ∙ find_bucket-Landed can ix e.column e.key
          (subst (λ x. IsIndex x ix is.T) (sym file) (IsIndex-append rest is.is_index)) l

  -- One record goes to the bucket where the probe for its key lands.
  publish_record-landed :
      (unique : Bool)
      → (unique ≡ true → f (objects.key e) ≡ none)
      → publish_record dev s column (hash_string column) unique ix r
        ≡ ok (put_bucket ix spot (bucket_of column r) (found (is.T spot)))
  unfolding publish_record
  publish_record-landed true new =
      let empty : is.T spot ≡ none =
        Landed-eq objects ix.bucket_count is.is_index.table is.contents l ∙ new refl in
      rw (
        place_new_bucket-Landed is.is_index e l (bucket_of column r) (bucket_of-hash w) empty,
        empty,
      )
  publish_record-landed false new = rw find

module _ {dev : Device} {s : Store} (can : CanRead dev s) (body rest : List ℕ)
    (file : s.value_file ≡ body ++ rest) (column : List ℕ) (unique : Bool) where
  pub publish_record-Extends :
      (f : Map) (ix : Index) (r : PendingRecord) (e : Entry)
      → Indexes body f ix
      → ix.item_count < ix.bucket_count
      → Written body column r e
      → (unique ≡ true → f (objects.key e) ≡ none)
      → (ix' : Index) × (publish_record dev s column (hash_string column) unique ix r ≡ ok ix')
        × Extends body (update objects 0 f e) ix 1 ix'
  publish_record-Extends f ix r e is spare w new =
      let (d, l) =
        land objects ix.bucket_count is.T (objects.key e) (IsSize-pos is.is_index.size)
          (has_empty is.T ix.bucket_count (omega (arith, is.is_index.count, spare))) in
      let spot = home objects ix.bucket_count (objects.key e) d in
      (
        put_bucket ix spot (bucket_of column r) (found (is.T spot)),
        publish_record-landed can body rest file column is r w l unique new,
        record {
          indexes = record {
            T = write objects ix.bucket_count is.T spot e;
            is_index =
                put_bucket-IsIndex is.is_index e l (bucket_of column r) (bucket_of-hash w, w.at);
            contents =
                write-Contents objects ix.bucket_count is.is_index.table {e = e} l is.contents;
          };
          same_size = refl;
          items = item_count-le (is.T spot) ix.item_count;
        },
      )

  -- The records of a batch come into the index one after the other; `unique` promises new keys.
  pub publish_records-Extends :
      (f : Map) (ix : Index) (rs : List PendingRecord) (es : List Entry)
      → Indexes body f ix
      → ix.item_count + length es < ix.bucket_count
      → AllWritten body column rs es
      → (unique ≡ true → AllNew f es)
      → (ix' : Index) × (publish_records dev s column (hash_string column) unique ix rs
          ≡ (ix', ok tt))
        × Extends body (update_all f es) ix (length es) ix'
  unfolding publish_records
  publish_records-Extends f ix [] [] is spare w new =
      (ix, refl, record { indexes = is; same_size = refl; items = omega arith })
  publish_records-Extends f ix [] (e ∷ es) is spare w new = absurd w
  publish_records-Extends f ix (r ∷ rs) [] is spare w new = absurd w
  publish_records-Extends f ix (r ∷ rs) (e ∷ es) is spare (w, ws) new =
      let (ix₁, run₁, x₁) = publish_record-Extends f ix r e is (omega arith) w (λ u. (new u).0) in
      let (ix₂, run₂, x₂) =
        publish_records-Extends (update objects 0 f e) ix₁ rs es x₁.indexes
          (omega (arith, x₁.same_size, x₁.items, spare)) ws (λ u. (new u).1) in
      (
        ix₂,
        rw (run₁, publish_records) run₂,
        record {
          indexes = x₂.indexes;
          same_size = x₂.same_size ∙ x₁.same_size;
          items = omega (arith, x₁.items, x₂.items);
        },
      )
