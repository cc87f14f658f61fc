-- ===== src/Objects/Lookup.antt =====
-- The index against the value file, and `FindBucket` and `GetStruct` against a map of objects.
use lumodb.Base.{
  ℕ, ◌≤◌, ◌<◌, ◌≡◌, ◌⊎◌, inl, inr, refl, sym, ap, subst, ◌∙◌, Bool, true, false, Option, none, some,
  List, ◌++◌, arith, ◌==◌, ==-refl, ==-ne, ltb-true, length, get_or, Bool-cases,
}
use native.Mathlib.Nat.{mod-lt}
use lumodb.Status.{Result, ok, err, corruption, not_found, ◌>>◌, require}
use lumodb.Hash.{hash_string}
use lumodb.Hash.Bounds.{object_index_hash_bounds}
use lumodb.File.{Device}
use lumodb.Probe.{Step, next, done}
use lumodb.Probe.Scan.{IsSize, IsSize-pos, at-lt, and_mask-mod, scan_done}
use lumodb.Probe.Table.{start, home, Landed, IsTable, Contents, land}
use lumodb.Probe.Writes.{Landed-eq}
use lumodb.Probe.Count.{filled, has_empty}
use lumodb.Objects.{
  IndexBucket, empty_bucket, Index, Store, BucketLookup, on_match, find_body, find_bucket,
  read_value, mapped, get_struct,
}
use lumodb.Objects.Records.{
  Entry, entry_hash, same_key, objects, RecordAt, RecordAt-append, CanRead, record_matches-at,
  read_record_header-at, read_value-at,
}

-- A bucket is empty, or it leads to the record of an entry and carries the entry's hash.
abbrev pub Slot : List ℕ → IndexBucket → Option Entry → Type 0
Slot file b none = b.hash ≡ 0
Slot file b (some e) = (b.hash ≡ entry_hash e.column e.key) × RecordAt file b.record_offset e

abbrev pub bucket_at : Index → ℕ → IndexBucket
bucket_at ix i = get_or ix.buckets i empty_bucket

-- `T` is what the buckets of the index lead to.
pub record IsIndex (file : List ℕ) (ix : Index) (T : ℕ → Option Entry) : Type 0 where
  pub size : IsSize ix.bucket_count
  pub width : length ix.buckets ≡ ix.bucket_count
  pub slots : (i : ℕ) → i < ix.bucket_count → Slot file (bucket_at ix i) (T i)
  pub table : IsTable objects ix.bucket_count T
  pub count : filled T ix.bucket_count ≡ ix.item_count

Slot-append :
    (file : List ℕ) (b : IndexBucket) (o : Option Entry) (rest : List ℕ)
    → Slot file b o
    → Slot (file ++ rest) b o
Slot-append file b none rest slot = slot
Slot-append file b (some e) rest (hash, rec) = (hash, RecordAt-append rest rec)

-- The index stays right when the file grows.
pub IsIndex-append :
    {file : List ℕ} {ix : Index} {T : ℕ → Option Entry} (rest : List ℕ)
    → IsIndex file ix T
    → IsIndex (file ++ rest) ix T
IsIndex-append {file} {ix} {T} rest is = record {
  size = is.size;
  width = is.width;
  slots = λ i lt. Slot-append file (bucket_at ix i) (T i) rest (is.slots i lt);
  table = is.table;
  count = is.count;
}

abbrev pub Map : Type 0
Map = List ℕ × List ℕ → Option Entry

-- The store holds exactly the objects of `f`, in the file before `append_offset`, and its index
-- has an empty bucket and at least the minimum size. Behind `append_offset` a failed write may have left bytes.
pub record Models (f : Map) (s : Store) : Type 0 where
  pub body : List ℕ
  pub rest : List ℕ
  pub file : s.value_file ≡ body ++ rest
  pub place : length body ≡ s.append_offset
  pub ix : Index
  pub is_mapped : s.index ≡ some ix
  pub T : ℕ → Option Entry
  pub is_index : IsIndex body ix T
  pub contents : Contents objects ix.bucket_count T f
  pub spare : ix.item_count < ix.bucket_count
  pub minimum : 16 ≤ ix.bucket_count

abbrev pub found : Option Entry → Bool
found none = false
found (some e) = true

-- No hash is the mark of an empty bucket.
pub hash_ne_zero : (c k : List ℕ) → (entry_hash c k == 0) ≡ false
hash_ne_zero c k =
    ==-ne (entry_hash c k) 0
      (λ z. omega (arith, object_index_hash_bounds (hash_string c) (hash_string k)))

module _ {dev : Device} {s : Store} (can : CanRead dev s) (ix : Index) (column key : List ℕ) where
  abbrev body : ℕ → Step (Result BucketLookup)
  body = find_body dev s ix column key (entry_hash column key)

  -- The body of the loop at an empty bucket, at the (column, key) key, and at another key.
  body-empty :
      (i : ℕ)
      → i < length ix.buckets
      → Slot s.value_file (bucket_at ix i) none
      → body i ≡ done (ok (record { index = i; found = false }))
  unfolding find_body
  body-empty i lt slot = rw (ltb-true i (length ix.buckets) lt, slot)

  body-other :
      (i : ℕ) (e : Entry)
      → i < length ix.buckets
      → Slot s.value_file (bucket_at ix i) (some e)
      → same_key (e.column, e.key) (column, key) ≡ false
      → body i ≡ next
  unfolding find_body on_match
  body-other i e lt (hash, rec) differs =
      rw (ltb-true i (length ix.buckets) lt, hash, hash_ne_zero e.column e.key)
        (elim (Bool-cases (entry_hash e.column e.key == entry_hash column key)) [
          | inl same ↦ rw (same, record_matches-at can column key (bucket_at ix i) rec, differs)
          | inr other ↦ rw other
        ])

  body-found :
      (i : ℕ) (e : Entry)
      → i < length ix.buckets
      → Slot s.value_file (bucket_at ix i) (some e)
      → objects.key e ≡ (column, key)
      → body i ≡ done (ok (record { index = i; found = true }))
  unfolding find_body on_match
  body-found i e lt (hash, rec) is_k =
      rw (ltb-true i (length ix.buckets) lt, hash, hash_ne_zero e.column e.key)
        (let same : (entry_hash e.column e.key == entry_hash column key) ≡ true =
            ap (λ k. entry_hash k.0 k.1 == entry_hash column key) is_k
            ∙ ==-refl (entry_hash column key) in
          let yes_same =
            ap (λ k. same_key k (column, key)) is_k ∙ objects.same_refl (column, key) in
          rw (same, record_matches-at can column key (bucket_at ix i) rec, yes_same))

  module _ {T : ℕ → Option Entry} (is : IsIndex s.value_file ix T) where
    -- `FindBucket` returns the bucket where the probe for the key lands, and whether it is full.
    pub find_bucket-Landed :
        {d : ℕ}
        → Landed objects ix.bucket_count T (column, key) d
        → let i = home objects ix.bucket_count (column, key) d in
          find_bucket dev s ix column key (hash_string column) (hash_string key)
          ≡ ok (record { index = i; found = found (T i) })
    unfolding find_bucket
    find_bucket-Landed {d} l = rw (and_mask-mod is.size (entry_hash column key)) (
        scan_done body (err corruption "index table is full") (start objects n (column, key)) d
          (ok (record { index = i; found = found (T i) })) is.size
          (mod-lt (entry_hash column key) pos) l.inside (stop l.landing) go_on)
      where
        n : ℕ
        n = ix.bucket_count

        i : ℕ
        i = home objects n (column, key) d

        pos : 0 < n
        pos = IsSize-pos is.size

        slot_at :
            (j : ℕ) → j < n → (o : Option Entry) → T j ≡ o → Slot s.value_file (bucket_at ix j) o
        slot_at j lt o e = subst (Slot s.value_file (bucket_at ix j)) e (is.slots j lt)

        inside : (q : ℕ) → home objects n (column, key) q < n
        inside q = at-lt (start objects n (column, key)) q pos

        within : (q : ℕ) → home objects n (column, key) q < length ix.buckets
        within q = omega (arith, inside q, is.width)

        stop :
            (T i ≡ none) ⊎ ((e : Entry) × (T i ≡ some e) × (objects.key e ≡ (column, key)))
            → body i ≡ done (ok (record { index = i; found = found (T i) }))
        stop (inl empty) = rw empty (body-empty i (within d) (slot_at i (inside d) none empty))
        stop (inr (e, full, is_k)) =
            rw full (body-found i e (within d) (slot_at i (inside d) (some e) full) is_k)

        go_on : (q : ℕ) → q < d → body (home objects n (column, key) q) ≡ next
        go_on q lt =
            let (e, full, other) = l.passed q lt in
            body-other (home objects n (column, key) q) e (within q)
              (slot_at (home objects n (column, key) q) (inside q) (some e) full) other

-- What a client sees of a map's answer.
abbrev pub get_of : Option Entry → Result (List ℕ)
get_of none = err not_found "key not found"
get_of (some e) = ok e.value

answer :
    {dev : Device} {s : Store}
    → CanRead dev s
    → (b : IndexBucket) (o : Option Entry) → Slot s.value_file b o
    → (require (found o) not_found "key not found" >> read_value dev s b) ≡ get_of o
unfolding read_value
answer can b none slot = refl
answer can b (some e) (hash, rec) = rw (read_record_header-at can rec) (read_value-at can rec)

-- Reads in an open store whose index has an empty bucket.
module _ {dev : Device} {s : Store} (can : CanRead dev s) {f : Map} (m : Models f s) where
  -- The probe for a key ends, at a bucket that holds what the map has under the key.
  pub probe :
      (k : List ℕ × List ℕ)
      → (d : ℕ) × Landed objects m.ix.bucket_count m.T k d
        × (m.T (home objects m.ix.bucket_count k d) ≡ f k)
  probe k =
      let (d, l) =
        land objects m.ix.bucket_count m.T k (IsSize-pos m.is_index.size)
          (has_empty m.T m.ix.bucket_count (omega (arith, m.is_index.count, m.spare))) in
      (d, l, Landed-eq objects m.ix.bucket_count m.is_index.table m.contents l)

  pub indexed : IsIndex s.value_file m.ix m.T
  indexed = subst (λ x. IsIndex x m.ix m.T) (sym m.file) (IsIndex-append m.rest m.is_index)

  -- In an open store that can be read `GetStruct` returns the value that the map has under the column and the key,
  -- and the status NotFound if it has none.
  pub get_struct-Models :
      (column key : List ℕ)
      → s.is_open ≡ true
      → get_struct dev s column key ≡ get_of (f (column, key))
  unfolding get_struct mapped
  get_struct-Models column key opened =
      let (d, l, holds) = probe (column, key) in
      let n = m.ix.bucket_count in
      let i = home objects n (column, key) d in
      rw (opened, m.is_mapped, find_bucket-Landed can m.ix column key indexed l, holds)
        (answer can (bucket_at m.ix i) (f (column, key)) (
          subst (Slot s.value_file (bucket_at m.ix i)) holds (
            indexed.slots i
              (at-lt (start objects n (column, key)) d (IsSize-pos m.is_index.size)))))
