-- ===== src/Rows/Protocol.antt =====
-- The shared row index of src/lumodb/database.cpp: `LoadRowBucketSnapshot`, `StoreRowBucketData`,
-- `InsertOrUpdateRowBucket`, `FindRowBucket` and `RowBlockMatches`, one atomic access at a time,
-- by any number of threads in any order. Every access is taken to be sequentially consistent,
-- also where the code asks for less. The index does not grow while it is shared.
pub mod Owners
pub mod Later
pub mod Judging
pub mod Acts
pub mod Writing
pub mod Keeps
pub mod Safety
pub mod Progress
pub mod Torn
pub mod Alone
pub mod Quiet
use lumodb.Base.{ℕ, zero, suc, ◌+◌, ◌≤◌, not, ◌<◌, ◌≡◌, ◌≢◌, Bool, true, false}
unfoldable pub use lumodb.Rows.Shared.{slot, judge}
pub use lumodb.Rows.Shared.{
  Fields, field_count, row_bucket_empty, row_bucket_filled, row_bucket_writing, SharedBucket,
  Memory, change, set_state, set_field, Blocks, Row, row_hash, FieldOf, FieldsOf, Verdict, Job,
  row_of, Whole, IsJob, matches, differs, corrupt, put, find,
}

-- Where a thread stands, with its local variables.
pub data Pc : Type 0 where
  idle : Pc
  -- before the first load of the state, at a probe
  probing : Job → ℕ → Pc
  -- in the loads of the snapshot, some of them done
  reading : Job → ℕ → ℕ → Fields → Pc
  -- before the compare-exchanges
  claiming : Row → Fields → ℕ → Pc
  replacing : Row → Fields → ℕ → Pc
  -- in the stores of a bucket, some of them done; the last part is `inserted`
  storing : Row → Fields → ℕ → ℕ → Bool → Pc
  -- the results
  stored : Bool → Pc
  found : Row → Fields → Pc
  absent : Row → Pc
  failed : Pc

-- One step of one thread in a table of `n` buckets.
pub data Move (files : Blocks) (n : ℕ) (m : Memory) : Pc → Memory → Pc → Type 0 where
  begin : {j : Job} → IsJob files j → Move files n m idle m (probing j 0)
  full : {j : Job} {p : ℕ} → n ≤ p → Move files n m (probing j p) m failed
  see_empty_put :
      {r : Row} {fields : Fields} {p : ℕ}
      → p < n
      → (m (slot n r p)).state ≡ row_bucket_empty
      → Move files n m (probing (put r fields) p) m (claiming r fields p)
  see_empty_find :
      {r : Row} {p : ℕ}
      → p < n
      → (m (slot n r p)).state ≡ row_bucket_empty
      → Move files n m (probing (find r) p) m (absent r)
  see_writing :
      {j : Job} {p : ℕ}
      → p < n
      → (m (slot n (row_of j) p)).state ≡ row_bucket_writing
      → Move files n m (probing j p) m (probing j 0)
  see_invalid :
      {j : Job} {p : ℕ}
      → p < n
      → row_bucket_writing < (m (slot n (row_of j) p)).state
      → Move files n m (probing j p) m failed
  see_filled :
      {j : Job} {p : ℕ} {blank : Fields}
      → p < n
      → (m (slot n (row_of j) p)).state ≡ row_bucket_filled
      → Move files n m (probing j p) m (reading j p 0 blank)
  load :
      {j : Job} {p k : ℕ} {snapshot : Fields}
      → k < field_count
      → Move files n m
          (reading j p k snapshot)
          m
          (reading j p (suc k) (change snapshot k ((m (slot n (row_of j) p)).fields k)))
  see_change :
      {j : Job} {p : ℕ} {snapshot : Fields}
      → (m (slot n (row_of j) p)).state ≢ row_bucket_filled
      → Move files n m (reading j p field_count snapshot) m (probing j 0)
  see_corrupt :
      {j : Job} {p : ℕ} {snapshot : Fields}
      → (m (slot n (row_of j) p)).state ≡ row_bucket_filled
      → judge files (row_of j) snapshot ≡ corrupt
      → Move files n m (reading j p field_count snapshot) m failed
  pass :
      {j : Job} {p : ℕ} {snapshot : Fields}
      → (m (slot n (row_of j) p)).state ≡ row_bucket_filled
      → judge files (row_of j) snapshot ≡ differs
      → Move files n m (reading j p field_count snapshot) m (probing j (suc p))
  match_put :
      {r : Row} {fields : Fields} {p : ℕ} {snapshot : Fields}
      → (m (slot n r p)).state ≡ row_bucket_filled
      → judge files r snapshot ≡ matches
      → Move files n m (reading (put r fields) p field_count snapshot) m (replacing r fields p)
  match_find :
      {r : Row} {p : ℕ} {snapshot : Fields}
      → (m (slot n r p)).state ≡ row_bucket_filled
      → judge files r snapshot ≡ matches
      → Move files n m (reading (find r) p field_count snapshot) m (found r snapshot)
  claim :
      {r : Row} {fields : Fields} {p : ℕ}
      → (m (slot n r p)).state ≡ row_bucket_empty
      → Move files n m
          (claiming r fields p)
          (set_state m (slot n r p) row_bucket_writing)
          (storing r fields (slot n r p) 0 true)
  lose_claim :
      {r : Row} {fields : Fields} {p : ℕ}
      → (m (slot n r p)).state ≢ row_bucket_empty
      → Move files n m (claiming r fields p) m (probing (put r fields) 0)
  replace :
      {r : Row} {fields : Fields} {p : ℕ}
      → (m (slot n r p)).state ≡ row_bucket_filled
      → Move files n m
          (replacing r fields p)
          (set_state m (slot n r p) row_bucket_writing)
          (storing r fields (slot n r p) 0 false)
  lose_replace :
      {r : Row} {fields : Fields} {p : ℕ}
      → (m (slot n r p)).state ≢ row_bucket_filled
      → Move files n m (replacing r fields p) m (probing (put r fields) 0)
  store :
      {r : Row} {fields : Fields} {i k : ℕ} {inserted : Bool}
      → k < field_count
      → Move files n m
          (storing r fields i k inserted)
          (set_field m i k (fields k))
          (storing r fields i (suc k) inserted)
  publish :
      {r : Row} {fields : Fields} {i : ℕ} {inserted : Bool}
      → Move files n m
          (storing r fields i field_count inserted)
          (set_state m i row_bucket_filled)
          (stored inserted)

-- The row index with its threads; a thread that is not there stays `idle`.
pub record System : Type 0 where
  pub memory : Memory
  pub pc : ℕ → Pc

pub data Step (files : Blocks) (n : ℕ) (s : System) : System → Type 0 where
  step :
      (t : ℕ) {m : Memory} {p : Pc}
      → Move files n s.memory (s.pc t) m p
      → Step files n s (record { memory = m; pc = change s.pc t p })

-- An empty index, before any thread has begun.
abbrev pub fresh : System
fresh = record {
  memory = λ i. record { state = row_bucket_empty; fields = λ k. 0 };
  pc = λ t. idle;
}

pub data Reach (files : Blocks) (n : ℕ) : System → Type 0 where
  start : Reach files n fresh
  later : {s s' : System} → Reach files n s → Step files n s s' → Reach files n s'
