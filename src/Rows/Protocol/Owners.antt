-- ===== src/Rows/Protocol/Owners.antt =====
-- Which row a bucket belongs to, and what every thread knows about the buckets.
use lumodb.Base.{
  ℕ, ◌%◌, ◌≤◌, ◌<◌, ◌≡◌, ap, ◌∙◌, Bool, true, ◌&&◌, Option, none, some, arith, ◌==◌, bytes_eq,
  bytes_eq_refl, bytes_eq-eq,
}
use native.Mathlib.Nat.{mod-lt}
use lumodb.Probe.Scan.{IsSize, IsSize-pos, and_mask-mod, probe_index-at}
use lumodb.Probe.Table.{Keys, home, Other, IsTable}
use lumodb.Probe.{mask_of, probe_index}
use lumodb.Rows.Protocol.{
  Fields, field_count, put, Memory, Blocks, Row, row_hash, slot, FieldOf, FieldsOf, row_of, IsJob,
  Pc, idle, probing, reading, claiming, replacing, storing, stored, found, absent, failed,
  row_bucket_empty, row_bucket_filled, row_bucket_writing,
}

abbrev pub same_row : Row → Row → Bool
same_row a b = bytes_eq a.0 b.0 && (a.1 == b.1)

pub same_row_refl : (a : Row) → same_row a a ≡ true
same_row_refl (c, r) = ground (arith, bytes_eq_refl c)

pub same_row-eq : (a b : Row) → same_row a b ≡ true → a ≡ b
same_row-eq (c, r) (c', r') h = ground (arith, bytes_eq-eq c c')

-- Rows as the keys of the table of owners.
abbrev pub rows : Keys Row Row
rows = record {
  key = λ r. r;
  hash = row_hash;
  same = same_row;
  same_refl = same_row_refl;
  same_eq = same_row-eq;
}

abbrev pub Owners : Type 0
Owners = ℕ → Option Row

-- A probe's bucket in the words of the probing theory.
pub slot-home : {n : ℕ} → IsSize n → (r : Row) (p : ℕ) → p < n → slot n r p ≡ home rows n r p
unfolding slot
slot-home {n} v r p lt =
    ap (λ s. probe_index (mask_of n) s p) (and_mask-mod v (row_hash r))
    ∙ probe_index-at v (row_hash r % n) p (mod-lt (row_hash r) (IsSize-pos v)) lt

-- The first `k` fields are those of a block that was written for the row.
abbrev pub FirstFieldsOf : Blocks → Row → ℕ → Fields → Type 0
FirstFieldsOf files r k fields = (q : ℕ) → q < k → FieldOf files r q (fields q)

-- The bucket belongs to a row, and holds fields of its blocks.
pub record Seen (files : Blocks) (owner : Owners) (m : Memory) (i : ℕ) (k : ℕ) (snapshot : Fields)
    : Type 0 where
  pub row : Row
  pub owned : owner i ≡ some row
  pub holds : FieldsOf files row (m i).fields
  pub read : FirstFieldsOf files row k snapshot

-- The probes before the `p`-th met other rows.
abbrev pub Passed : ℕ → Owners → Row → ℕ → Type 0
Passed n owner r p = (q : ℕ) → q < p → Other rows n owner r (home rows n r q)

-- Some fields are stored.
abbrev pub SameFields : ℕ → Fields → Fields → Type 0
SameFields k now wanted = (q : ℕ) → q < k → now q ≡ wanted q

-- What holds of a thread's local variables.
abbrev pub Knows : Blocks → ℕ → Owners → Memory → Pc → Type 0
Knows files n owner m idle = Unit {0}
Knows files n owner m (probing j p) = IsJob files j × Passed n owner (row_of j) p
Knows files n owner m (reading j p k snapshot) =
    IsJob files j
    × Passed n owner (row_of j) p
    × (p < n)
    × Seen files owner m (slot n (row_of j) p) k snapshot
Knows files n owner m (claiming r fields p) =
    IsJob files (put r fields) × Passed n owner r p × (p < n)
Knows files n owner m (replacing r fields p) =
    IsJob files (put r fields) × (owner (slot n r p) ≡ some r)
Knows files n owner m (storing r fields i k inserted) =
    IsJob files (put r fields)
    × (owner i ≡ some r)
    × ((m i).state ≡ row_bucket_writing)
    × SameFields k (m i).fields fields
    × (k ≤ field_count)
Knows files n owner m (stored inserted) = Unit {0}
Knows files n owner m (found r snapshot) = Unit {0}
Knows files n owner m (absent r) = Unit {0}
Knows files n owner m failed = Unit {0}

-- The bucket that a thread writes.
abbrev pub written_by : Pc → Option ℕ
written_by idle = none
written_by (probing j p) = none
written_by (reading j p k snapshot) = none
written_by (claiming r fields p) = none
written_by (replacing r fields p) = none
written_by (storing r fields i k inserted) = some i
written_by (stored inserted) = none
written_by (found r snapshot) = none
written_by (absent r) = none
written_by failed = none

pub record Inv (files : Blocks) (n : ℕ) (m : Memory) (pc : ℕ → Pc) : Type 0 where
  pub owner : Owners
  pub table : IsTable rows n owner
  pub empty : (i : ℕ) → (m i).state ≡ row_bucket_empty → owner i ≡ none
  pub filled :
      (i : ℕ)
      → (m i).state ≡ row_bucket_filled
      → (r : Row) × (owner i ≡ some r) × IsJob files (put r (m i).fields)
  pub states : (i : ℕ) → (m i).state ≤ row_bucket_writing
  pub writer : (i : ℕ) → (m i).state ≡ row_bucket_writing → (t : ℕ) × (written_by (pc t) ≡ some i)
  pub alone : (t t' i : ℕ) → written_by (pc t) ≡ some i → written_by (pc t') ≡ some i → t ≡ t'
  pub knows : (t : ℕ) → Knows files n owner m (pc t)
