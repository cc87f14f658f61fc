-- ===== src/Recovery/Layout.antt =====
-- `HasValidIndexLayout` on the file of an index that leads to the objects of a store, that has the
-- header's constants and fewer than 2 ^ 59 buckets.
use Prim.Native.Nat.{bit_and}
use lumodb.Base.{
  ℕ, zero, suc, ◌+◌, ◌^◌, ◌<◌, ◌≡◌, ap, ◌∙◌, true, Option, none, some, List, arith, ltb, ltb-false,
  ◌==◌, ==-refl, ==-ne, bytes_eq_refl, if_false, if◌then◌else◌,
}
use native.Mathlib.Nat.{mod_self}
use lumodb.Base.Words.{add64, sub64}
use lumodb.Format.Headers.{storage_version}
use lumodb.Probe.Scan.{IsSize-pos, and_mask-mod}
use lumodb.Probe.Count.{filled, filled-le, filled-suc, filled-zero, one_if}
use lumodb.Objects.{IndexBucket, Index, index_file_magic}
use lumodb.Objects.Records.{Entry}
use lumodb.Objects.Lookup.{Slot, bucket_at, IsIndex, hash_ne_zero}
use lumodb.Writer.{index_file_size}
use lumodb.Recovery.{count_filled, has_valid_index_layout}

-- The fields of the header that no operation changes.
pub record HasHeader (ix : Index) : Type 0 where
  pub magic : ix.magic ≡ index_file_magic
  pub version : ix.version ≡ storage_version
  pub header_size : ix.header_size ≡ 64

one_filled :
    (file : List ℕ) (b : IndexBucket) (o : Option Entry) (rest : ℕ)
    → Slot file b o
    → rest < 2 ^ 63
    → (if b.hash == 0 then rest else add64 rest 1) ≡ one_if o + rest
one_filled file b none rest slot small = rw slot (omega arith)
one_filled file b (some e) rest (hash, rec) small =
    rw (hash, hash_ne_zero e.column e.key) (omega (arith, small))

module _ {file : List ℕ} {ix : Index} {T : ℕ → Option Entry} (is : IsIndex file ix T)
    (small : ix.bucket_count < 2 ^ 59) where
  count_filled-filled :
      (rounds i : ℕ)
      → i + rounds ≡ ix.bucket_count
      → filled T i + count_filled ix.buckets rounds i ≡ filled T (i + rounds)
  unfolding count_filled
  count_filled-filled zero i e =
      let same : i + 0 ≡ i = omega arith in omega (arith, ap (filled T) same)
  count_filled-filled (suc rounds) i e =
      let rest = count_filled-filled rounds (i + 1) (omega (arith, e)) in
      let here =
        one_filled file (bucket_at ix i) (T i) (count_filled ix.buckets rounds (i + 1))
          (is.slots i (omega (arith, e)))
          (omega (arith, rest, small, e, filled-le T (i + 1 + rounds))) in
      let next : i + 1 + rounds ≡ i + suc rounds = omega arith in
      let one : suc i ≡ i + 1 = omega arith in
      omega (arith, rest, here, ap (filled T) next, ap (filled T) one, filled-suc T i)

  count : count_filled ix.buckets ix.bucket_count 0 ≡ ix.item_count
  count =
      let whole : 0 + ix.bucket_count ≡ ix.bucket_count = omega arith in
      omega (
        arith,
        count_filled-filled ix.bucket_count 0 whole,
        filled-zero T,
        ap (filled T) whole,
        is.count,
      )

  one_bit : (bit_and ix.bucket_count (sub64 ix.bucket_count 1) == 0) ≡ true
  one_bit = rw (and_mask-mod is.size ix.bucket_count, mod_self ix.bucket_count)

  -- The file of an index that leads to the objects of a store has a valid layout, if it has fewer
  -- than 2 ^ 59 buckets and its header's constants are as they were written.
  pub has_valid_index_layout-true :
      HasHeader ix → has_valid_index_layout (index_file_size ix.bucket_count) ix ≡ true
  unfolding has_valid_index_layout
  has_valid_index_layout-true h =
      let pos = IsSize-pos is.size in
      if_false (ltb (index_file_size ix.bucket_count) 64) _ _
        (ltb-false (index_file_size ix.bucket_count) 64 (omega arith))
      ∙ rw (
        h.magic,
        h.version,
        h.header_size,
        bytes_eq_refl index_file_magic,
        ==-ne ix.bucket_count 0 (omega arith),
        one_bit,
        ==-refl (index_file_size ix.bucket_count),
        ltb-false ix.bucket_count ix.item_count
            (omega (arith, is.count, filled-le T ix.bucket_count)),
        count,
        ==-refl ix.item_count,
      )
