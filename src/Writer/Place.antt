-- ===== src/Writer/Place.antt =====
-- Placing one bucket: where `PlaceExistingBucket` and `PlaceNewBucket` put it, and the index after
-- a write at the bucket where the probe for its key landed.
use Prim.Native.Nat.{bit_and}
use lumodb.Base.{
  ℕ, ◌%◌, ◌<◌, ◌≡◌, inl, inr, refl, ap, subst, ◌∙◌, Bool, Option, none, some, List, arith, ◌==◌,
  ==-refl, ==-eq, length-set, get_or, set, get_or-set_self, get_or-set_ne, if◌then◌else◌,
  Bool-cases,
}
use native.Mathlib.Nat.{mod-lt}
use lumodb.Base.Words.{add64}
use lumodb.Status.{Result, ok, err, corruption}
use lumodb.Probe.{next, done, mask_of, scan}
use lumodb.Probe.Scan.{IsSize-pos, at-lt, and_mask-mod, scan_done}
use lumodb.Probe.Table.{start, home, Landed, write}
use lumodb.Probe.Writes.{write-IsTable}
use lumodb.Probe.Count.{filled, filled-le, filled-write, one_if}
use lumodb.Objects.{IndexBucket, empty_bucket, Index}
use lumodb.Objects.Records.{Entry, entry_hash, objects}
use lumodb.Objects.Lookup.{Slot, bucket_at, IsIndex, found, hash_ne_zero}
use lumodb.Writer.{place_body, place_existing_bucket, place_new_bucket}

-- The index with `b` in bucket `i`, counted if the bucket was empty.
abbrev pub put_bucket : Index → ℕ → IndexBucket → Bool → Index
put_bucket ix i b full = record ix {
  buckets = set ix.buckets i b;
  item_count = if full then ix.item_count else add64 ix.item_count 1;
}

module _ {file : List ℕ} {ix : Index} {T : ℕ → Option Entry} (is : IsIndex file ix T) (e : Entry)
    {d : ℕ} (l : Landed objects ix.bucket_count T (objects.key e) d) where
  abbrev spot : ℕ
  spot = home objects ix.bucket_count (objects.key e) d

  pub spot-lt : spot < ix.bucket_count
  spot-lt = at-lt (start objects ix.bucket_count (objects.key e)) d (IsSize-pos is.size)

  module _ (b : IndexBucket) (hash : b.hash ≡ entry_hash e.column e.key)
      (empty : T spot ≡ none) where
    stop : place_body ix b spot ≡ done (ok (record ix { buckets = set ix.buckets spot b }))
    unfolding place_body
    stop = rw (subst (Slot file (bucket_at ix spot)) empty (is.slots spot spot-lt))

    go_on :
        (q : ℕ) → q < d → place_body ix b (home objects ix.bucket_count (objects.key e) q) ≡ next
    unfolding place_body
    go_on q lt =
        let (x, full, other) = l.passed q lt in
        let i = home objects ix.bucket_count (objects.key e) q in
        let slot = subst (Slot file (bucket_at ix i)) full (
          is.slots i
            (at-lt (start objects ix.bucket_count (objects.key e)) q (IsSize-pos is.size))) in
        rw (slot.0, hash_ne_zero x.column x.key)

    place_scan :
        (full : Result Index)
        → scan (place_body ix b) full ix.bucket_count (bit_and b.hash (mask_of ix.bucket_count))
          ≡ ok (record ix { buckets = set ix.buckets spot b })
    place_scan full =
        ap (λ s. scan (place_body ix b) full ix.bucket_count s)
          (and_mask-mod is.size b.hash ∙ ap (λ h. h % ix.bucket_count) hash)
        ∙ (scan_done (place_body ix b) full (start objects ix.bucket_count (objects.key e)) d
            (ok (record ix { buckets = set ix.buckets spot b })) is.size
            (mod-lt (entry_hash e.column e.key) (IsSize-pos is.size)) l.inside stop go_on)

    -- A bucket whose key is not stored goes where the probe for the key lands.
    pub place_existing_bucket-Landed :
        place_existing_bucket ix b ≡ ok (record ix { buckets = set ix.buckets spot b })
    unfolding place_existing_bucket
    place_existing_bucket-Landed = place_scan (err corruption "index table is full during resize")

    pub place_new_bucket-Landed :
        place_new_bucket ix b ≡ ok (record ix { buckets = set ix.buckets spot b })
    unfolding place_new_bucket
    place_new_bucket-Landed = place_scan (err corruption "index table is full during unique insert")

  count_after :
      (o : Option Entry)
      → T spot ≡ o
      → filled (write objects ix.bucket_count T spot e) ix.bucket_count
        ≡ (if found o then ix.item_count else add64 ix.item_count 1)
  count_after none h =
      let small = is.size.small in
      let old = is.count in
      omega (
        arith,
        filled-write T spot ix.bucket_count e spot-lt,
        ap one_if h,
        filled-le (write objects ix.bucket_count T spot e) ix.bucket_count,
      )
  count_after (some x) h =
      let old = is.count in
      omega (arith, filled-write T spot ix.bucket_count e spot-lt, ap one_if h)

  -- A bucket for `e` at the landing spot gives the index of the table with `e` written there.
  pub put_bucket-IsIndex :
      (b : IndexBucket)
      → Slot file b (some e)
      → IsIndex file
          (put_bucket ix spot b (found (T spot)))
          (write objects ix.bucket_count T spot e)
  put_bucket-IsIndex b slot = record {
    size = is.size;
    width = length-set ix.buckets spot b ∙ is.width;
    slots = slots;
    table = write-IsTable objects ix.bucket_count is.table {e = e} l;
    count = count_after (T spot) refl;
  }
    where
      slots :
          (i : ℕ)
          → i < ix.bucket_count
          → Slot file
              (get_or (set ix.buckets spot b) i empty_bucket)
              (if i == spot then some e else T i)
      slots i lt = elim (Bool-cases (i == spot)) [
        | inl p ↦
            let e' = ==-eq i spot p in
            rw (p, e', get_or-set_self ix.buckets spot b empty_bucket (rw is.width spot-lt)) slot
        | inr p ↦
            rw
              (
                p,
                get_or-set_ne ix.buckets spot i b empty_bucket
                    (λ q. cc (p, ==-refl i, ap (λ x. i == x) q)),
              )
              (is.slots i lt)
      ]
