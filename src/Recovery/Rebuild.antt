-- ===== src/Recovery/Rebuild.antt =====
-- `RebuildIndexFromValues` on a value file that is a log of records.
use lumodb.Base.{
  ℕ, zero, suc, ◌+◌, ◌*◌, ◌^◌, ◌≤◌, ◌<◌, ◌≡◌, inl, refl, sym, ap, ◌∙◌, false, none, some, List, [],
  ◌∷◌, ◌++◌, append-nil, append_assoc, arith, ltb-true, ltb-false, leb-true, if_false, length,
  length-append,
}
use native.Mathlib.Nat.{mul-le-mul_right}
use lumodb.Base.Words.{add64, sub64}
use lumodb.Status.{ok, on_ok}
use lumodb.Hash.{hash_string}
use lumodb.Capacity.{IsLoadFactor}
use lumodb.File.{Device, Reads, read_all_at}
use lumodb.Format.Headers.{record_header_size, encode_record_header, decode-encode_record_header}
use lumodb.Objects.{Store, Index}
use lumodb.Objects.Records.{
  Entry, FitsRecord, RecordAt, CanRead, encode, length-encode, objects, header_of, header_of-Fits,
  header_of-valid, read_value_at-unmapped, read_header-at, read_record_column_key-at,
}
use lumodb.Objects.Lookup.{Map, Models}
use lumodb.Probe.Table.{update}
use lumodb.Writer.{PendingRecord, publish_record}
use lumodb.Writer.Publish.{Indexes, Written, update_all, publish_record-Extends}
use lumodb.Writer.Resize.{Grants, no_map, ensure_capacity_for_insert-Roomy}
use lumodb.Writer.Layout.{encode_all}
use lumodb.Recovery.{
  LoggedRecord, read_logged, index_record, keep_index, make_room, index_mapped, add_logged,
  add_read, rebuild_from, rebuild_index_from_values,
}

abbrev pub AllFit : List Entry → Type 0
AllFit [] = Unit {0}
AllFit (e ∷ es) = FitsRecord e × AllFit es

abbrev logged : Entry → LoggedRecord
logged e = record { column = e.column; key = e.key; size = length (encode e) }

module _ {dev : Device} {s : Store} (can : CanRead dev s) (unmapped : s.value_map ≡ none)
    {offset : ℕ} {e : Entry} (at : RecordAt s.value_file offset e) where
  inside : offset + length (encode e) ≤ length s.value_file
  inside = omega (
    arith,
    ap (length {0}) at.split,
    length-append at.before (encode e ++ at.after),
    length-append (encode e) at.after,
    at.place,
  )

  -- A round of the loop reads the record that stands at its offset.
  pub read_logged-at : read_logged dev s (length s.value_file) offset ≡ ok (logged e)
  unfolding read_logged
  read_logged-at = rw (
    header,
    decode-encode_record_header (header_of e) (header_of-Fits at.fits),
    header_of-valid e,
    read_record_column_key-at can at,
    size,
    leb-true (length (encode e)) (sub64 (length s.value_file) offset)
        (omega (arith, inside, can.small)),
  )
    where
      header :
          read_all_at dev s.value_file record_header_size offset
          ≡ ok (encode_record_header (header_of e))
      header =
          sym (read_value_at-unmapped dev s record_header_size offset unmapped)
          ∙ read_header-at can at

      size :
          add64 (add64 (add64 24 (length e.column)) (length e.key)) (length e.value)
          ≡ length (encode e)
      size = omega (arith, length-encode e, inside, can.small)

  -- The rest of the round puts it into an index with room.
  index_record-Extends :
      {f : Map} {ix : Index}
      → Indexes s.value_file f ix
      → ix.item_count < ix.bucket_count
      → (ix' : Index) × (index_record dev s (logged e) offset ix ≡ ok ix')
        × Indexes s.value_file (update objects 0 f e) ix'
        × (ix'.bucket_count ≡ ix.bucket_count)
        × (ix'.item_count ≤ ix.item_count + 1)
  unfolding index_record publish_record
  index_record-Extends {f} {ix} is spare =
      let r : PendingRecord = record {
        header = header_of e;
        key = e.key;
        value = e.value;
        key_hash = hash_string e.key;
        record_offset = offset;
        record_size = 0;
      } in
      let w : Written s.value_file e.column r e = record {
        at = at;
        is_column = refl;
        is_key = refl;
        is_hash = refl;
      } in
      let (ix', run, x) =
        publish_record-Extends can s.value_file [] (sym (append-nil s.value_file)) e.column false f
          ix r e is spare w (λ h. cc) in
      (ix', run, x.indexes, x.same_size, x.items)

-- The rounds of the loop, one for each record of the log that is left.
module _ {dev : Device} (reads : Reads dev) (grants : Grants dev) where
  add_logged-Extends :
      (s : Store) (law : IsLoadFactor s.load) {f : Map} {ix : Index} {offset : ℕ} (e : Entry)
      → s.value_map ≡ none
      → s.index ≡ some ix
      → length s.value_file < 2 ^ 63
      → RecordAt s.value_file offset e
      → Indexes s.value_file f ix
      → 16 ≤ ix.bucket_count
      → (ix.item_count + 1) * 2 ^ law.slack ≤ 2 ^ 58
      → (ix' : Index) × (add_logged dev (logged e) offset s
          ≡ (record s { index = some ix' }, ok tt))
        × Indexes s.value_file (update objects 0 f e) ix'
        × (16 ≤ ix'.bucket_count)
        × (ix'.item_count ≤ ix.item_count + 1)
        × (ix'.item_count < ix'.bucket_count)
  unfolding add_logged make_room index_mapped keep_index
  add_logged-Extends s law {f} {ix} {offset} e unmapped mapped small at is min bound =
      let (ix₁, run₁, roomy) =
        ensure_capacity_for_insert-Roomy s 1 grants law mapped is min bound in
      let s₁ : Store = record s { index = some ix₁ } in
      let can : CanRead dev s₁ = record { reads = reads; small = small; whole = inl unmapped } in
      let (ix₂, run₂, is₂, size, items) =
        index_record-Extends {s = s₁} can unmapped at roomy.indexes (omega (arith, roomy.spare)) in
      (
        ix₂,
        ap (λ i. on_ok (make_room dev s i) λ s'. index_mapped dev (logged e) offset s' s'.index)
              mapped
            ∙ ap (λ a. on_ok a λ s'. index_mapped dev (logged e) offset s' s'.index) run₁
            ∙ ap (keep_index s₁) run₂,
        is₂,
        omega (arith, size, roomy.covers, min),
        omega (arith, items, roomy.items),
        omega (arith, items, size, roomy.spare),
      )

  rebuild_from-Extends :
      (es : List Entry) (fuel offset : ℕ) (before : List ℕ) (s : Store) (law : IsLoadFactor s.load)
      {f : Map} {ix : Index}
      → s.value_map ≡ none
      → s.index ≡ some ix
      → s.value_file ≡ before ++ encode_all es
      → length before ≡ offset
      → length s.value_file < 2 ^ 63
      → AllFit es
      → Indexes s.value_file f ix
      → 16 ≤ ix.bucket_count
      → ix.item_count < ix.bucket_count
      → (ix.item_count + length es) * 2 ^ law.slack ≤ 2 ^ 58
      → length (encode_all es) < fuel
      → (ix' : Index) × (rebuild_from fuel dev (length s.value_file) offset s
          ≡ (record s { index = some ix' }, ok tt))
        × Indexes s.value_file (update_all f es) ix'
        × (16 ≤ ix'.bucket_count)
        × (ix'.item_count < ix'.bucket_count)
  unfolding rebuild_from add_read
  rebuild_from-Extends es zero offset before s law unmapped mapped split place small fits is min
        spare bound enough =
      absurd (omega arith)
  rebuild_from-Extends [] (suc fuel) offset before s law {ix = ix} unmapped mapped split place small
        fits is min spare bound enough =
      (
        ix,
        rw
            (ltb-false offset (length s.value_file)
              (omega (arith, ap (length {0}) split, length-append before [], place)))
            (ap (λ i. (record s { index = i }, ok tt)) mapped),
        is,
        min,
        spare,
      )
  rebuild_from-Extends (e ∷ es) (suc fuel) offset before s law {f} {ix} unmapped mapped split place
        small (fit, fits) is min spare bound enough =
      let more = encode_all es in
      let sizes : length s.value_file ≡ offset + length (encode e) + length more = omega (
        arith,
        ap (length {0}) split,
        length-append before (encode e ++ more),
        length-append (encode e) more,
        place,
      ) in
      let at : RecordAt s.value_file offset e = record {
        before = before;
        after = more;
        split = split;
        place = place;
        fits = fit;
      } in
      let can : CanRead dev s = record { reads = reads; small = small; whole = inl unmapped } in
      let (ix₁, run₁, is₁, min₁, items₁, spare₁) =
        add_logged-Extends s law e unmapped mapped small at is min (
          omega (
            arith,
            bound,
            mul-le-mul_right (2 ^ law.slack) (one_more ix.item_count (length es)),
          )) in
      let next : add64 offset (length (encode e)) ≡ offset + length (encode e) =
        omega (arith, sizes, small) in
      let (ix₂, run₂, is₂, min₂, spare₂) =
        rebuild_from-Extends es fuel (offset + length (encode e)) (before ++ encode e)
          (record s { index = some ix₁ }) law unmapped refl
          (split ∙ sym (append_assoc before (encode e) more))
          (omega (arith, length-append before (encode e), place)) small fits is₁ min₁ spare₁
          (omega (
            arith,
            bound,
            mul-le-mul_right (2 ^ law.slack)
                (one_less ix.item_count ix₁.item_count (length es) items₁),
          ))
          (omega (arith, enough, length-append (encode e) more, length-encode e)) in
      (
        ix₂,
        rw
            (
              ltb-true offset (length s.value_file) (omega (arith, sizes, length-encode e)),
              read_logged-at can unmapped at,
            )
            (ap
                (λ a. on_ok a λ s'.
                  rebuild_from fuel dev (length s.value_file) (add64 offset (length (encode e))) s')
                run₁
              ∙ ap
                  (λ o.
                    rebuild_from fuel dev (length s.value_file) o (record s { index = some ix₁ }))
                  next
              ∙ run₂),
        is₂,
        min₂,
        spare₂,
      )
    where
      one_more : (i n : ℕ) → i + 1 ≤ i + suc n
      one_more i n = omega arith

      one_less : (i j n : ℕ) → j ≤ i + 1 → j + n ≤ i + suc n
      one_less i j n h = omega arith

  -- On a value file of a header of 24 bytes and a log of records that fit, with an empty index of no
  -- fewer than 16 buckets and no mapped value file, `RebuildIndexFromValues` succeeds, if the kernel
  -- answers fstat and every read, and grants an index file of every size and its mapping, the value
  -- file is shorter than 2 ^ 63 bytes and the records ask for at most 2 ^ 58 buckets of slack. The
  -- store then holds, under each key of the log, the last value that was logged, and nothing else;
  -- the value file and the mode are as before.
  pub rebuild_index_from_values-Models :
      (s : Store) (law : IsLoadFactor s.load) (header : List ℕ) (es : List Entry) {ix : Index}
      → dev.stat_fails ≡ false
      → s.value_map ≡ none
      → s.index ≡ some ix
      → s.value_file ≡ header ++ encode_all es
      → length header ≡ 24
      → length s.value_file < 2 ^ 63
      → AllFit es
      → Indexes s.value_file no_map ix
      → 16 ≤ ix.bucket_count
      → ix.item_count < ix.bucket_count
      → (ix.item_count + length es) * 2 ^ law.slack ≤ 2 ^ 58
      → (s' : Store) × (rebuild_index_from_values dev s ≡ (s', ok tt))
        × Models (update_all no_map es) s'
        × (s'.value_file ≡ s.value_file)
        × (s'.read_only ≡ s.read_only)
  unfolding rebuild_index_from_values
  rebuild_index_from_values-Models s law header es answers unmapped mapped split place small fits is
        min spare bound =
      let (ix', run, is', min', spare') =
        rebuild_from-Extends es (suc (length s.value_file)) 24 header s law unmapped mapped split
          place small fits is min spare bound
          (omega (arith, ap (length {0}) split, length-append header (encode_all es))) in
      let s' : Store = record s { index = some ix'; append_offset = length s.value_file } in
      (
        s',
        if_false dev.stat_fails _ _ answers
            ∙ ap (λ a. on_ok a λ s'. (record s' { append_offset = length s.value_file }, ok tt))
                run,
        record {
          body = s.value_file;
          rest = [];
          file = sym (append-nil s.value_file);
          place = refl;
          ix = ix';
          is_mapped = refl;
          T = is'.T;
          is_index = is'.is_index;
          contents = is'.contents;
          spare = spare';
          minimum = min';
        },
        refl,
        refl,
      )
