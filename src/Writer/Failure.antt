-- ===== src/Writer/Failure.antt =====
-- `WriteStructs` when the kernel stops the write of the batch's records: the path from `WriteVAllAt`
-- back to the client, before any record is published.
use lumodb.Base.{
  ℕ, zero, suc, ◌≤◌, ◌≡◌, ◌≢◌, refl, ap, ap₂, ◌∙◌, Bool, some, List, [], ◌∷◌, ◌++◌, arith, length,
  length-append, take, drop,
}
use lumodb.Status.{err, io_error, on_ok}
use lumodb.File.{Device, write_v_all_at}
use lumodb.File.Contents.{write_v_all_at-stopped}
use lumodb.Objects.{Store, fits_uint32}
use lumodb.Objects.Records.{Entry, encode, length-encode}
use lumodb.Objects.Lookup.{Map, Models}
use lumodb.Writer.{
  StructEntry, PendingRecord, pending_records, record_slices, publish_structs, append_structs,
  keys_fit, write_structs, write_mapped,
}
use lumodb.Writer.Resize.{Grants, ensure_capacity_for_insert-Roomy}
use lumodb.Writer.Layout.{entries_of, encode_all, record_slices-encode_all}
use lumodb.Writer.Append.{Ready, FitsBatch, guards, fits_uint32-true, keys_fit-true}

length-take_le : (n : ℕ) (xs : List ℕ) → length (take n xs) ≤ length xs
length-take_le zero xs = omega arith
length-take_le (suc n) [] = omega arith
length-take_le (suc n) (x ∷ xs) = omega (arith, length-take_le n xs)

not_empty :
    (column : List ℕ) (e : StructEntry) (es : List StructEntry)
    → encode_all (entries_of column (e ∷ es)) ≢ []
not_empty column e es h =
    let x : Entry = record { column = column; key = e.key; value = e.value } in
    omega (
      arith,
      ap (length {0}) h,
      length-encode x,
      length-append (encode x) (encode_all (entries_of column es)),
    )

module _ {dev : Device} (grants : Grants dev) (k : ℕ)
    (stops : (size offset : ℕ) → dev.write_stops size offset ≡ some k) {f : Map} {s : Store}
    (column : List ℕ) (e : StructEntry) (es : List StructEntry) (unique : Bool) (ready : Ready s)
    (m : Models f s) (fit : FitsBatch s ready m.ix.item_count column (e ∷ es)) where
  bytes : List ℕ
  bytes = encode_all (entries_of column (e ∷ es))

  left : List ℕ
  left = take k bytes ++ drop (length (take k bytes)) m.rest

  -- A batch that fits and is not empty, whose write the kernel stops after any number of bytes while
  -- it grants the index file, returns an I/O error and
  -- leaves the store with the objects that it had, still open for writing.
  pub write_structs-stopped :
      (s' : Store) × (write_structs dev s column (e ∷ es) unique ≡ (s', err io_error "pwritev"))
      × Models f s'
      × Ready s'
  unfolding write_structs write_mapped append_structs left bytes
  write_structs-stopped =
      let (ix₁, run₁, roomy) =
        ensure_capacity_for_insert-Roomy s (length (e ∷ es)) grants ready.law m.is_mapped
          (record { T = m.T; is_index = m.is_index; contents = m.contents }) m.minimum
          fit.index_fits in
      (
        record s { index = some ix₁; value_file = m.body ++ left },
        guards _ _ _ _ _ s.is_open s.read_only (fits_uint32 (length column)) (keys_fit (e ∷ es))
              ready.opened ready.writable (fits_uint32-true (length column) fit.column_fits)
              (keys_fit-true (e ∷ es) fit.keys_fit)
            ∙ ap (write_mapped dev s column (e ∷ es) unique) m.is_mapped
            ∙ ap (λ a. on_ok a (append_structs dev column (e ∷ es) unique)) run₁
            ∙ ap
                (λ p.
                  on_ok (record s { index = some ix₁; value_file = p.0 }, p.1)
                    (publish_structs dev column unique pending next))
                write,
        record {
          body = m.body;
          rest = left;
          file = refl;
          place = m.place;
          ix = ix₁;
          is_mapped = refl;
          T = roomy.indexes.T;
          is_index = roomy.indexes.is_index;
          contents = roomy.indexes.contents;
          spare = omega (arith, roomy.spare);
          minimum = omega (arith, roomy.covers, m.minimum);
        },
        record {
          opened = ready.opened;
          writable = ready.writable;
          unmapped = ready.unmapped;
          law = ready.law;
        },
      )
    where
      pending : List PendingRecord
      pending = (pending_records column s.append_offset (e ∷ es)).0

      next : ℕ
      next = (pending_records column s.append_offset (e ∷ es)).1

      write :
          write_v_all_at dev s.value_file s.append_offset (record_slices column pending)
          ≡ (m.body ++ left, err io_error "pwritev")
      write =
          ap₂ (λ v b. write_v_all_at dev v s.append_offset b) m.file
            (record_slices-encode_all column fit.column_fits s.append_offset (e ∷ es) fit.keys_fit)
          ∙ write_v_all_at-stopped dev m.body m.rest bytes s.append_offset k stops m.place
              (omega (
                arith,
                fit.file_fits,
                ap (length {0}) m.file,
                length-append m.body m.rest,
                m.place,
              ))
              (not_empty column e es)
