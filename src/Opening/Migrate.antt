-- ===== src/Opening/Migrate.antt =====
-- Opening a value file of the first format.
use lumodb.Base.{
  ℕ, ◌+◌, ◌*◌, ◌^◌, ◌≤◌, ◌<◌, ◌≡◌, refl, ap, ◌∙◌, true, false, not, none, List, [], ◌∷◌, ◌++◌,
  arith, ltb, ltb-false, ◌==◌, ==-ne, length, length-append, bytes_eq, if_false, if_true,
}
use lumodb.Status.{ok, on_ok}
use lumodb.Capacity.{IsLoadFactor}
use lumodb.Capacity.RoundUp.{round_up_power_of_two-IsRoundUp}
use lumodb.Format.Codec.{encode_le, decode_le}
use lumodb.Format.Headers.{
  legacy_value_file_magic, new_value_file_header, encode_file_header, decode_file_header,
}
use lumodb.File.Contents.{read_all_at-piece}
use lumodb.Objects.{Store}
use lumodb.Objects.Records.{length-encode, encode}
use lumodb.Objects.Lookup.{Models}
use lumodb.Writer.Publish.{update_all}
use lumodb.Writer.Resize.{no_map}
use lumodb.Writer.Layout.{encode_all}
use lumodb.Recovery.Rebuild.{AllFit}
use lumodb.Migration.Log.{
  LegacyRecord, encode_legacy, encode_legacy_all, entries, AllFitLegacy, length-data_of,
  length-encode_legacy, migrated-entries,
}
use lumodb.Opening.{
  Kernel, Files, no_file, is_file_header, swap_migrated, migrate_legacy_value_file, open_by_header,
  open_value_file, close_on_error, mark_open, open_both, open_counted, open_objects,
}
use lumodb.Opening.Reopen.{Answers, file_header, open_index_file-recovers, Models-opened}

-- The exchange of the files meets no error.
pub record Swaps (k : Kernel) : Type 0 where
  pub syncs : k.sync_fails "values.lumov.migrating" ≡ false
  pub renames : k.rename_fails ≡ false
  pub removes : k.remove_fails ≡ false

abbrev pub legacy_file_header : List ℕ
legacy_file_header =
    encode_file_header (record new_value_file_header { magic = legacy_value_file_magic })

length-legacy_header : length legacy_file_header ≡ 24
unfolding encode_file_header encode_le
length-legacy_header = refl

length-file_header : length file_header ≡ 24
unfolding encode_file_header encode_le
length-file_header = refl

is_legacy : is_file_header legacy_value_file_magic (decode_file_header legacy_file_header) ≡ true
unfolding encode_file_header decode_file_header encode_le decode_le is_file_header bytes_eq
is_legacy = refl

AllFit-entries : (ls : List LegacyRecord) → AllFitLegacy ls → AllFit (entries ls)
AllFit-entries [] fits = tt
AllFit-entries (l ∷ ls) (fit, fits) = (
  record {
    column_fits = omega (arith, fit.names_fit);
    key_fits = omega (arith, fit.names_fit);
    value_fits = fit.value_fits;
  },
  AllFit-entries ls fits,
)

-- The new records are no longer than the old ones.
length-entries :
    (ls : List LegacyRecord) → length (encode_all (entries ls)) ≤ length (encode_legacy_all ls)
length-entries [] = omega arith
length-entries (l ∷ ls) = omega (
  arith,
  length-entries ls,
  length-append (encode l.entry) (encode_all (entries ls)),
  length-encode l.entry,
  length-append (encode_legacy l) (encode_legacy_all ls),
  length-encode_legacy l,
  length-data_of l.entry,
)

module _ {k : Kernel} (answers : Answers k) (swaps : Swaps k) (fs : Files) (ls : List LegacyRecord)
    (writable : fs.store.read_only ≡ false)
    (old : fs.store.value_file ≡ legacy_file_header ++ encode_legacy_all ls)
    (small : length fs.store.value_file < 2 ^ 63) (fits : AllFitLegacy ls) where
  target : List ℕ
  target = file_header ++ encode_all (entries ls)

  abbrev after : Files
  after = record {
    store = record fs.store { value_file = target; append_offset = length target };
    index_file = no_file;
  }

  size : length fs.store.value_file ≡ 24 + length (encode_legacy_all ls)
  size = omega (
    arith,
    ap (length {0}) old,
    length-append legacy_file_header (encode_legacy_all ls),
    length-legacy_header,
  )

  swapped : migrate_legacy_value_file k fs (length fs.store.value_file) ≡ (after, ok tt)
  unfolding migrate_legacy_value_file swap_migrated target
  swapped =
      if_false (k.open_fails "values.lumov.migrating") _ _ (answers.opens "values.lumov.migrating")
      ∙ if_false (k.device.truncate_fails 0) _ _ (answers.works.grants.truncates 0)
      ∙ ap (swap_migrated k fs) (
          migrated-entries k.device answers.works.reads answers.works.writes fs.store.value_file
            small legacy_file_header ls old length-legacy_header fits)
      ∙ if_false (k.sync_fails "values.lumov.migrating") _ _ swaps.syncs
      ∙ if_false k.rename_fails _ _ swaps.renames
      ∙ if_false k.remove_fails _ _ swaps.removes
      ∙ if_false (k.open_fails "values.lumov") _ _ (answers.opens "values.lumov")

  value_file-migrated : open_value_file k fs ≡ (after, ok tt)
  unfolding open_value_file open_by_header
  value_file-migrated =
      if_false (k.open_fails "values.lumov") _ _ (answers.opens "values.lumov")
      ∙ if_false k.device.stat_fails _ _ answers.stats
      ∙ if_false (length fs.store.value_file == 0) _ _
          (==-ne (length fs.store.value_file) 0 (omega (arith, size)))
      ∙ if_false (ltb (length fs.store.value_file) 24) _ _
          (ltb-false (length fs.store.value_file) 24 (omega (arith, size)))
      ∙ ap (open_by_header k fs) (
          read_all_at-piece k.device fs.store.value_file [] legacy_file_header
            (encode_legacy_all ls) 24 0 answers.works.reads old refl length-legacy_header small)
      ∙ if_true (is_file_header legacy_value_file_magic (decode_file_header legacy_file_header)) _ _
          is_legacy
      ∙ if_false fs.store.read_only _ _ writable
      ∙ swapped

  -- A store with a value file of the first format, a log of records that fit, opens for writing:
  -- the file is rewritten in the current format, and the store is open, not read-only, and holds
  -- under each key the last value of the log, and nothing else. The kernel answers every call, the load factor is in its range,
  -- the initial bucket count is at most 2 ^ 58, and the records ask for at most 2 ^ 58 buckets of slack.
  pub open_objects-migrates :
      (law : IsLoadFactor fs.store.load) (initial : ℕ)
      → fs.store.value_map ≡ none
      → fs.store.load.in_range ≡ true
      → initial ≤ 2 ^ 58
      → length (entries ls) * 2 ^ law.slack ≤ 2 ^ 58
      → (s' : Store) × (open_objects k initial fs ≡ (s', ok tt))
        × Models (update_all no_map (entries ls)) s'
        × (s'.is_open ≡ true)
        × (s'.read_only ≡ fs.store.read_only)
        × (s'.value_file ≡ file_header ++ encode_all (entries ls))
  unfolding open_objects open_counted open_both close_on_error mark_open target
  open_objects-migrates law initial unmapped in_range low bound =
      let (n, round, is) = round_up_power_of_two-IsRoundUp initial (omega (arith, low)) in
      let (s', run, models, kept, mode) =
        open_index_file-recovers answers after law (entries ls) is.size is.minimum
          (omega (arith, is.least, low)) refl writable unmapped refl
          (omega (
            arith,
            small,
            size,
            length-append file_header (encode_all (entries ls)),
            length-file_header,
            length-entries ls,
          ))
          (AllFit-entries ls fits) bound in
      (
        record s' { is_open = true },
        if_false (not fs.store.load.in_range) _ _ (ap not in_range)
            ∙ ap (open_counted k fs) round
            ∙ ap (λ a. on_ok (close_on_error (open_both k n a)) mark_open) value_file-migrated
            ∙ ap (λ a. on_ok (close_on_error a) mark_open) run,
        Models-opened models,
        refl,
        mode,
        kept,
      )
