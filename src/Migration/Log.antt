-- ===== src/Migration/Log.antt =====
-- Migrating a log of legacy records.
use lumodb.Base.{
  ℕ, zero, suc, ◌+◌, ◌^◌, ◌≤◌, ◌<◌, ◌≡◌, refl, true, sym, ap, ap₂, ◌∙◌, List, [], ◌∷◌, ◌++◌,
  append_assoc, append-nil, arith, ltb-true, ltb-false, leb-true, length, length-append,
}
use lumodb.Base.Words.{u32, u64, add64, sub64}
use lumodb.Status.{Result, ok, on_ok}
use lumodb.Format.Headers.{
  record_magic, storage_version, new_record_header, encode_record_header,
  length-encode_record_header, encode_file_header, new_value_file_header,
}
use lumodb.Format.Codec.{encode_le}
use lumodb.Format.Legacy.{
  LegacyValueRecordHeader, legacy_header_size, encode_legacy_header, is_valid_legacy_record_header,
  FitsLegacy, length-encode_legacy_header, decode-encode_legacy_header,
}
use lumodb.File.{Device, Reads, Writes}
use lumodb.File.Contents.{read_all_at-piece, write_all_at-end}
use lumodb.Objects.{encode_record}
use lumodb.Objects.Records.{Entry, encode, length-encode}
use lumodb.Writer.Layout.{encode_all}
use lumodb.Migration.{
  record_data_size, read_legacy, copy_data, copy_record, copy_read, with_file, migrate_from,
  migrated,
}
use lumodb.Migration.Copy.{copy_from-copies}

-- A record of the old format: an entry, with the fields that the new format has no more.
pub record LegacyRecord : Type 0 where
  pub sequence : ℕ
  pub column_hash : ℕ
  pub key_hash : ℕ
  pub entry : Entry

abbrev pub legacy_header : LegacyRecord → LegacyValueRecordHeader
legacy_header l = record {
  magic = record_magic;
  version = storage_version;
  header_size = legacy_header_size;
  sequence = l.sequence;
  column_hash = l.column_hash;
  key_hash = l.key_hash;
  column_size = length l.entry.column;
  key_size = length l.entry.key;
  value_size = length l.entry.value;
}

abbrev pub data_of : Entry → List ℕ
data_of e = e.column ++ (e.key ++ e.value)

abbrev pub encode_legacy : LegacyRecord → List ℕ
encode_legacy l = encode_legacy_header (legacy_header l) ++ data_of l.entry

abbrev pub encode_legacy_all : List LegacyRecord → List ℕ
encode_legacy_all [] = []
encode_legacy_all (l ∷ ls) = encode_legacy l ++ encode_legacy_all ls

abbrev pub entries : List LegacyRecord → List Entry
entries [] = []
entries (l ∷ ls) = l.entry ∷ entries ls

-- The fields fit their widths, and the sizes of column and key together fit 32 bits.
pub record FitsLegacyRecord (l : LegacyRecord) : Type 0 where
  pub sequence_fits : l.sequence < u64
  pub column_hash_fits : l.column_hash < u64
  pub key_hash_fits : l.key_hash < u64
  pub names_fit : length l.entry.column + length l.entry.key < u32
  pub value_fits : length l.entry.value < u64

abbrev pub AllFitLegacy : List LegacyRecord → Type 0
AllFitLegacy [] = Unit {0}
AllFitLegacy (l ∷ ls) = FitsLegacyRecord l × AllFitLegacy ls

legacy_header-Fits : {l : LegacyRecord} → FitsLegacyRecord l → FitsLegacy (legacy_header l)
legacy_header-Fits f = record {
  magic_fits = omega arith;
  version_fits = omega arith;
  header_size_fits = omega arith;
  sequence_fits = f.sequence_fits;
  column_hash_fits = f.column_hash_fits;
  key_hash_fits = f.key_hash_fits;
  column_fits = omega (arith, f.names_fit);
  key_fits = omega (arith, f.names_fit);
  value_fits = f.value_fits;
}

valid : (l : LegacyRecord) → is_valid_legacy_record_header (legacy_header l) ≡ true
unfolding is_valid_legacy_record_header
valid l = refl

pub length-data_of :
    (e : Entry) → length (data_of e) ≡ length e.column + length e.key + length e.value
length-data_of e =
    omega (arith, length-append e.column (e.key ++ e.value), length-append e.key e.value)

pub length-encode_legacy :
    (l : LegacyRecord) → length (encode_legacy l) ≡ 48 + length (data_of l.entry)
length-encode_legacy l = omega (
  arith,
  length-append (encode_legacy_header (legacy_header l)) (data_of l.entry),
  length-encode_legacy_header (legacy_header l),
)

record_data_size-data :
    (l : LegacyRecord)
    → FitsLegacyRecord l
    → length (data_of l.entry) < 2 ^ 63
    → record_data_size (legacy_header l) ≡ length (data_of l.entry)
unfolding record_data_size
record_data_size-data l f small = omega (arith, f.names_fit, length-data_of l.entry, small)

encode-split :
    (e : Entry)
    → encode_record_header (new_record_header (length e.column) (length e.key) (length e.value))
        ++ data_of e
      ≡ encode e
unfolding encode_record
encode-split e = refl

module _ (dev : Device) (reads : Reads dev) (writes : Writes dev) (source : List ℕ)
    (small : length source < 2 ^ 63) where
  module _ (before after : List ℕ) (l : LegacyRecord) (fits : FitsLegacyRecord l) (offset : ℕ)
      (split : source ≡ before ++ (encode_legacy l ++ after)) (place : length before ≡ offset) where
    sizes : length source ≡ offset + 48 + length (data_of l.entry) + length after
    sizes = omega (
      arith,
      ap (length {0}) split,
      length-append before (encode_legacy l ++ after),
      length-append (encode_legacy l) after,
      length-encode_legacy l,
      place,
    )

    data_size : record_data_size (legacy_header l) ≡ length (data_of l.entry)
    data_size = record_data_size-data l fits (omega (arith, sizes, small))

    read_legacy-at : read_legacy dev source (length source) offset ≡ ok (legacy_header l)
    unfolding read_legacy
    read_legacy-at = rw (
      read_all_at-piece dev source before (encode_legacy_header (legacy_header l))
          (data_of l.entry ++ after) 48 offset reads
          (split
            ∙ ap (λ x. before ++ x)
                (append_assoc (encode_legacy_header (legacy_header l)) (data_of l.entry) after))
          place (length-encode_legacy_header (legacy_header l)) small,
      decode-encode_legacy_header (legacy_header l) (legacy_header-Fits fits),
      valid l,
      data_size,
      leb-true (add64 48 (length (data_of l.entry))) (sub64 (length source) offset)
          (omega (arith, sizes, small)),
    )

    copy_record-copies :
        (target : List ℕ) (to : ℕ)
        → length target ≡ to
        → to ≤ offset
        → copy_record dev source offset to (legacy_header l) target
          ≡ (target ++ encode l.entry, ok tt)
    unfolding copy_record copy_data
    copy_record-copies target to at_end behind =
        ap
          (λ a. on_ok a (
            copy_data dev source (record_data_size (legacy_header l)) (add64 offset 48)
              (add64 to 24)))
          (write_all_at-end dev target header to writes at_end
            (omega (arith, behind, sizes, small)))
        ∙ ap (λ n. copy_data dev source n (add64 offset 48) (add64 to 24) (target ++ header))
            data_size
        ∙ copy_from-copies dev reads writes source after (suc (length (data_of l.entry)))
            (before ++ encode_legacy_header (legacy_header l)) (data_of l.entry)
            (length (data_of l.entry)) (add64 offset 48) (add64 to 24) (target ++ header)
            (split ∙ simp append_assoc)
            (omega (
              arith,
              length-append before (encode_legacy_header (legacy_header l)),
              length-encode_legacy_header (legacy_header l),
              place,
              sizes,
              small,
            ))
            refl
            (omega (arith, length-append target header, header_size, at_end, behind, sizes, small))
            (omega arith) small (omega (arith, behind, sizes, small))
        ∙ ap (λ t. (t, ok tt))
            (append_assoc target header (data_of l.entry)
              ∙ ap (λ x. target ++ x) (encode-split l.entry))
      where
        header : List ℕ
        header =
            encode_record_header (
              new_record_header (length l.entry.column) (length l.entry.key) (length l.entry.value))

        header_size : length header ≡ 24
        header_size =
            length-encode_record_header (
              new_record_header (length l.entry.column) (length l.entry.key) (length l.entry.value))

  migrate_from-copies :
      (ls : List LegacyRecord) (fuel : ℕ) (before : List ℕ) (offset to : ℕ) (target : List ℕ)
      → source ≡ before ++ encode_legacy_all ls
      → length before ≡ offset
      → length target ≡ to
      → to ≤ offset
      → AllFitLegacy ls
      → length (encode_legacy_all ls) < fuel
      → migrate_from fuel dev source (length source) offset to target
        ≡ (target ++ encode_all (entries ls), ok (length (target ++ encode_all (entries ls))))
  unfolding migrate_from copy_read
  migrate_from-copies ls zero before offset to target split place at_end behind fits enough =
      absurd (omega arith)
  migrate_from-copies [] (suc fuel) before offset to target split place at_end behind fits enough =
      rw
        (ltb-false offset (length source)
          (omega (arith, ap (length {0}) split, length-append before [], place)))
        (ap₂ (λ t n. (t, ok n)) (sym (append-nil target))
          (sym at_end ∙ ap (length {0}) (sym (append-nil target))))
  migrate_from-copies (l ∷ ls) (suc fuel) before offset to target split place at_end behind
        (fit, fits) enough =
      let more = encode_legacy_all ls in
      let all = sizes before more l fit offset split place in
      let size = data_size before more l fit offset split place in
      let n = length (data_of l.entry) in
      let continue : ℕ → List ℕ → List ℕ × Result ℕ = λ d.
        migrate_from fuel dev source (length source) (add64 offset (add64 48 d))
          (add64 to (add64 24 d)) in
      rw
        (
          ltb-true offset (length source) (omega (arith, all)),
          read_legacy-at before more l fit offset split place,
        )
        (ap
            (λ d.
              with_file (copy_record dev source offset to (legacy_header l) target) (continue d))
            size
          ∙ ap (λ a. with_file a (continue n))
              (copy_record-copies before more l fit offset split place target to at_end behind)
          ∙ migrate_from-copies ls fuel (before ++ encode_legacy l) (add64 offset (add64 48 n))
              (add64 to (add64 24 n)) (target ++ encode l.entry)
              (split ∙ sym (append_assoc before (encode_legacy l) more))
              (omega (
                arith,
                length-append before (encode_legacy l),
                length-encode_legacy l,
                place,
                all,
                small,
              ))
              (omega (
                arith,
                length-append target (encode l.entry),
                length-encode l.entry,
                length-data_of l.entry,
                at_end,
                behind,
                all,
                small,
              ))
              (omega (arith, behind, all, small)) fits
              (omega (arith, enough, length-append (encode_legacy l) more, length-encode_legacy l))
          ∙ ap (λ t. (t, ok (length t)))
              (append_assoc target (encode l.entry) (encode_all (entries ls))))

  -- From a header of 24 bytes and a log of legacy records whose fields fit, in a file below 2 ^ 63
  -- bytes, the migration makes the new header and the log of the same entries in the new format,
  -- and its `destinationOffset` is the new file's size, if the kernel answers every read and write.
  pub migrated-entries :
      (before : List ℕ) (ls : List LegacyRecord)
      → source ≡ before ++ encode_legacy_all ls
      → length before ≡ 24
      → AllFitLegacy ls
      → let target = encode_file_header new_value_file_header ++ encode_all (entries ls) in
        migrated dev source (length source) ≡ (target, ok (length target))
  unfolding migrated encode_file_header encode_le
  migrated-entries before ls split place fits =
      ap (λ a. with_file a (migrate_from (suc (length source)) dev source (length source) 24 24))
        (write_all_at-end dev [] (encode_file_header new_value_file_header) 0 writes refl
          (omega arith))
      ∙ migrate_from-copies ls (suc (length source)) before 24 24
          (encode_file_header new_value_file_header) split place refl (omega arith) fits
          (omega (arith, ap (length {0}) split, length-append before (encode_legacy_all ls)))
