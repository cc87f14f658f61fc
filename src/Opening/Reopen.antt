-- ===== src/Opening/Reopen.antt =====
-- Opening the files that a store left, with its index and without.
use lumodb.Base.{
  ℕ, ◌+◌, ◌*◌, ◌^◌, ◌≤◌, ◌<◌, ◌≡◌, inl, inr, refl, sym, ap, ◌∙◌, true, false, not, ◌&&◌, none, some,
  List, [], ◌++◌, append-nil, arith, ltb, ltb-false, ◌==◌, ==-ne, length, length-append, bytes_eq,
  if◌then◌else◌, if_false, if_true, and_false, Bool-cases,
}
use Prim.Native.String.{String}
use lumodb.Status.{ok, on_ok}
use lumodb.Capacity.{IsLoadFactor, round_up_power_of_two}
use lumodb.Capacity.RoundUp.{round_up_power_of_two-IsRoundUp}
use lumodb.Format.Codec.{encode_le, decode_le}
use lumodb.Format.Headers.{
  value_file_magic, legacy_value_file_magic, new_value_file_header, encode_file_header,
  decode_file_header,
}
use lumodb.File.Contents.{read_all_at-piece}
use lumodb.Probe.Scan.{IsSize}
use lumodb.Objects.{Store}
use lumodb.Objects.Records.{Entry}
use lumodb.Objects.Lookup.{Map, Models}
use lumodb.Writer.{index_file_size, new_index}
use lumodb.Writer.Append.{Works}
use lumodb.Writer.Publish.{Indexes, update_all}
use lumodb.Writer.Resize.{no_map, create_empty_index-new, new_index-Indexes}
use lumodb.Writer.Layout.{encode_all}
use lumodb.Recovery.{has_valid_index_layout}
use lumodb.Recovery.Layout.{HasHeader, has_valid_index_layout-true}
use lumodb.Recovery.Rebuild.{AllFit, rebuild_index_from_values-Models}
use lumodb.Opening.{
  Kernel, Files, is_file_header, open_by_header, open_value_file, rebuild_in, rebuild_index,
  open_index_file, close_on_error, mark_open, open_both, open_counted, open_objects,
}

-- A kernel that answers every call of an opening.
pub record Answers (k : Kernel) : Type 0 where
  pub works : Works k.device
  pub stats : k.device.stat_fails ≡ false
  pub opens : (name : String) → k.open_fails name ≡ false

abbrev pub file_header : List ℕ
file_header = encode_file_header new_value_file_header

length-file_header : length file_header ≡ 24
unfolding encode_file_header encode_le
length-file_header = refl

is_current : is_file_header value_file_magic (decode_file_header file_header) ≡ true
unfolding encode_file_header decode_file_header encode_le decode_le is_file_header bytes_eq
is_current = refl

is_legacy : is_file_header legacy_value_file_magic (decode_file_header file_header) ≡ false
unfolding encode_file_header decode_file_header encode_le decode_le is_file_header bytes_eq
is_legacy = refl

-- `OpenIndexFile` without an index file makes the index from the log.
pub open_index_file-recovers :
    {k : Kernel} (answers : Answers k) (fs : Files) (law : IsLoadFactor fs.store.load)
    (es : List Entry) {n : ℕ}
    → IsSize n
    → 16 ≤ n
    → n ≤ 2 ^ 59
    → fs.index_file.size ≡ 0
    → fs.store.read_only ≡ false
    → fs.store.value_map ≡ none
    → fs.store.value_file ≡ file_header ++ encode_all es
    → length fs.store.value_file < 2 ^ 63
    → AllFit es
    → length es * 2 ^ law.slack ≤ 2 ^ 58
    → (s' : Store) × (open_index_file k n fs ≡ (s', ok tt))
      × Models (update_all no_map es) s'
      × (s'.value_file ≡ fs.store.value_file)
      × (s'.read_only ≡ fs.store.read_only)
unfolding open_index_file rebuild_index rebuild_in
open_index_file-recovers {k} answers fs law es {n} size low high missing writable unmapped log small
      fits bound =
    let s = fs.store in
    let (s', run, models, kept, mode) =
      rebuild_index_from_values-Models answers.works.reads answers.works.grants
        (record s { index = some (new_index n) }) law file_header es answers.stats unmapped refl log
        length-file_header small fits (new_index-Indexes s.value_file 1 size high) low
        (omega (arith, low)) (omega (arith, bound)) in
    (
      s',
      if_false (k.open_fails "index.lumoi") _ _ (answers.opens "index.lumoi")
          ∙ if_false k.device.stat_fails _ _ answers.stats
          ∙ if_false (s.read_only && (fs.index_file.size == 0)) _ _
              (ap (λ r. r && (fs.index_file.size == 0)) writable)
          ∙ if_true (fs.index_file.size == 0) _ _ (ap (λ n. n == 0) missing)
          ∙ if_false s.read_only _ _ writable
          ∙ ap (rebuild_in k s) (create_empty_index-new answers.works.grants size low high)
          ∙ run,
      models,
      kept,
      mode,
    )

-- Whether a store is open does not matter to what it holds.
pub Models-opened : {f : Map} {s : Store} → Models f s → Models f (record s { is_open = true })
Models-opened models = record {
  body = models.body;
  rest = models.rest;
  file = models.file;
  place = models.place;
  ix = models.ix;
  is_mapped = models.is_mapped;
  T = models.T;
  is_index = models.is_index;
  contents = models.contents;
  spare = models.spare;
  minimum = models.minimum;
}

-- What `OpenValueFile` leaves of a store with a file in the current format.
abbrev pub placed : Store → Store
placed s = record s {
  append_offset = length s.value_file;
  value_map = if s.read_only then some (length s.value_file) else none;
}

-- A closed store, with a value file in the current format.
pub record Closed (fs : Files) (rest : List ℕ) : Type 0 where
  pub unmapped : fs.store.value_map ≡ none
  pub file : fs.store.value_file ≡ file_header ++ rest
  pub small : length fs.store.value_file < 2 ^ 63
  pub factor : fs.store.load.in_range ≡ true

module _ {k : Kernel} (answers : Answers k) (fs : Files) {rest : List ℕ}
    (closed : Closed fs rest) where
  size : length fs.store.value_file ≡ 24 + length rest
  size =
      omega (arith, ap (length {0}) closed.file, length-append file_header rest, length-file_header)

  by_header : open_by_header k fs (ok file_header) ≡ (record fs { store = placed fs.store }, ok tt)
  unfolding open_by_header
  by_header =
      rw (is_legacy, is_current)
        (elim (Bool-cases fs.store.read_only) [
          | inl r ↦ rw (r, answers.works.grants.maps (length fs.store.value_file))
          | inr w ↦ rw w (
              ap
                (λ m. (
                  record fs {
                    store = record fs.store {
                      append_offset = length fs.store.value_file;
                      value_map = m;
                      read_only = false;
                    };
                  },
                  ok tt,
                ))
                closed.unmapped)
        ])

  value_file-placed : open_value_file k fs ≡ (record fs { store = placed fs.store }, ok tt)
  unfolding open_value_file
  value_file-placed =
      if_false (k.open_fails "values.lumov") _ _ (answers.opens "values.lumov")
      ∙ if_false k.device.stat_fails _ _ answers.stats
      ∙ if_false (length fs.store.value_file == 0) _ _
          (==-ne (length fs.store.value_file) 0 (omega (arith, size)))
      ∙ if_false (ltb (length fs.store.value_file) 24) _ _
          (ltb-false (length fs.store.value_file) 24 (omega (arith, size)))
      ∙ ap (open_by_header k fs) (
          read_all_at-piece k.device fs.store.value_file [] file_header rest 24 0
            answers.works.reads closed.file refl length-file_header closed.small)
      ∙ by_header

  module _ (initial : ℕ) where
    -- `OpenInternal` comes to `OpenIndexFile`.
    open_objects-index :
        (bucket_count : ℕ)
        → round_up_power_of_two initial ≡ ok bucket_count
        → open_objects k initial fs
          ≡ on_ok
              (close_on_error
                (open_index_file k bucket_count (record fs { store = placed fs.store })))
              mark_open
    unfolding open_objects open_counted open_both
    open_objects-index bucket_count rounded =
        if_false (not fs.store.load.in_range) _ _ (ap not closed.factor)
        ∙ ap (open_counted k fs) rounded
        ∙ ap (λ a. on_ok (close_on_error (open_both k bucket_count a)) mark_open) value_file-placed

    -- A store whose files are a value file in the current format and a valid index file of the
    -- objects of `f` opens, read-only or for writing, and holds the objects of `f`: the index has
    -- from 16 to 2 ^ 59 buckets, one of them empty, the kernel answers every call, and the initial
    -- bucket count is at most 2 ^ 63.
    pub open_objects-Models :
        {f : Map}
        → let ix = fs.index_file.view in
          fs.index_file.size ≡ index_file_size ix.bucket_count
          → Indexes fs.store.value_file f ix
          → HasHeader ix
          → 16 ≤ ix.bucket_count
          → ix.bucket_count < 2 ^ 59
          → ix.item_count < ix.bucket_count
          → initial ≤ 2 ^ 63
          → (s' : Store) × (open_objects k initial fs ≡ (s', ok tt))
            × Models f s'
            × (s'.is_open ≡ true)
            × (s'.read_only ≡ fs.store.read_only)
            × (s'.value_file ≡ fs.store.value_file)
    unfolding open_index_file close_on_error mark_open
    open_objects-Models {f} on_disk is header low high spare moderate =
        let ix = fs.index_file.view in
        let bytes = fs.index_file.size in
        let (n, round, rounded) = round_up_power_of_two-IsRoundUp initial moderate in
        (
          record (placed fs.store) { index = some ix; is_open = true },
          open_objects-index n round
              ∙ ap (λ a. on_ok (close_on_error a) mark_open)
                  (if_false (k.open_fails "index.lumoi") _ _ (answers.opens "index.lumoi")
                    ∙ if_false k.device.stat_fails _ _ answers.stats
                    ∙ if_false (fs.store.read_only && (bytes == 0)) _ _ (
                        and_false fs.store.read_only (bytes == 0)
                          (==-ne bytes 0 (omega (arith, on_disk, high))))
                    ∙ if_false (bytes == 0) _ _ (==-ne bytes 0 (omega (arith, on_disk, high)))
                    ∙ if_false (k.device.map_fails bytes) _ _ (answers.works.grants.maps bytes)
                    ∙ if_true (has_valid_index_layout bytes ix) _ _ (
                        ap (λ n. has_valid_index_layout n ix) on_disk
                        ∙ has_valid_index_layout-true is.is_index high header)),
          record {
            body = fs.store.value_file;
            rest = [];
            file = sym (append-nil fs.store.value_file);
            place = refl;
            ix = ix;
            is_mapped = refl;
            T = is.T;
            is_index = is.is_index;
            contents = is.contents;
            spare = spare;
            minimum = low;
          },
          refl,
          refl,
          refl,
        )

    -- A store whose index file is missing or empty opens for writing, is then open and not
    -- read-only, and holds under each key of the log of its value file the last value that was
    -- logged, and nothing else: the kernel answers every call, the initial bucket count is at most
    -- 2 ^ 58, and the records ask for at most 2 ^ 58 buckets of slack.
    pub open_objects-recovers :
        (law : IsLoadFactor fs.store.load) (es : List Entry)
        → fs.index_file.size ≡ 0
        → fs.store.read_only ≡ false
        → rest ≡ encode_all es
        → AllFit es
        → initial ≤ 2 ^ 58
        → length es * 2 ^ law.slack ≤ 2 ^ 58
        → (s' : Store) × (open_objects k initial fs ≡ (s', ok tt))
          × Models (update_all no_map es) s'
          × (s'.is_open ≡ true)
          × (s'.read_only ≡ fs.store.read_only)
          × (s'.value_file ≡ fs.store.value_file)
    unfolding close_on_error mark_open
    open_objects-recovers law es missing writable log fits low bound =
        let (n, round, is) = round_up_power_of_two-IsRoundUp initial (omega (arith, low)) in
        let (s', run, models, kept, mode) =
          open_index_file-recovers answers (record fs { store = placed fs.store }) law es is.size
            is.minimum (omega (arith, is.least, low)) missing writable
            (if_false fs.store.read_only _ _ writable)
            (closed.file ∙ ap (λ r. file_header ++ r) log) closed.small fits bound in
        (
          record s' { is_open = true },
          open_objects-index n round ∙ ap (λ a. on_ok (close_on_error a) mark_open) run,
          Models-opened models,
          refl,
          mode,
          kept,
        )
