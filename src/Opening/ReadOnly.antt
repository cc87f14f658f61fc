-- ===== src/Opening/ReadOnly.antt =====
-- `OpenValueFile`, `OpenIndexFile` and the object part of `OpenInternal` with `readOnly_` set, on all of
-- their paths.
use lumodb.Base.{
  ℕ, ◌≤◌, ◌≡◌, refl, sym, subst, Bool, true, false, not, ◌&&◌, some, List, ltb, ◌==◌, length, arith,
  if◌then◌else◌,
}
use lumodb.Status.{Result, Act, ok, err, fault, on_ok}
use lumodb.Capacity.{round_up_power_of_two}
use lumodb.Format.Headers.{value_file_magic, legacy_value_file_magic, decode_file_header}
use lumodb.File.{read_all_at}
use lumodb.Objects.{Store}
use lumodb.Recovery.{has_valid_index_layout}
use lumodb.Opening.{
  Kernel, Files, is_file_header, open_by_header, open_value_file, rebuild_index, open_index_file,
  close_files, close_on_error, mark_open, open_both, open_counted, open_objects,
}

-- The value file has a header in the current format.
pub record IsCurrent (k : Kernel) (fs : Files) : Type 0 where
  pub bytes : List ℕ
  pub header : read_all_at k.device fs.store.value_file 24 0 ≡ ok bytes
  pub current : is_file_header value_file_magic (decode_file_header bytes) ≡ true
  pub enough : 24 ≤ length fs.store.value_file

-- The store serves the two files as they stand on the disk.
pub record Serves (k : Kernel) (fs : Files) (s : Store) : Type 0 where
  pub file : s.value_file ≡ fs.store.value_file
  pub value_header : IsCurrent k fs
  pub whole : s.value_map ≡ some (length fs.store.value_file)
  pub index : s.index ≡ some fs.index_file.view
  pub layout : has_valid_index_layout fs.index_file.size fs.index_file.view ≡ true
  pub place : s.append_offset ≡ length fs.store.value_file
  pub mode : s.read_only ≡ true

-- After the value file was opened.
abbrev mapped_whole : Files → Files
mapped_whole fs = record fs {
  store = record fs.store {
    append_offset = length fs.store.value_file;
    value_map = some (length fs.store.value_file);
  };
}

abbrev Placed : Kernel → Files → Act Files → Type 0
Placed k fs (fs', ok u) = (fs' ≡ mapped_whole fs) × IsCurrent k fs
Placed k fs (fs', err c m) = fs'.store.value_file ≡ fs.store.value_file
Placed k fs (fs', fault x) = fs'.store.value_file ≡ fs.store.value_file

-- After both files were opened.
abbrev Opened : Kernel → Files → Act Store → Type 0
Opened k fs (s, ok u) = Serves k fs s
Opened k fs (s, err c m) = s.value_file ≡ fs.store.value_file
Opened k fs (s, fault x) = s.value_file ≡ fs.store.value_file

branch :
    {A : Type 0} (P : A → Type 0) (b : Bool) (x y : A)
    → (b ≡ true → P x)
    → (b ≡ false → P y)
    → P (if b then x else y)
branch P true x y f g = f refl
branch P false x y f g = g refl

-- A test that only a store opened for writing fails.
reads_only :
    {A : Type 0} (P : A → Type 0) (b : Bool) (x y : A) → b ≡ true → P x → P (if b then x else y)
reads_only P b x y h p = branch P b x y (λ e. p) (λ e. absurd (cc (h, e)))

not-false : (b : Bool) → not b ≡ false → b ≡ true
not-false true h = refl
not-false false h = absurd (cc h)

ltb-false-le : (a b : ℕ) → ltb a b ≡ false → b ≤ a
ltb-false-le a b h = ground arith

module _ (k : Kernel) (fs : Files) (reading : fs.store.read_only ≡ true) where
  by_header-Placed :
      (r : Result (List ℕ))
      → read_all_at k.device fs.store.value_file 24 0 ≡ r
      → 24 ≤ length fs.store.value_file
      → Placed k fs (open_by_header k fs r)
  unfolding open_by_header
  by_header-Placed (err c m) e long = refl
  by_header-Placed (fault x) e long = refl
  by_header-Placed (ok bytes) e long =
      branch (Placed k fs) (is_file_header legacy_value_file_magic (decode_file_header bytes)) _ _
        (λ old. reads_only (Placed k fs) fs.store.read_only _ _ reading refl)
        (λ new.
          branch (Placed k fs) (not (is_file_header value_file_magic (decode_file_header bytes))) _
            _ (λ other. refl)
            (λ is.
              branch (Placed k fs) (not fs.store.read_only) _ _ (λ w. absurd (cc (reading, w)))
                (λ w.
                  branch (Placed k fs) (k.device.map_fails (length fs.store.value_file)) _ _
                    (λ fails. refl)
                    (λ maps. (
                      refl,
                      record { bytes = bytes; header = e; current = not-false _ is; enough = long },
                    )))))

  value_file-Placed : Placed k fs (open_value_file k fs)
  unfolding open_value_file
  value_file-Placed =
      branch (Placed k fs) (k.open_fails "values.lumov") _ _ (λ fails. refl)
        (λ opens.
          branch (Placed k fs) k.device.stat_fails _ _ (λ fails. refl)
            (λ stats.
              branch (Placed k fs) (length fs.store.value_file == 0) _ _
                (λ empty. reads_only (Placed k fs) fs.store.read_only _ _ reading refl)
                (λ full.
                  branch (Placed k fs) (ltb (length fs.store.value_file) 24) _ _ (λ short. refl)
                    (λ long.
                      by_header-Placed _ refl
                        (ltb-false-le (length fs.store.value_file) 24 long)))))

  rebuild_index-Opened :
      (n : ℕ) (s : Store)
      → s.read_only ≡ true
      → s.value_file ≡ fs.store.value_file
      → Opened k fs (rebuild_index k n s)
  unfolding rebuild_index
  rebuild_index-Opened n s mode file = reads_only (Opened k fs) s.read_only _ _ mode file

  index_file-Opened : (n : ℕ) → IsCurrent k fs → Opened k fs (open_index_file k n (mapped_whole fs))
  unfolding open_index_file
  index_file-Opened n is =
      branch (Opened k fs) (k.open_fails "index.lumoi") _ _ (λ fails. refl)
        (λ opens.
          branch (Opened k fs) k.device.stat_fails _ _ (λ fails. refl)
            (λ stats.
              branch (Opened k fs) (fs.store.read_only && (fs.index_file.size == 0)) _ _
                (λ empty. refl)
                (λ full.
                  branch (Opened k fs) (fs.index_file.size == 0) _ _
                    (λ empty. rebuild_index-Opened n _ reading refl)
                    (λ some_bytes.
                      branch (Opened k fs) (k.device.map_fails fs.index_file.size) _ _
                        (λ fails. refl)
                        (λ maps.
                          branch (Opened k fs)
                            (has_valid_index_layout fs.index_file.size fs.index_file.view) _ _
                            (λ valid. record {
                              file = refl;
                              value_header = is;
                              whole = refl;
                              index = refl;
                              layout = valid;
                              place = refl;
                              mode = reading;
                            })
                            (λ bad. rebuild_index-Opened n _ reading refl))))))

  both-Opened : (n : ℕ) (a : Act Files) → Placed k fs a → Opened k fs (open_both k n a)
  unfolding open_both
  both-Opened n (fs', err c m) same = same
  both-Opened n (fs', fault x) same = same
  both-Opened n (fs', ok u) (is_placed, is) =
      subst (λ x. Opened k fs (open_index_file k n x)) (sym is_placed) (index_file-Opened n is)

  end-Opened : (a : Act Store) → Opened k fs a → Opened k fs (on_ok (close_on_error a) mark_open)
  unfolding close_on_error close_files mark_open
  end-Opened (s, err c m) same = same
  end-Opened (s, fault x) same = same
  end-Opened (s, ok u) is = record {
    file = is.file;
    value_header = is.value_header;
    whole = is.whole;
    index = is.index;
    layout = is.layout;
    place = is.place;
    mode = is.mode;
  }

  counted-Opened : (r : Result ℕ) → Opened k fs (open_counted k fs r)
  unfolding open_counted
  counted-Opened (err c m) = refl
  counted-Opened (fault x) = refl
  counted-Opened (ok n) = end-Opened _ (both-Opened n (open_value_file k fs) value_file-Placed)

  objects-Opened : (initial : ℕ) → Opened k fs (open_objects k initial fs)
  unfolding open_objects
  objects-Opened initial =
      branch (Opened k fs) (not fs.store.load.in_range) _ _ (λ out. refl)
        (λ inside. counted-Opened (round_up_power_of_two initial))

Opened-file :
    (k : Kernel) (fs : Files) (a : Act Store) → Opened k fs a → a.0.value_file ≡ fs.store.value_file
Opened-file k fs (s, ok u) is = is.file
Opened-file k fs (s, err c m) same = same
Opened-file k fs (s, fault x) same = same

-- A read-only open never changes the value file, whatever the kernel answers, whatever the files
-- hold and however the open ends.
pub open_objects-keeps_file :
    (k : Kernel) (fs : Files) (initial : ℕ)
    → fs.store.read_only ≡ true
    → (open_objects k initial fs).0.value_file ≡ fs.store.value_file
open_objects-keeps_file k fs initial reading =
    Opened-file k fs (open_objects k initial fs) (objects-Opened k fs reading initial)

-- A success leaves the store open.
abbrev IsOpenAfter : Act Store → Type 0
IsOpenAfter (s, ok u) = s.is_open ≡ true
IsOpenAfter (s, err c m) = Unit {0}
IsOpenAfter (s, fault x) = Unit {0}

end-IsOpenAfter : (a : Act Store) → IsOpenAfter (on_ok (close_on_error a) mark_open)
unfolding close_on_error mark_open
end-IsOpenAfter (s, ok u) = refl
end-IsOpenAfter (s, err c m) = tt
end-IsOpenAfter (s, fault x) = tt

counted-IsOpenAfter : (k : Kernel) (fs : Files) (r : Result ℕ) → IsOpenAfter (open_counted k fs r)
unfolding open_counted
counted-IsOpenAfter k fs (err c m) = tt
counted-IsOpenAfter k fs (fault x) = tt
counted-IsOpenAfter k fs (ok n) = end-IsOpenAfter (open_both k n (open_value_file k fs))

objects-IsOpenAfter :
    (k : Kernel) (fs : Files) (initial : ℕ) → IsOpenAfter (open_objects k initial fs)
unfolding open_objects
objects-IsOpenAfter k fs initial =
    branch IsOpenAfter (not fs.store.load.in_range) _ _ (λ out. tt)
      (λ inside. counted-IsOpenAfter k fs (round_up_power_of_two initial))

-- A read-only open that succeeds, whatever the kernel answers, found a value file whose first 24
-- bytes are a header in the current format and an index file with a valid layout. The store then is
-- open and read-only, it maps the whole value file and that index file, its append offset is the
-- size of the value file, and the value file is as before.
pub open_objects-Serves :
    (k : Kernel) (fs : Files) (initial : ℕ) (s' : Store)
    → fs.store.read_only ≡ true
    → open_objects k initial fs ≡ (s', ok tt)
    → (s'.is_open ≡ true) × Serves k fs s'
open_objects-Serves k fs initial s' reading run = (
  subst IsOpenAfter run (objects-IsOpenAfter k fs initial),
  subst (Opened k fs) run (objects-Opened k fs reading initial),
)
