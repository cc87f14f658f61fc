-- ===== src/Writer/Append.antt =====
-- `WriteStructs` against the map of objects.
use lumodb.Base.{
  ℕ, zero, suc, ◌+◌, ◌-◌, ◌*◌, ◌^◌, ◌≤◌, ◌<◌, ◌≡◌, inl, refl, sym, ap, ap₂, subst, ◌∙◌, Bool, true,
  false, not, none, some, List, [], ◌∷◌, ◌++◌, append-nil, append_assoc, arith, leb-true, length,
  length-append, drop, if◌then◌else◌,
}
use lumodb.Base.Words.{u32}
use lumodb.Status.{ok, on_ok}
use lumodb.Capacity.{IsLoadFactor}
use lumodb.File.{Device, Reads, Writes, write_v_all_at}
use lumodb.File.Contents.{write_v_all_at-append}
use lumodb.Objects.{Index, Store, fits_uint32}
use lumodb.Objects.Records.{CanRead}
use lumodb.Objects.Lookup.{IsIndex-append, Map, Models}
use lumodb.Writer.{
  StructEntry, pending_records, record_slices, publish_mapped, publish_structs, append_structs,
  PendingRecord, keys_fit, write_structs, write_mapped,
}
use lumodb.Writer.Publish.{Indexes, AllWritten, update_all, AllNew, publish_records-Extends}
use lumodb.Writer.Resize.{Grants, ensure_capacity_for_insert-Roomy}
use lumodb.Writer.Layout.{
  entries_of, encode_all, KeysFit, record_slices-encode_all, next_append_offset,
  pending_records-AllWritten,
}

-- A kernel that answers every call of the operation.
pub record Works (dev : Device) : Type 0 where
  pub reads : Reads dev
  pub writes : Writes dev
  pub grants : Grants dev

-- A store opened for writing, with a load factor below 1.
pub record Ready (s : Store) : Type 0 where
  pub opened : s.is_open ≡ true
  pub writable : s.read_only ≡ false
  pub unmapped : s.value_map ≡ none
  pub law : IsLoadFactor s.load

-- The batch fits its fields, the file stays below 2 ^ 63 bytes, and the index stays below 2 ^ 58
-- buckets.
pub record FitsBatch (s : Store) (ready : Ready s) (items : ℕ) (column : List ℕ)
    (es : List StructEntry) : Type 0 where
  pub column_fits : length column < u32
  pub keys_fit : KeysFit es
  pub file_fits : length s.value_file + length (encode_all (entries_of column es)) < 2 ^ 63
  pub index_fits : (items + length es) * 2 ^ ready.law.slack ≤ 2 ^ 58

length-entries_of :
    (column : List ℕ) (es : List StructEntry) → length (entries_of column es) ≡ length es
length-entries_of column [] = refl
length-entries_of column (e ∷ es) = ap suc (length-entries_of column es)

pub length-drop_le : (n : ℕ) (xs : List ℕ) → length (drop n xs) ≤ length xs
length-drop_le zero xs = omega arith
length-drop_le (suc n) [] = omega arith
length-drop_le (suc n) (x ∷ xs) = omega (arith, length-drop_le n xs)

Indexes-append :
    {file : List ℕ} {f : Map} {ix : Index} (rest : List ℕ)
    → Indexes file f ix
    → Indexes (file ++ rest) f ix
Indexes-append rest is = record {
  T = is.T;
  is_index = IsIndex-append rest is.is_index;
  contents = is.contents;
}

-- What a write leaves of the store's settings.
pub record Keeps (s s' : Store) : Type 0 where
  pub is_open : s'.is_open ≡ s.is_open
  pub read_only : s'.read_only ≡ s.read_only
  pub value_map : s'.value_map ≡ s.value_map
  pub load : s'.load ≡ s.load

pub fits_uint32-true : (n : ℕ) → n < u32 → fits_uint32 n ≡ true
unfolding fits_uint32
fits_uint32-true n h = leb-true n (u32 - 1) (omega arith)

pub keys_fit-true : (es : List StructEntry) → KeysFit es → keys_fit es ≡ true
unfolding keys_fit
keys_fit-true [] h = refl
keys_fit-true (e ∷ es) (h, hs) = rw (fits_uint32-true (length e.key) h) (keys_fit-true es hs)

-- The write and the index after it, once the index has room.
append_structs-Models :
    {dev : Device} (works : Works dev) (column : List ℕ) (es : List StructEntry) (unique : Bool)
    {f : Map} (s : Store) (body rest : List ℕ) {ix : Index}
    → s.value_map ≡ none
    → s.value_file ≡ body ++ rest
    → length body ≡ s.append_offset
    → s.index ≡ some ix
    → Indexes body f ix
    → ix.item_count + length es < ix.bucket_count
    → 16 ≤ ix.bucket_count
    → length column < u32
    → KeysFit es
    → length s.value_file + length (encode_all (entries_of column es)) < 2 ^ 63
    → (unique ≡ true → AllNew f (entries_of column es))
    → (s' : Store) × (append_structs dev column es unique s ≡ (s', ok tt))
      × Models (update_all f (entries_of column es)) s'
      × Keeps s s'
      × (length s'.value_file < 2 ^ 63)
unfolding append_structs publish_structs publish_mapped
append_structs-Models {dev} works column es unique {f} s body rest {ix} unmapped file place mapped
      is room min cfit kfit small new =
    let (ix', run, x) =
      publish_records-Extends can (body ++ bytes) rest' split column unique f ix pending
        (entries_of column es) (Indexes-append bytes is)
        (omega (arith, length-entries_of column es, room)) written new in
    (
      record s₁ { index = some ix'; append_offset = next },
      ap
            (λ p.
              on_ok (record s { value_file = p.0 }, p.1)
                (publish_structs dev column unique pending next))
            write
          ∙ ap (publish_mapped dev column unique pending next s₁) mapped
          ∙ ap
              (λ p.
                on_ok (record s₁ { index = some p.0 }, p.1)
                  λ s'. (record s' { append_offset = next }, ok tt))
              run,
      record {
        body = body ++ bytes;
        rest = rest';
        file = split;
        place =
            length-append body bytes
            ∙ omega (
              arith,
              place,
              next_append_offset column cfit s.append_offset es (omega (arith, sizes)),
            );
        ix = ix';
        is_mapped = refl;
        T = x.indexes.T;
        is_index = x.indexes.is_index;
        contents = x.indexes.contents;
        spare = omega (arith, x.items, x.same_size, room, length-entries_of column es);
        minimum = omega (arith, x.same_size, min);
      },
      record { is_open = refl; read_only = refl; value_map = refl; load = refl },
      can.small,
    )
  where
    pending : List PendingRecord
    pending = (pending_records column s.append_offset es).0

    next : ℕ
    next = (pending_records column s.append_offset es).1

    bytes : List ℕ
    bytes = encode_all (entries_of column es)

    rest' : List ℕ
    rest' = drop (length bytes) rest

    s₁ : Store
    s₁ = record s { value_file = body ++ (bytes ++ rest') }

    sizes : s.append_offset + length rest + length bytes < 2 ^ 63
    sizes = omega (arith, small, ap (length {0}) file, length-append body rest, place)

    write :
        write_v_all_at dev s.value_file s.append_offset (record_slices column pending)
        ≡ (body ++ (bytes ++ rest'), ok tt)
    write =
        ap₂ (λ v b. write_v_all_at dev v s.append_offset b) file
          (record_slices-encode_all column cfit s.append_offset es kfit)
        ∙ write_v_all_at-append dev body rest bytes s.append_offset works.writes place
            (omega (arith, sizes))

    split : body ++ (bytes ++ rest') ≡ (body ++ bytes) ++ rest'
    split = sym (append_assoc body bytes rest')

    can : CanRead dev s₁
    can = record {
      reads = works.reads;
      small = omega (
        arith,
        sizes,
        length-append body (bytes ++ rest'),
        length-append bytes rest',
        length-drop_le (length bytes) rest,
        place,
      );
      whole = inl unmapped;
    }

    written : AllWritten (body ++ bytes) column pending (entries_of column es)
    written =
        subst (λ b. AllWritten (body ++ b) column pending (entries_of column es)) (append-nil bytes)
          (pending_records-AllWritten column cfit es body [] s.append_offset place kfit
            (omega (arith, sizes)))

-- The checks of `WriteStructs` all pass.
pub guards {ℓ} :
    {A : Type ℓ} (x y z t v : A) (opened read_only column_fits keys : Bool)
    → opened ≡ true
    → read_only ≡ false
    → column_fits ≡ true
    → keys ≡ true
    → (if not opened
        then x
        else if read_only
        then y
        else if not column_fits
        then z
        else if not keys
        then t
        else v)
      ≡ v
guards x y z t v opened read_only column_fits keys o r c k = rw (o, r, c, k)

guards_empty {ℓ} :
    {A : Type ℓ} (x y z w : A) (opened read_only column_fits : Bool)
    → opened ≡ true
    → read_only ≡ false
    → column_fits ≡ true
    → (if not opened then x else if read_only then y else if not column_fits then z else w) ≡ w
guards_empty x y z w opened read_only column_fits o r c = rw (o, r, c)

Keeps-Ready : {s s' : Store} → Keeps s s' → Ready s → Ready s'
Keeps-Ready k ready = record {
  opened = k.is_open ∙ ready.opened;
  writable = k.read_only ∙ ready.writable;
  unmapped = k.value_map ∙ ready.unmapped;
  law = subst IsLoadFactor (sym k.load) ready.law;
}

-- If the kernel answers every call, a batch that fits is stored whole: `WriteStructs` succeeds on a
-- store opened for writing, and afterwards the store holds the objects that it held, each of the batch in place of an older one
-- under its key, a later one in place of an earlier, is still open for writing, and its value file
-- is below 2 ^ 63 bytes. With `unique` this asks that every key is new.
pub write_structs-Models :
    {dev : Device} {f : Map} {s : Store} (column : List ℕ) (es : List StructEntry) (unique : Bool)
    → Works dev
    → (ready : Ready s) → (m : Models f s) → FitsBatch s ready m.ix.item_count column es
    → (unique ≡ true → AllNew f (entries_of column es))
    → (s' : Store) × (write_structs dev s column es unique ≡ (s', ok tt))
      × Models (update_all f (entries_of column es)) s'
      × Ready s'
      × (length s'.value_file < 2 ^ 63)
unfolding write_structs write_mapped
write_structs-Models {s = s} column [] unique works ready m fit new = (
  s,
  guards_empty _ _ _ _ s.is_open s.read_only (fits_uint32 (length column)) ready.opened
      ready.writable (fits_uint32-true (length column) fit.column_fits),
  m,
  ready,
  omega (arith, fit.file_fits),
)
write_structs-Models {dev} {f} {s} column (e ∷ es) unique works ready m fit new =
    let (ix₁, run₁, roomy) =
      ensure_capacity_for_insert-Roomy s (length (e ∷ es)) works.grants ready.law m.is_mapped
        (record { T = m.T; is_index = m.is_index; contents = m.contents }) m.minimum
        fit.index_fits in
    let (s₂, run₂, models, keeps, small) =
      append_structs-Models works column (e ∷ es) unique (record s { index = some ix₁ }) m.body
        m.rest ready.unmapped m.file m.place refl roomy.indexes roomy.spare
        (omega (arith, roomy.covers, m.minimum)) fit.column_fits fit.keys_fit fit.file_fits new in
    (
      s₂,
      guards _ _ _ _ _ s.is_open s.read_only (fits_uint32 (length column)) (keys_fit (e ∷ es))
            ready.opened ready.writable (fits_uint32-true (length column) fit.column_fits)
            (keys_fit-true (e ∷ es) fit.keys_fit)
          ∙ ap (write_mapped dev s column (e ∷ es) unique) m.is_mapped
          ∙ ap (λ a. on_ok a (append_structs dev column (e ∷ es) unique)) run₁
          ∙ run₂,
      models,
      Keeps-Ready {s = s}
          (record {
            is_open = keeps.is_open;
            read_only = keeps.read_only;
            value_map = keeps.value_map;
            load = keeps.load;
          })
          ready,
      small,
    )
