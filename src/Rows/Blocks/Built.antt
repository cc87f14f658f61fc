-- ===== src/Rows/Blocks/Built.antt =====
-- `BuildRowBlockLayout` builds a block, and `FindValueInRowBlockAt` finds in it what was put there.
use Prim.Native.Nat.{bit_and}
use lumodb.Base.{
  ℕ, ◌+◌, ◌-◌, ◌*◌, ◌%◌, ◌^◌, ◌≤◌, ◌<◌, ◌≡◌, refl, sym, ap, ap₂, subst, ◌∙◌, true, false, Option,
  none, List, [], arith, ◌==◌, ==-refl, ==-ne, leb, leb-true, length, get_or, replicate,
  length-replicate, get_or-replicate,
}
use native.Mathlib.Nat.{mod_self}
use lumodb.Base.Words.{u32, u64, add64, mul64}
use lumodb.Status.{ok}
use lumodb.Format.Headers.{storage_version}
use lumodb.Format.Rows.{
  RowBlockHeader, FitsRowBlockHeader, row_block_magic, is_valid_row_block_header,
}
use lumodb.Capacity.{LoadFactor, round_up_power_of_two}
use lumodb.Capacity.RoundUp.{round_up_power_of_two-IsRoundUp}
use lumodb.File.{Device}
use lumodb.Probe.{mask_of}
use lumodb.Probe.Scan.{IsSize, IsSize-pos, and_mask-mod}
use lumodb.Probe.Table.{IsTable, Contents}
use lumodb.Probe.Writes.{none-ne-some}
use lumodb.Probe.Count.{filled, filled-none}
use lumodb.File.Loops.{flatten}
use lumodb.Rows.Blocks.{
  RowStructEntry, no_entry, empty_key_bucket, RowBlockLayout, Chosen, choose_all, place_values,
  build_row_block_layout, block_slices, RowFiles, BlockPlace, find_value_in_row_block_at,
}
use lumodb.Rows.Blocks.Keys.{by_key, PieceAt, IsChosen, Slot}
use lumodb.Rows.Blocks.Choosing.{last_of, choose_all-IsChosen}
use lumodb.Rows.Blocks.Values.{Placed, place_values-Placed}
use lumodb.Rows.Blocks.Bytes.{CanReadShard, PieceAt-le, length-block_slices}
use lumodb.Rows.Blocks.Finding.{IsLayout, value_of, find_value-Contents}

-- The row has at least one bucket for each entry, and fewer than 2 ^ 32 buckets: division by a load
-- factor below 1 gives no less than the count, and the count is not too large for it.
pub record FitsRow (load : LoadFactor) (column : List ℕ) (entries : List RowStructEntry)
    : Type 0 where
  pub column_fits : length column < u32
  pub covers : length entries ≤ load.quotient (length entries)
  pub small : load.quotient (length entries) < 2 ^ 31

-- The variables before the first loop.
abbrev first_chosen : List RowStructEntry → ℕ → Chosen
first_chosen entries n = record {
  key_buckets = replicate n empty_key_bucket;
  key_bytes = [];
  selected = replicate n (length entries);
  item_count = 0;
}

first-IsChosen :
    (row_id : ℕ) (entries : List RowStructEntry) (n : ℕ)
    → IsSize n
    → IsChosen row_id entries n (first_chosen entries n) (λ _. none)
first-IsChosen row_id entries n v = record {
  size = v;
  width = length-replicate n empty_key_bucket;
  selected_width = length-replicate n (length entries);
  slots = λ i lt. get_or-replicate n i empty_key_bucket;
  table = record {
    reach = λ j e lt h. absurd (none-ne-some h);
    unique = λ i j e e' hi hj h h' k. absurd (none-ne-some h);
  };
  count = filled-none (λ _. none) n (λ i. refl);
}

first-Contents : (row_id n : ℕ) → Contents (by_key row_id) n (λ _. none) (λ _. none)
first-Contents row_id n = record {
  has = λ k e h. absurd (none-ne-some h);
  only = λ k h j e lt full. absurd (none-ne-some full);
}

-- The layout after the loops.
abbrev layout_of : List ℕ → ℕ → List RowStructEntry → ℕ → ℕ → ℕ → Chosen → RowBlockLayout
layout_of column row_id entries sequence column_hash n c =
    let r = place_values entries c.selected 0 c.key_buckets 0 in
    record {
      header = record {
        magic = row_block_magic;
        version = storage_version;
        header_size = 72;
        sequence = sequence;
        column_hash = column_hash;
        row_id = row_id;
        column_size = length column % u32;
        item_count = c.item_count;
        bucket_count = n % u32;
        reserved32 = 0;
        key_bytes_size = length c.key_bytes;
        value_bytes_size = r.2;
        block_size =
            add64 (add64 (add64 (add64 72 (mul64 n 48)) (length column)) (length c.key_bytes)) r.2;
      };
      key_buckets = r.0;
      key_bytes = c.key_bytes;
      value_entries = r.1;
    }

-- A header with the parts that the loops give is valid.
valid_header :
    (h : RowBlockHeader)
    → h.magic ≡ row_block_magic
    → h.version ≡ storage_version
    → h.header_size ≡ 72
    → IsSize h.bucket_count
    → h.block_size
      ≡ add64
          (add64 (add64 (add64 72 (mul64 h.bucket_count 48)) h.column_size) h.key_bytes_size)
          h.value_bytes_size
    → is_valid_row_block_header h ≡ true
unfolding is_valid_row_block_header
valid_header h magic version header_size v size =
    let nonzero : (h.bucket_count == 0) ≡ false =
      ==-ne h.bucket_count 0 (λ z. omega (arith, IsSize-pos v)) in
    let mask : mask_of h.bucket_count ≡ h.bucket_count - 1 = omega (arith, IsSize-pos v, v.small) in
    let power : bit_and h.bucket_count (h.bucket_count - 1) ≡ 0 =
      ap (bit_and h.bucket_count) (sym mask)
      ∙ and_mask-mod v h.bucket_count
      ∙ mod_self h.bucket_count in
    rw (magic, version, header_size, nonzero, power, size) (==-refl _)

layout_of-IsLayout :
    (column : List ℕ) (row_id : ℕ) (entries : List RowStructEntry) (sequence column_hash n : ℕ)
    {c : Chosen} {T : ℕ → Option RowStructEntry}
    → IsChosen row_id entries n c T
    → filled T n < n
    → n < u32
    → length column < u32
    → length (block_slices column (layout_of column row_id entries sequence column_hash n c))
      < 2 ^ 63
    → IsLayout column row_id (layout_of column row_id entries sequence column_hash n c) T
layout_of-IsLayout column row_id entries sequence column_hash n {c} {T} is spare small column_fits
      room =
    record {
      size = subst IsSize (sym count) is.size;
      width = width ∙ is.width ∙ sym count;
      slots = λ i lt. placed i (subst (λ x. i < x) (count ∙ sym is.width) lt);
      table = subst (λ x. IsTable (by_key row_id) x T) (sym count) is.table;
      spare = subst (λ x. filled T x < x) (sym count) spare;
      is_row = refl;
      is_column = column_size;
      is_keys = refl;
      is_values = end;
      is_size = omega (arith, room, total, width, is.width, end);
      valid = valid_header l.header refl refl refl (subst IsSize (sym count) is.size) (
          ap₂
            (λ x y.
              add64 (add64 (add64 (add64 72 (mul64 x 48)) y) (length c.key_bytes))
                l.header.value_bytes_size)
            (sym count) (sym column_size));
    }
  where
    l : RowBlockLayout
    l = layout_of column row_id entries sequence column_hash n c

    count : n % u32 ≡ n
    count = omega (arith, small)

    column_size : length column % u32 ≡ length column
    column_size = omega (arith, column_fits)

    total :
        length (block_slices column l)
        ≡ 72
          + length l.key_buckets * 48
          + length column
          + length c.key_bytes
          + length (flatten l.value_entries)
    total = length-block_slices column l

    outcome :
        (length l.key_buckets ≡ length c.key_buckets)
        × (l.header.value_bytes_size ≡ 0 + length (flatten l.value_entries))
        × ((j : ℕ)
            → j < length c.key_buckets
            → Placed c.key_bytes
                (flatten l.value_entries)
                (get_or l.key_buckets j empty_key_bucket)
                (T (0 + j)))
    outcome =
        place_values-Placed entries c.selected c.key_bytes T c.key_buckets 0 0 []
          (λ j lt.
            subst
              (λ x.
                Slot entries c.key_bytes (get_or c.key_buckets j empty_key_bucket)
                  (get_or c.selected x (length entries)) (T x))
              (let z : j ≡ 0 + j = omega arith in z) (is.slots j (subst (λ x. j < x) is.width lt)))
          refl (omega (arith, room, total))

    width : length l.key_buckets ≡ length c.key_buckets
    width = outcome.0

    end : l.header.value_bytes_size ≡ length (flatten l.value_entries)
    end = omega (arith, outcome.1)

    placed :
        (i : ℕ)
        → i < length c.key_buckets
        → Placed c.key_bytes
            (flatten l.value_entries)
            (get_or l.key_buckets i empty_key_bucket)
            (T i)
    placed i lt =
        subst
          (λ x.
            Placed c.key_bytes (flatten l.value_entries) (get_or l.key_buckets i empty_key_bucket)
              (T x))
          (let z : 0 + i ≡ i = omega arith in z) (outcome.2 i lt)

layout_of-Fits :
    (column : List ℕ) (row_id : ℕ) (entries : List RowStructEntry) (sequence column_hash n : ℕ)
    {c : Chosen} {T : ℕ → Option RowStructEntry}
    → IsChosen row_id entries n c T
    → filled T n < n
    → n < u32
    → length column < u32
    → sequence < u64
    → row_id < u64
    → column_hash < u64
    → length (block_slices column (layout_of column row_id entries sequence column_hash n c))
      < 2 ^ 63
    → FitsRowBlockHeader (layout_of column row_id entries sequence column_hash n c).header
layout_of-Fits column row_id entries sequence column_hash n {c} {T} is spare small column_fits seq
      row hash room =
    let l = layout_of column row_id entries sequence column_hash n c in
    let ok_layout =
      layout_of-IsLayout column row_id entries sequence column_hash n is spare small column_fits
        room in
    let total = length-block_slices column l in
    record {
      magic_fits = omega arith;
      version_fits = omega arith;
      header_size_fits = omega arith;
      sequence_fits = omega (arith, seq);
      column_hash_fits = omega (arith, hash);
      row_id_fits = omega (arith, row);
      column_size_fits = omega arith;
      item_count_fits = omega (arith, is.count, spare, small);
      bucket_count_fits = omega arith;
      reserved32_fits = omega arith;
      key_bytes_size_fits = omega (arith, total, room);
      value_bytes_size_fits = omega (arith, total, room, ok_layout.is_values);
      block_size_fits = omega (arith, room, ok_layout.is_size);
    }

-- What is known of the layout that the code returns.
pub record Built (column : List ℕ) (row_id : ℕ) (entries : List RowStructEntry)
    (sequence column_hash : ℕ) (l : RowBlockLayout) : Type 0 where
  pub T : ℕ → Option RowStructEntry
  pub is_layout : length (block_slices column l) < 2 ^ 63 → IsLayout column row_id l T
  pub is_hash : l.header.column_hash ≡ column_hash
  pub is_count : filled T l.header.bucket_count ≡ l.header.item_count
  pub fits :
      sequence < u64
      → row_id < u64
      → column_hash < u64
      → length (block_slices column l) < 2 ^ 63
      → FitsRowBlockHeader l.header
  pub contents : Contents (by_key row_id) l.header.bucket_count T (λ k. last_of k entries none)

-- The code's path when no check fails and the loops end.
run_build :
    (load : LoadFactor) (column : List ℕ) (row_id : ℕ) (entries : List RowStructEntry)
    (sequence column_hash : ℕ) (wanted n : ℕ) (c : Chosen)
    → leb (length entries) (u32 - 1) ≡ true
    → add64 (load.quotient (length entries)) 1 ≡ wanted
    → round_up_power_of_two wanted ≡ ok n
    → leb n (u32 - 1) ≡ true
    → choose_all row_id n 0 entries (first_chosen entries n) ≡ ok c
    → build_row_block_layout load column row_id entries sequence column_hash
      ≡ ok (layout_of column row_id entries sequence column_hash n c)
unfolding build_row_block_layout
run_build load column row_id entries sequence column_hash wanted n c items sum round buckets run =
    rw (items, sum, round, buckets, run) refl

-- BuildRowBlockLayout returns such a layout.
pub builds :
    (load : LoadFactor) (column : List ℕ) (row_id : ℕ) (entries : List RowStructEntry)
    (sequence column_hash : ℕ)
    → FitsRow load column entries
    → (l : RowBlockLayout) × (build_row_block_layout load column row_id entries sequence column_hash
        ≡ ok l)
      × Built column row_id entries sequence column_hash l
builds load column row_id entries sequence column_hash fits =
    let items : leb (length entries) (u32 - 1) ≡ true =
      leb-true (length entries) (u32 - 1) (omega (arith, fits.covers, fits.small)) in
    let wanted = load.quotient (length entries) + 1 in
    let sum : add64 (load.quotient (length entries)) 1 ≡ wanted = omega (arith, fits.small) in
    let (n, round, up) = round_up_power_of_two-IsRoundUp wanted (omega (arith, fits.small)) in
    let small : n < u32 = omega (arith, up.least, fits.small) in
    let buckets : leb n (u32 - 1) ≡ true = leb-true n (u32 - 1) (omega (arith, small)) in
    let (c, T, run, is, has, few) =
      choose_all-IsChosen entries 0 small
        (λ j lt. ap (λ x. get_or entries x no_entry) (let z : 0 + j ≡ j = omega arith in z))
        (omega (arith, up.covers, fits.covers)) (first-IsChosen row_id entries n up.size)
        (omega (arith, filled-none (λ (_ : ℕ). none) n (λ i. refl))) (first-Contents row_id n) in
    let l = layout_of column row_id entries sequence column_hash n c in
    let spare : filled T n < n = omega (arith, few, up.covers, fits.covers) in
    (
      l,
      run_build load column row_id entries sequence column_hash wanted n c items sum round buckets
          run,
      record {
        T = T;
        is_layout =
            layout_of-IsLayout column row_id entries sequence column_hash n is spare small
              fits.column_fits;
        is_hash = refl;
        is_count =
            subst (λ x. filled T x ≡ c.item_count) (let z : n ≡ n % u32 = omega (arith, small) in z)
              is.count;
        fits =
            layout_of-Fits column row_id entries sequence column_hash n is spare small
              fits.column_fits;
        contents =
            subst (λ x. Contents (by_key row_id) x T (λ k. last_of k entries none))
              (let z : n ≡ n % u32 = omega (arith, small) in z) has;
      },
    )

-- For a column of less than 2 ^ 32 bytes and entries whose number, divided by the load factor, is
-- less than 2 ^ 31 and not less than the number, BuildRowBlockLayout returns a layout: RoundUpPowerOfTwo
-- comes to its end and the key table is never full.
pub build_row_block_layout-ok :
    (load : LoadFactor) (column : List ℕ) (row_id : ℕ) (entries : List RowStructEntry)
    (sequence column_hash : ℕ)
    → FitsRow load column entries
    → (l : RowBlockLayout) × (build_row_block_layout load column row_id entries sequence column_hash
        ≡ ok l)
build_row_block_layout-ok load column row_id entries sequence column_hash fits =
    let (l, run, built) = builds load column row_id entries sequence column_hash fits in (l, run)

pub ok_inj : {A : Type 0} {a b : A} → ok a ≡ ok b → a ≡ b
ok_inj h = cc

-- A row fits if its column has fewer than 2 ^ 32 bytes, and its entries divided by the load factor
-- give at least their number and less than 2 ^ 31. If the layout of a row that fits stands as a block
-- in a shard that can be read, FindValueInRowBlockAt finds under each key the value of the last
-- entry with this key, and reports NotFound if there is none.
pub find_value-build :
    (load : LoadFactor) (column : List ℕ) (row_id : ℕ) (entries : List RowStructEntry)
    (sequence column_hash : ℕ)
    → FitsRow load column entries
    → (l : RowBlockLayout)
    → build_row_block_layout load column row_id entries sequence column_hash ≡ ok l
    → (dev : Device) (rows : RowFiles) (at : BlockPlace) → CanReadShard dev rows at.shard_id
    → PieceAt (get_or rows.value_files at.shard_id []) at.block_offset (block_slices column l)
    → at.block_size ≡ l.header.block_size
    → (key : List ℕ)
    → find_value_in_row_block_at dev rows at l.header key ≡ value_of (last_of key entries none)
find_value-build load column row_id entries sequence column_hash fits l run dev rows at can block
      size key =
    let (l', run', built') = builds load column row_id entries sequence column_hash fits in
    let same : l' ≡ l = ok_inj (sym run' ∙ run) in
    let built : Built column row_id entries sequence column_hash l =
      subst (Built column row_id entries sequence column_hash) same built' in
    let is = built.is_layout (omega (arith, can.small, PieceAt-le block)) in
    find_value-Contents at can is block key built.contents (size ∙ is.is_size)
