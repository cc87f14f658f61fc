-- ===== src/Writer/Resize.antt =====
-- `ResizeIndex` and `EnsureCapacityForInsert`: the larger index holds the same objects.
use lumodb.Base.{
  ℕ, ◌+◌, ◌-◌, ◌*◌, ◌/◌, ◌^◌, ◌≤◌, ◌<◌, ◌≡◌, ◌≢◌, inl, inr, refl, ap, subst, ◌∙◌, false, none, some,
  List, [], ◌∷◌, arith, ◌==◌, ==-refl, ==-eq, ==-ne, length, length-replicate, set,
  get_or-replicate, Bool-cases,
}
use lumodb.Base.Bits.{pow_pos}
use lumodb.Base.Words.{add64}
use lumodb.Status.{ok}
use lumodb.Capacity.{IsLoadFactor, grow_buckets}
use lumodb.Capacity.RoundUp.{round_up-IsSize}
use lumodb.Capacity.Growth.{grow_buckets-IsGrown, IsGrown, fits-lt}
use lumodb.File.{Device}
use lumodb.Probe.Scan.{IsSize, IsSize-pos}
use lumodb.Probe.Table.{home, write, update, land}
use lumodb.Probe.Writes.{Landed-eq, write-Contents, none-ne-some}
use lumodb.Probe.Count.{filled, filled-none, filled-zero, has_empty}
use lumodb.Objects.{IndexBucket, empty_bucket, Index, Store}
use lumodb.Objects.Records.{Entry, objects}
use lumodb.Objects.Lookup.{Slot, bucket_at, Map}
use lumodb.Writer.{
  index_file_size, new_index, create_empty_index, full_buckets, place_all, resize_index,
  ensure_capacity_for_insert,
}
use lumodb.Writer.Place.{place_existing_bucket-Landed, put_bucket-IsIndex}
use lumodb.Writer.Publish.{Indexes, Extends, update_all, AllNew}
use lumodb.Writer.Gather.{
  gather, AllSlots, full_buckets-AllSlots, length-gather, gather-AllNew, gather-map,
}

pos_le : (a p m : ℕ) → 0 < p → a * p ≤ m → a ≤ m
pos_le a p m h le = grind arith

-- The kernel grants an index file of every size.
pub record Grants (dev : Device) : Type 0 where
  pub truncates : (size : ℕ) → dev.truncate_fails size ≡ false
  pub maps : (size : ℕ) → dev.map_fails size ≡ false

-- The map of no objects.
abbrev pub no_map : Map
no_map = λ k. none

-- `CreateEmptyIndex` makes an index of no objects, for a table size whose file size fits 64 bits.
pub create_empty_index-new :
    {dev : Device} {n : ℕ}
    → Grants dev
    → IsSize n
    → 16 ≤ n
    → n ≤ 2 ^ 59
    → create_empty_index dev n ≡ ok (new_index n)
unfolding create_empty_index
create_empty_index-new {dev} {n} grants v low high = rw (
  round_up-IsSize v low,
  grants.truncates (index_file_size n),
  grants.maps (index_file_size n),
  ==-ne (index_file_size n) 0 (omega arith),
)

pub new_index-Indexes :
    {n : ℕ} (file : List ℕ) (sequence : ℕ)
    → IsSize n
    → n ≤ 2 ^ 59
    → Indexes file no_map (record (new_index n) { next_sequence = sequence })
new_index-Indexes {n} file sequence v high = record {
  T = λ i. none;
  is_index = record {
    size = v;
    width = length-replicate ((index_file_size n - 64) / 16) empty_bucket ∙ room;
    slots =
        λ i lt. ap (λ b. b.hash) (get_or-replicate ((index_file_size n - 64) / 16) i empty_bucket);
    table = record {
      reach = λ j e lt full. absurd (none-ne-some full);
      unique = λ i j e e' lt lt' full full' same. absurd (none-ne-some full);
    };
    count = filled-none {E = Entry} (λ i. none) n (λ i. refl);
  };
  contents = record {
    has = λ k e h. absurd (none-ne-some h);
    only = λ k h j e lt full. absurd (none-ne-some full);
  };
}
  where
    room : (index_file_size n - 64) / 16 ≡ n
    room = omega arith

-- The buckets are placed one after the other, in an index that has room for all of them.
place_all-Extends :
    (file : List ℕ) (g : Map) (ix : Index) (bs : List IndexBucket) (es : List Entry)
    → Indexes file g ix
    → AllSlots file bs es
    → AllNew g es
    → ix.item_count + length es < ix.bucket_count
    → (ix' : Index) × (place_all ix bs ≡ (ix', ok tt))
      × Extends file (update_all g es) ix (length es) ix'
unfolding place_all
place_all-Extends file g ix [] [] is slots new spare =
    (ix, refl, record { indexes = is; same_size = refl; items = omega arith })
place_all-Extends file g ix [] (e ∷ es) is slots new spare = absurd slots
place_all-Extends file g ix (b ∷ bs) [] is slots new spare = absurd slots
place_all-Extends file g ix (b ∷ bs) (e ∷ es) is (slot, slots) (new, news) spare =
    let (d, l) =
      land objects ix.bucket_count is.T (objects.key e) (IsSize-pos is.is_index.size)
        (has_empty is.T ix.bucket_count (omega (arith, is.is_index.count, spare))) in
    let empty = Landed-eq objects ix.bucket_count is.is_index.table is.contents l ∙ new in
    let spot = home objects ix.bucket_count (objects.key e) d in
    let placed = put_bucket-IsIndex is.is_index e l b slot in
    let ix₁ : Index = record ix {
      buckets = set ix.buckets spot b;
      item_count = add64 ix.item_count 1;
    } in
    let (ix₂, run, x) =
      place_all-Extends file (update objects 0 g e) ix₁ bs es
        (record {
          T = write objects ix.bucket_count is.T spot e;
          is_index = rw empty at placed;
          contents = write-Contents objects ix.bucket_count is.is_index.table {e = e} l is.contents;
        })
        slots news (omega (arith, spare)) in
    (
      ix₂,
      rw (place_existing_bucket-Landed is.is_index e l b slot.0 empty, place_all) run,
      record { indexes = x.indexes; same_size = x.same_size; items = omega (arith, x.items) },
    )

-- `ResizeIndex` to a table size from 16 to 2 ^ 59 that is more than the items succeeds, if the
-- kernel grants the file, and the new index has that size, leads to the same objects and counts no
-- more items.
pub resize_index-Indexes :
    {dev : Device} (s : Store) {file : List ℕ} {f : Map} {ix : Index} {n : ℕ}
    → Grants dev
    → Indexes file f ix
    → IsSize n
    → 16 ≤ n
    → n ≤ 2 ^ 59
    → ix.item_count < n
    → (ix' : Index) × (resize_index dev s ix n ≡ (record s { index = some ix' }, ok tt))
      × Indexes file f ix'
      × (ix'.bucket_count ≡ n)
      × (ix'.item_count ≤ ix.item_count)
unfolding resize_index
resize_index-Indexes s {file} {f} {ix} {n} grants is v low high spare =
    let es = gather is.T 0 ix.bucket_count in
    let count : length es ≡ ix.item_count =
      let whole : 0 + ix.bucket_count ≡ ix.bucket_count = omega arith in
      omega (
        arith,
        length-gather is.T ix.bucket_count 0,
        filled-zero is.T,
        ap (filled is.T) whole,
        is.is_index.count,
      ) in
    let slots = full_buckets-AllSlots file is.T ix.buckets 0 (λ j lt.
      let whole : j ≡ 0 + j = omega arith in
      subst (λ x. Slot file (bucket_at ix j) (is.T x)) whole
        (is.is_index.slots j (rw is.is_index.width at lt))) in
    let (ix', run, x) =
      place_all-Extends file no_map (record (new_index n) { next_sequence = ix.next_sequence })
        (full_buckets ix.buckets) es (new_index-Indexes file ix.next_sequence v high)
        (rw is.is_index.width at slots) (gather-AllNew is.is_index.table)
        (omega (arith, count, spare)) in
    (
      ix',
      rw (create_empty_index-new grants v low high, resize_index, run),
      rw (gather-map is.is_index.table is.contents) at x.indexes,
      x.same_size,
      omega (arith, x.items, count),
    )

-- What `EnsureCapacityForInsert` leaves: the same objects, in an index that is not over the load
-- factor with the items to come.
pub record Roomy (file : List ℕ) (f : Map) (ix : Index) (more : ℕ) (ix' : Index) : Type 0 where
  pub indexes : Indexes file f ix'
  pub spare : ix'.item_count + more < ix'.bucket_count
  pub covers : ix.bucket_count ≤ ix'.bucket_count
  pub items : ix'.item_count ≤ ix.item_count

-- `EnsureCapacityForInsert` succeeds on a table of at least 16 buckets, if the kernel grants the
-- file and the items with the batch ask for at most 2 ^ 58 buckets of slack: the index after it
-- leads to the same objects, is no smaller, and has more buckets than items and batch together.
pub ensure_capacity_for_insert-Roomy :
    {dev : Device} (s : Store) {file : List ℕ} {f : Map} {ix : Index} (more : ℕ)
    → Grants dev
    → (law : IsLoadFactor s.load) → s.index ≡ some ix
    → Indexes file f ix
    → 16 ≤ ix.bucket_count
    → (ix.item_count + more) * 2 ^ law.slack ≤ 2 ^ 58
    → (ix' : Index) × (ensure_capacity_for_insert dev s ix more
        ≡ (record s { index = some ix' }, ok tt))
      × Roomy file f ix more ix'
unfolding ensure_capacity_for_insert
ensure_capacity_for_insert-Roomy {dev} s {file} {f} {ix} more grants law mapped is low bound =
    let grown =
      grow_buckets-IsGrown law (ix.item_count + more) is.is_index.size (omega (arith, bound)) in
    enough grown.0 grown.1 grown.2
  where
    small : ix.item_count + more ≤ 2 ^ 58
    small = pos_le (ix.item_count + more) (2 ^ law.slack) (2 ^ 58) (pow_pos law.slack) bound

    enough :
        (m : ℕ)
        → grow_buckets s.load (ix.item_count + more) ix.bucket_count ≡ ok m
        → IsGrown law (ix.item_count + more) ix.bucket_count m
        → (ix' : Index) × (ensure_capacity_for_insert dev s ix more
            ≡ (record s { index = some ix' }, ok tt))
          × Roomy file f ix more ix'
    enough m run g = elim (Bool-cases (m == ix.bucket_count)) [
      | inl same ↦ (
        ix,
        rw (no_wrap, run, ensure_capacity_for_insert, same)
            (ap (λ o. (record s { index = o }, ok tt)) mapped),
        record {
          indexes = is;
          spare =
              let e = ==-eq m ix.bucket_count same in
              omega (arith, fits-lt law (ix.item_count + more) (IsSize-pos g.size) g.fits);
          covers = omega arith;
          items = omega arith;
        },
      )
      | inr other ↦
          let more_room = fits-lt law (ix.item_count + more) (IsSize-pos g.size) g.fits in
          let differs : m ≢ ix.bucket_count = λ e. cc (other, ==-refl m, ap (λ x. m == x) e) in
          let (ix', done, is', size, items) =
            resize_index-Indexes s grants is g.size (omega (arith, g.covers))
              (omega (arith, g.tight, bound)) (omega (arith, more_room)) in
          (
            ix',
            rw (no_wrap, run, ensure_capacity_for_insert, other) done,
            record {
              indexes = is';
              spare = omega (arith, more_room);
              covers = omega (arith, g.covers);
              items = items;
            },
          )
    ]
      where
        no_wrap : add64 ix.item_count more ≡ ix.item_count + more
        no_wrap = omega (arith, small)
