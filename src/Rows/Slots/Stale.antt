-- ===== src/Rows/Slots/Stale.antt =====
-- `ReserveRowIndexInsertSlot` loads the two counters one after the other: a row that is counted and
-- released between the loads is in neither of the two values.
use lumodb.Base.{
  ℕ, zero, suc, ◌+◌, ◌<◌, ◌≡◌, ◌≢◌, true, false, refl, sym, ap, ap₂, subst, ◌∙◌, arith,
}
use lumodb.Base.Words.{u64, add64, sub64}
use lumodb.Capacity.{LoadFactor}
use lumodb.Rows.Protocol.{change}
use lumodb.Rows.Protocol.Later.{change_self, change_ne}
use lumodb.Rows.Slots.{
  Counters, Place, begun, counted, checked, reserved, inserted, refused, released, Turn,
  load_pending, reserve, count_row, release, Threads, Runs,
}
use lumodb.Rows.Slots.Held.{holds, sum_of, sum_of-change, held, Runs-held}

-- The states after some turns of the thread `t`, while the others stand still.
pub data Turns (load : LoadFactor) (buckets t : ℕ) : Threads → Threads → Type 0 where
  stay : {s : Threads} → Turns load buckets t s s
  go :
      {s s' : Threads} {c : Counters} {p : Place}
      → Turn load buckets s.counters (s.places t) c p
      → Turns load buckets t (record { counters = c; places = change s.places t p }) s'
      → Turns load buckets t s s'

-- A turn from where the thread is known to stand.
go_at :
    {load : LoadFactor} {buckets : ℕ} {s s' : Threads} {t : ℕ} (q : Place) {c : Counters}
    {p : Place}
    → s.places t ≡ q
    → Turn load buckets s.counters q c p
    → Turns load buckets t (record { counters = c; places = change s.places t p }) s'
    → Turns load buckets t s s'
go_at {load} {buckets} {s} q {c} {p} at turn =
    go (subst (λ x. Turn load buckets s.counters x c p) (sym at) turn)

-- A slot is reserved for a row that `itemCount` does not have yet.
abbrev pub awaits : Place → ℕ
awaits begun = 0
awaits (counted i) = 0
awaits (checked i p) = 0
awaits reserved = 1
awaits inserted = 0
awaits refused = 0
awaits released = 0

-- The slots of the first `m` threads that are reserved for rows still to be counted.
abbrev pub awaited : (ℕ → Place) → ℕ → ℕ
awaited places m = sum_of awaits places m

awaits-holds : (p : Place) → p ≢ inserted → awaits p ≡ holds p
awaits-holds begun ne = refl
awaits-holds (counted i) ne = refl
awaits-holds (checked i p) ne = refl
awaits-holds reserved ne = refl
awaits-holds inserted ne = absurd (ne refl)
awaits-holds refused ne = refl
awaits-holds released ne = refl

awaited-held :
    (places : ℕ → Place) (m : ℕ)
    → ((v : ℕ) → v < m → places v ≢ inserted)
    → awaited places m ≡ held places m
awaited-held places zero none_between = refl
awaited-held places (suc m) none_between =
    ap₂ (λ x y. x + y) (awaited-held places m (λ v lt. none_between v (omega arith)))
      (awaits-holds (places m) (none_between m (omega arith)))

-- The thread `u` has counted its row and released its slot.
abbrev after_u : Threads → ℕ → Threads
after_u s u = record {
  counters = record { items = add64 s.counters.items 1; pending = sub64 s.counters.pending 1 };
  places = change (change s.places u inserted) u released;
}

-- The thread `t` has loaded the second counter, and then reserved a slot.
abbrev loaded_t : Threads → ℕ → ℕ → ℕ → ℕ → Place
loaded_t s items t u = change (after_u s u).places t (checked items (after_u s u).counters.pending)

abbrev after_t : Threads → ℕ → ℕ → ℕ → Threads
after_t s items t u = record {
  counters = record {
    items = (after_u s u).counters.items;
    pending = add64 (after_u s u).counters.pending 1;
  };
  places = change (loaded_t s items t u) t reserved;
}

module _ (s : Threads) (items t u : ℕ) (ne : t ≢ u) (at_t : s.places t ≡ counted items)
    (at_u : s.places u ≡ reserved) where
  Turns-after_u : {load : LoadFactor} {buckets : ℕ} → Turns load buckets u s (after_u s u)
  Turns-after_u =
      go_at reserved at_u count_row (go_at inserted (change_self s.places u inserted) release stay)

  still : (after_u s u).places t ≡ counted items
  still =
      change_ne (change s.places u inserted) u t released ne
      ∙ change_ne s.places u t inserted ne
      ∙ at_t

  checks : loaded_t s items t u t ≡ checked items (after_u s u).counters.pending
  checks = change_self (after_u s u).places t (checked items (after_u s u).counters.pending)

  Turns-after_t :
      {load : LoadFactor} {buckets : ℕ}
      → load.exceeds (add64 (add64 items (sub64 s.counters.pending 1)) 1) buckets ≡ false
      → Turns load buckets t (after_u s u) (after_t s items t u)
  Turns-after_t under =
      go_at (counted items) still load_pending
        (go_at (checked items (after_u s u).counters.pending) checks (reserve under refl) stay)

  -- One slot that waits for its row has gone, and one has come.
  awaited-after :
      (m : ℕ) → t < m → u < m → awaited (after_t s items t u).places m ≡ awaited s.places m
  awaited-after m lt lu =
      let counts = sum_of-change awaits s.places u m inserted lu in
      let releases = sum_of-change awaits (change s.places u inserted) u m released lu in
      let loads =
        sum_of-change awaits (after_u s u).places t m (checked items (after_u s u).counters.pending)
          lt in
      let reserves = sum_of-change awaits (loaded_t s items t u) t m reserved lt in
      omega (
        arith,
        counts,
        releases,
        loads,
        reserves,
        ap awaits at_u,
        ap awaits (change_self s.places u inserted),
        ap awaits still,
        ap awaits checks,
      )

-- A thread has loaded itemCount, another one holds a slot and is about to count its row, and no
-- thread stands between the counting of its row and the release of its slot. If one row more than
-- the two counters say would be too many, but not one row more than they say without that slot,
-- then from every such state that fewer than 2 ^ 64 threads reach the second thread can go on by its
-- own turns until it has released its slot, and then the first one by its own turns until it has
-- reserved one, and the rows together with the slots that are reserved for rows not yet counted are
-- then more than the load factor allows.
pub Runs-stale :
    {load : LoadFactor} {buckets m rows : ℕ} {s : Threads}
    → m < u64
    → Runs load buckets m rows s
    → (t u pending : ℕ) → t ≢ u
    → t < m
    → u < m
    → s.places t ≡ counted s.counters.items
    → s.places u ≡ reserved
    → ((v : ℕ) → v < m → s.places v ≢ inserted)
    → s.counters.pending ≡ pending + 1
    → s.counters.items + pending + 2 < u64
    → load.exceeds (s.counters.items + pending + 1) buckets ≡ false
    → load.exceeds (s.counters.items + pending + 2) buckets ≡ true
    → (s1 : Threads) × (s2 : Threads) × Turns load buckets u s s1
      × (s1.places u ≡ released)
      × Turns load buckets t s1 s2
      × (s2.places t ≡ reserved)
      × (load.exceeds (s2.counters.items + awaited s2.places m) buckets ≡ true)
Runs-stale {load} {buckets} {m} {s = s} few run t u pending ne lt lu at_t at_u none_between waits
      small under over =
    let items = s.counters.items in
    let left : sub64 s.counters.pending 1 ≡ pending = omega (arith, waits, small) in
    let sum : add64 (add64 items (sub64 s.counters.pending 1)) 1 ≡ items + pending + 1 =
      omega (arith, small, left) in
    let total : add64 items 1 + awaited (after_t s items t u).places m ≡ items + pending + 2 =
      omega (
        arith,
        small,
        waits,
        awaited-after s items t u ne at_t at_u m lt lu,
        awaited-held s.places m none_between,
        Runs-held few run,
      ) in
    (
      after_u s u,
      after_t s items t u,
      Turns-after_u s items t u ne at_t at_u,
      change_self (change s.places u inserted) u released,
      Turns-after_t s items t u ne at_t at_u (ap (λ x. load.exceeds x buckets) sum ∙ under),
      change_self (loaded_t s items t u) t reserved,
      ap (λ x. load.exceeds x buckets) total ∙ over,
    )
