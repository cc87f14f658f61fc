-- ===== src/Rows/Slots.antt =====
-- The reservation of insert slots, src/lumodb/database.cpp: `ReserveRowIndexInsertSlot`,
-- `IncrementRowItemCount` and `ReleaseRowIndexInsertSlot` as the threads in `WriteRowStructs` run
-- them, one atomic access at a time.
pub mod Held
pub mod Stale
use lumodb.Base.{ℕ, zero, suc, ◌<◌, ◌≡◌, Bool, true, false}
use lumodb.Base.Words.{add64, sub64}
use lumodb.Capacity.{LoadFactor}
use lumodb.Rows.Protocol.{change}

-- `itemCount` of the row index header, and `rowPendingInsertCount_`.
pub record Counters : Type 0 where
  pub items : ℕ
  pub pending : ℕ

-- Where a thread stands, with its local variables.
pub data Place : Type 0 where
  -- before the loads
  begun : Place
  -- after the load of `itemCount`
  counted : ℕ → Place
  -- after the load of `rowPendingInsertCount_`
  checked : ℕ → ℕ → Place
  -- the slot is reserved; and the row is inserted and counted
  reserved : Place
  inserted : Place
  -- the results
  refused : Place
  released : Place

pub data Turn (load : LoadFactor) (buckets : ℕ) (c : Counters)
    : Place → Counters → Place → Type 0 where
  load_items : Turn load buckets c begun c (counted c.items)
  load_pending : {i : ℕ} → Turn load buckets c (counted i) c (checked i c.pending)
  refuse :
      {i p : ℕ}
      → load.exceeds (add64 (add64 i p) 1) buckets ≡ true
      → Turn load buckets c (checked i p) c refused
  -- the weak compare-exchange, which can also fail without a reason
  retry :
      {i p : ℕ}
      → load.exceeds (add64 (add64 i p) 1) buckets ≡ false
      → Turn load buckets c (checked i p) c begun
  reserve :
      {i p : ℕ}
      → load.exceeds (add64 (add64 i p) 1) buckets ≡ false
      → c.pending ≡ p
      → Turn load buckets c (checked i p) (record c { pending = add64 p 1 }) reserved
  -- `IncrementRowItemCount`, if the row was not there
  count_row : Turn load buckets c reserved (record c { items = add64 c.items 1 }) inserted
  -- `ReleaseRowIndexInsertSlot`, after that, or when the row was there or the block was not written
  release : Turn load buckets c inserted (record c { pending = sub64 c.pending 1 }) released
  give_up : Turn load buckets c reserved (record c { pending = sub64 c.pending 1 }) released

pub record Threads : Type 0 where
  pub counters : Counters
  pub places : ℕ → Place

-- One turn of one of `m` threads.
pub data Take (load : LoadFactor) (buckets m : ℕ) (s : Threads) : Threads → Type 0 where
  take :
      (t : ℕ) {c : Counters} {p : Place}
      → t < m
      → Turn load buckets s.counters (s.places t) c p
      → Take load buckets m s (record { counters = c; places = change s.places t p })

-- An opened index with some rows, before any thread has begun.
abbrev pub opened : ℕ → Threads
opened rows = record { counters = record { items = rows; pending = 0 }; places = λ t. begun }

pub data Runs (load : LoadFactor) (buckets m rows : ℕ) : Threads → Type 0 where
  first : Runs load buckets m rows (opened rows)
  next_turn :
      {s s' : Threads}
      → Runs load buckets m rows s
      → Take load buckets m s s'
      → Runs load buckets m rows s'
