-- ===== src/Tests/Counting.antt =====
-- Two threads that insert into a table of 16 buckets with 11 rows; a load of 0.8 allows 12.
use lumodb.Base.{ℕ, zero, suc, ◌+◌, ◌<◌, ◌≡◌, ◌≢◌, true, refl, arith}
use lumodb.Rows.Slots.{
  Threads, take, Runs, first, next_turn, load_items, load_pending, reserve, reserved, inserted,
  released,
}
use lumodb.Rows.Slots.Held.{held, Runs-held}
use lumodb.Rows.Slots.Stale.{Turns, awaited, Runs-stale}
use lumodb.Tests.Fixture.{four_fifths}

-- The thread 1 holds a slot, and the thread 0 has loaded the number of rows.
abbrev two_inserting : (s : Threads) × Runs four_fifths 16 2 11 s
two_inserting = (
  _,
  next_turn
      (next_turn
        (next_turn (next_turn first (take 1 (omega arith) load_items))
          (take 1 (omega arith) load_pending))
        (take 1 (omega arith) (reserve refl refl)))
      (take 0 (omega arith) load_items),
)

Runs-held_example : two_inserting.0.counters.pending ≡ held two_inserting.0.places 2
Runs-held_example = Runs-held (omega arith) two_inserting.1

-- No thread stands between the counting of its row and the release of its slot.
none_inserted : (v : ℕ) → v < 2 → two_inserting.0.places v ≢ inserted
none_inserted zero lt = λ e. cc e
none_inserted (suc zero) lt = λ e. cc e
none_inserted (suc (suc v)) lt = absurd (omega arith)

Runs-stale_example :
    (s1 : Threads) × (s2 : Threads) × Turns four_fifths 16 1 two_inserting.0 s1
    × (s1.places 1 ≡ released)
    × Turns four_fifths 16 0 s1 s2
    × (s2.places 0 ≡ reserved)
    × (four_fifths.exceeds (s2.counters.items + awaited s2.places 2) 16 ≡ true)
Runs-stale_example =
    Runs-stale (omega arith) two_inserting.1 0 1 0 (omega arith) (omega arith) (omega arith) refl
      refl none_inserted refl (omega arith) refl refl
