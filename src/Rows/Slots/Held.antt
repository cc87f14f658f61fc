-- ===== src/Rows/Slots/Held.antt =====
-- `rowPendingInsertCount_` is the number of threads that hold a slot.
use lumodb.Base.{ℕ, zero, suc, ◌+◌, ◌≤◌, ◌<◌, ◌≡◌, refl, sym, ap, ◌∙◌, arith, ℕ_discrete}
use lumodb.Base.Words.{u64}
use lumodb.Capacity.{LoadFactor}
use lumodb.Rows.Protocol.{change}
use lumodb.Rows.Protocol.Later.{change_self, change_ne}
use lumodb.Rows.Slots.{
  Counters, Place, begun, counted, checked, reserved, inserted, refused, released, Turn, load_items,
  load_pending, refuse, retry, reserve, count_row, release, give_up, Threads, take, Runs, first,
  next_turn,
}

abbrev pub holds : Place → ℕ
holds begun = 0
holds (counted i) = 0
holds (checked i p) = 0
holds reserved = 1
holds inserted = 1
holds refused = 0
holds released = 0

-- A number for each of the first `m` threads, by where it stands, all added up.
abbrev pub sum_of : (Place → ℕ) → (ℕ → Place) → ℕ → ℕ
sum_of weight places zero = 0
sum_of weight places (suc m) = sum_of weight places m + weight (places m)

-- The slots that the first `m` threads hold.
abbrev pub held : (ℕ → Place) → ℕ → ℕ
held places m = sum_of holds places m

sum_of-above :
    (weight : Place → ℕ) (places : ℕ → Place) (t m : ℕ) (p : Place)
    → m ≤ t
    → sum_of weight (change places t p) m ≡ sum_of weight places m
sum_of-above weight places t zero p h = refl
sum_of-above weight places t (suc m) p h =
    let here : weight (change places t p m) ≡ weight (places m) =
      ap weight (change_ne places t m p (λ e. absurd (omega (arith, e, h)))) in
    omega (arith, here, sum_of-above weight places t m p (omega arith))

-- A thread that moves changes the sum by the difference of its two numbers.
pub sum_of-change :
    (weight : Place → ℕ) (places : ℕ → Place) (t m : ℕ) (p : Place)
    → t < m
    → sum_of weight (change places t p) m + weight (places t) ≡ sum_of weight places m + weight p
sum_of-change weight places t zero p lt = absurd (omega arith)
sum_of-change weight places t (suc m) p lt = elim (ℕ_discrete m t) [
  | yes e ↦
      let here : weight (change places t p m) ≡ weight p =
        ap (λ x. weight (change places t p x)) e ∙ ap weight (change_self places t p) in
      let old : weight (places m) ≡ weight (places t) = ap (λ x. weight (places x)) e in
      omega (arith, here, old, sum_of-above weight places t m p (omega arith))
  | no ne ↦
      let here : weight (change places t p m) ≡ weight (places m) =
        ap weight (change_ne places t m p ne) in
      omega (arith, here, sum_of-change weight places t m p (omega arith))
]

held-begun : (m : ℕ) → held (λ t. begun) m ≡ 0
held-begun zero = refl
held-begun (suc m) = omega (arith, held-begun m)

-- A turn changes the counter as it changes the slots that its thread holds.
Turn-holds :
    {load : LoadFactor} {buckets : ℕ} {c c' : Counters} {q p : Place}
    → Turn load buckets c q c' p
    → holds q ≤ c.pending
    → c.pending + holds p < u64 + holds q
    → c.pending < u64
    → c'.pending + holds q ≡ c.pending + holds p
Turn-holds load_items h small old = refl
Turn-holds load_pending h small old = refl
Turn-holds (refuse over) h small old = refl
Turn-holds (retry under) h small old = refl
Turn-holds (reserve under same) h small old = omega (arith, same, small)
Turn-holds count_row h small old = refl
Turn-holds release h small old = omega (arith, h, old)
Turn-holds give_up h small old = omega (arith, h, old)

holds_most : (p : Place) → holds p ≤ 1
holds_most begun = omega arith
holds_most (counted i) = omega arith
holds_most (checked i p) = omega arith
holds_most reserved = omega arith
holds_most inserted = omega arith
holds_most refused = omega arith
holds_most released = omega arith

held-le : (places : ℕ → Place) (m : ℕ) → held places m ≤ m
held-le places zero = omega arith
held-le places (suc m) = omega (arith, held-le places m, holds_most (places m))

holds-le : (places : ℕ → Place) (t m : ℕ) → t < m → holds (places t) ≤ held places m
holds-le places t zero lt = absurd (omega arith)
holds-le places t (suc m) lt = elim (ℕ_discrete m t) [
  | yes e ↦ omega (arith, ap (λ x. holds (places x)) e)
  | no ne ↦ omega (arith, holds-le places t m (omega arith))
]

-- In every state that fewer than 2 ^ 64 threads reach, rowPendingInsertCount_ is the number of the
-- threads that hold a slot, so a release never takes it below 0.
pub Runs-held :
    {load : LoadFactor} {buckets m rows : ℕ} {s : Threads}
    → m < u64
    → Runs load buckets m rows s
    → s.counters.pending ≡ held s.places m
Runs-held {m = m} few first = sym (held-begun m)
Runs-held {m = m} few (next_turn {s} run (take t {c} {p} lt turn)) =
    let before = Runs-held few run in
    let enough : holds (s.places t) ≤ s.counters.pending =
      omega (arith, before, holds-le s.places t m lt) in
    let changed = sum_of-change holds s.places t m p lt in
    let most = held-le (change s.places t p) m in
    let old : s.counters.pending < u64 = omega (arith, before, held-le s.places m, few) in
    let small : s.counters.pending + holds p < u64 + holds (s.places t) =
      omega (arith, before, changed, most, few) in
    omega (arith, before, Turn-holds turn enough small old, changed)
