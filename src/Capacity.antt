-- ===== src/Capacity.antt =====
-- Table sizes of src/lumodb/database.cpp: `RoundUpPowerOfTwo`, and the tests on `maxLoadFactor`,
-- which is a `double`: what the code computes with it is a parameter.
pub mod RoundUp
pub mod Growth
use lumodb.Base.{ℕ, zero, suc, ◌+◌, ◌*◌, ◌^◌, ◌≤◌, ◌<◌, ◌≡◌, Bool, true, false, ltb, if◌then◌else◌}
use lumodb.Base.Words.{mul64}
use lumodb.Status.{Result, ok, fault, endless_loop}

abbrev pub minimum_bucket_count : ℕ
minimum_bucket_count = 16

-- `while (result < value) { result <<= 1; }` with fuel.
pub round_up_from : ℕ → ℕ → ℕ → Result ℕ
round_up_from zero result value = fault endless_loop
round_up_from (suc fuel) result value =
    let rest = round_up_from fuel (mul64 result 2) value in
    if ltb result value then rest else ok result

-- From 16 the sixtieth shift gives 0, and further ones keep it.
unfoldable pub round_up_power_of_two : ℕ → Result ℕ
unfolding round_up_from
round_up_power_of_two value = round_up_from 61 minimum_bucket_count value

-- `maxLoadFactor` and the expressions in it.
pub record LoadFactor : Type 0 where
  -- `!(maxLoadFactor <= 0.0 || maxLoadFactor >= 0.95)`
  pub in_range : Bool
  -- `static_cast<double>(items) / static_cast<double>(buckets) > maxLoadFactor`
  pub exceeds : ℕ → ℕ → Bool
  -- `static_cast<uint64_t>(static_cast<double>(items) / maxLoadFactor)`
  pub quotient : ℕ → ℕ

-- What IEEE division gives for a factor between 2 ^ -slack and 1: a table as full as it is large
-- is over the bound, and one with 2 ^ slack buckets for each item is not.
pub record IsLoadFactor (load : LoadFactor) : Type 0 where
  pub slack : ℕ
  pub full_exceeds :
      (items buckets : ℕ) → 0 < buckets → buckets ≤ items → load.exceeds items buckets ≡ true
  pub sparse_fits :
      (items buckets : ℕ)
      → 0 < buckets
      → items * 2 ^ slack ≤ buckets
      → load.exceeds items buckets ≡ false

-- `while (double(items) / double(bucketCount) > maxLoadFactor) { bucketCount *= 2; }` with fuel.
pub grow_from : ℕ → LoadFactor → ℕ → ℕ → Result ℕ
grow_from zero load items bucket_count = fault endless_loop
grow_from (suc fuel) load items bucket_count =
    let rest = grow_from fuel load items (mul64 bucket_count 2) in
    if load.exceeds items bucket_count then rest else ok bucket_count

-- After 64 doublings `bucketCount` is 0 and stays 0.
unfoldable pub grow_buckets : LoadFactor → ℕ → ℕ → Result ℕ
unfolding grow_from
grow_buckets load items bucket_count = grow_from 66 load items bucket_count
