-- ===== src/Tests/Parts.antt =====
-- The hashes, sizes, headers and index operations at small inputs.
use lumodb.Base.{ℕ, ◌+◌, ◌^◌, ◌<◌, ◌≤◌, ◌≡◌, refl, some, arith}
use lumodb.Status.{ok, fault, endless_loop}
use lumodb.Base.Words.{u64}
use lumodb.Hash.{object_index_hash}
use lumodb.Hash.Bounds.{object_index_hash_bounds}
use lumodb.Capacity.{round_up_from, round_up_power_of_two, grow_buckets, minimum_bucket_count}
use lumodb.Capacity.RoundUp.{IsRoundUp, round_up_power_of_two-IsRoundUp, round_up_endless}
use lumodb.Capacity.Growth.{IsGrown, grow_buckets-IsGrown}
use lumodb.Objects.{Index}
use lumodb.Writer.{new_index, resize_index, ensure_capacity_for_insert}
use lumodb.Writer.Publish.{Indexes}
use lumodb.Writer.Resize.{no_map, resize_index-Indexes, Roomy, ensure_capacity_for_insert-Roomy}
use lumodb.Tests.Fixture.{
  device, device-Works, header_bytes, empty_store, sixteen, start, four_fifths,
  four_fifths-IsLoadFactor,
}

round_up_power_of_two-IsRoundUp_example :
    (n : ℕ) × (round_up_power_of_two 100 ≡ ok n) × IsRoundUp 100 n
round_up_power_of_two-IsRoundUp_example = round_up_power_of_two-IsRoundUp 100 (omega arith)

round_up_endless_example :
    (round_up_power_of_two (2 ^ 63 + 1) ≡ fault endless_loop)
    × ((rounds : ℕ) → round_up_from rounds minimum_bucket_count (2 ^ 63 + 1) ≡ fault endless_loop)
round_up_endless_example = round_up_endless (2 ^ 63 + 1) (omega arith)

grow_buckets-IsGrown_example :
    (m : ℕ) × (grow_buckets four_fifths 100 16 ≡ ok m) × IsGrown four_fifths-IsLoadFactor 100 16 m
grow_buckets-IsGrown_example =
    grow_buckets-IsGrown four_fifths-IsLoadFactor 100 sixteen (omega arith)

resize_index-Indexes_example :
    (ix' : Index) × (resize_index device empty_store (new_index 16) 16
      ≡ (record empty_store { index = some ix' }, ok tt))
    × Indexes header_bytes no_map ix'
    × (ix'.bucket_count ≡ 16)
    × (ix'.item_count ≤ 0)
resize_index-Indexes_example =
    resize_index-Indexes empty_store device-Works.grants start sixteen (omega arith) (omega arith)
      (omega arith)

ensure_capacity_for_insert-Roomy_example :
    (ix' : Index) × (ensure_capacity_for_insert device empty_store (new_index 16) 100
      ≡ (record empty_store { index = some ix' }, ok tt))
    × Roomy header_bytes no_map (new_index 16) 100 ix'
ensure_capacity_for_insert-Roomy_example =
    ensure_capacity_for_insert-Roomy empty_store 100 device-Works.grants four_fifths-IsLoadFactor
      refl start (omega arith) (omega arith)

object_index_hash_bounds_example : (0 < object_index_hash 5 7) × (object_index_hash 5 7 < u64)
object_index_hash_bounds_example = object_index_hash_bounds 5 7
