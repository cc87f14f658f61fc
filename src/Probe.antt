-- ===== src/Probe.antt =====
-- Linear probing, as every open-addressing loop of src/lumodb/database.cpp writes it:
--   for (probe = 0; probe < bucketCount; ++probe) { index = (start + probe) & mask; ... }
-- with a body that goes on to the next probe or leaves the loop with a result.
pub mod Scan
pub mod Table
pub mod Writes
pub mod Count
use Prim.Native.Nat.{bit_and}
use lumodb.Base.{ℕ, zero, suc, ◌+◌}
use lumodb.Base.Words.{add64, sub64}

pub data Step {ℓ} (R : Type ℓ) : Type ℓ where
  next : Step R
  done : R → Step R

abbrev pub settle {ℓ} : {R : Type ℓ} → Step R → R → R
settle next rest = rest
settle (done r) rest = r

-- `const uint64_t mask = bucketCount - 1`
abbrev pub mask_of : ℕ → ℕ
mask_of bucket_count = sub64 bucket_count 1

unfoldable pub probe_index : ℕ → ℕ → ℕ → ℕ
probe_index mask start probe = bit_and (add64 start probe) mask

module _ {ℓ} {R : Type ℓ} (body : ℕ → Step R) (exhausted : R) where
  -- The rounds left, and the number of the probe.
  pub scan_from : ℕ → ℕ → ℕ → ℕ → R
  unfolding probe_index
  scan_from mask start zero probe = exhausted
  scan_from mask start (suc rounds) probe =
      let rest = scan_from mask start rounds (probe + 1) in
      settle (body (probe_index mask start probe)) rest

  -- The loop over `bucket_count` probes from `start`, and what follows a loop that never left.
  unfoldable pub scan : ℕ → ℕ → R
  unfolding scan_from
  scan bucket_count start = scan_from (mask_of bucket_count) start bucket_count 0
