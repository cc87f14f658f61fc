-- ===== src/Hash/Bounds.antt =====
-- The hashes are words, an object's hash is never the mark of an empty bucket, and hashing goes
-- byte by byte.
use lumodb.Base.{ℕ, ◌<◌, List, [], ◌∷◌, arith}
use lumodb.Base.Bits.{bit_xor-lt}
use lumodb.Base.Words.{u64}
use lumodb.Hash.{hash_byte, hash_from, hash_string, mix_hashes, object_index_hash}

hash_from-lt : (h : ℕ) (value : List ℕ) → h < u64 → hash_from h value < u64
unfolding hash_from hash_byte
hash_from-lt h [] p = p
hash_from-lt h (ch ∷ rest) p = hash_from-lt (hash_byte h ch) rest (omega arith)

pub hash_string-lt : (value : List ℕ) → hash_string value < u64
unfolding hash_string
hash_string-lt value = hash_from-lt _ value (omega arith)

pub mix_hashes-lt : (a b : ℕ) → mix_hashes a b < u64
unfolding mix_hashes
mix_hashes-lt a b = bit_xor-lt 64 _ _ (omega arith) (omega arith)

-- An object's hash fits 64 bits and is never 0, the mark of an empty bucket.
pub object_index_hash_bounds :
    (a b : ℕ) → (0 < object_index_hash a b) × (object_index_hash a b < u64)
unfolding object_index_hash
object_index_hash_bounds a b = ground (arith, mix_hashes-lt a b)
