-- ===== src/Hash.antt =====
-- src/lumodb/hash.cpp, and `ObjectIndexHash` of src/lumodb/database.cpp.
pub mod Bounds
use Prim.Native.Nat.{bit_or, bit_xor}
use lumodb.Base.{ℕ, ◌*◌, ◌/◌, ◌%◌, ◌^◌, List, [], ◌∷◌, ◌==◌, if◌then◌else◌}
use lumodb.Base.Words.{u64, mul64}

abbrev pub offset_basis : ℕ
offset_basis = 14695981039346656037

abbrev pub prime : ℕ
prime = 1099511628211

-- One round of the loop of `HashString`.
pub hash_byte : ℕ → ℕ → ℕ
hash_byte hash ch = mul64 (bit_xor hash ch) prime

pub hash_from : ℕ → List ℕ → ℕ
unfolding hash_byte
hash_from hash [] = hash
hash_from hash (ch ∷ rest) = hash_from (hash_byte hash ch) rest

unfoldable pub hash_string : List ℕ → ℕ
unfolding hash_from
hash_string value = hash_from offset_basis value

-- `std::rotl(x, 23)` on 64 bits.
pub rotl23 : ℕ → ℕ
rotl23 x = bit_or (mul64 x (2 ^ 23)) (x / 2 ^ 41)

-- `value ^= value >> k`
abbrev pub xor_shift : ℕ → ℕ → ℕ
xor_shift k value = bit_xor value (value / 2 ^ k)

unfoldable pub mix_hashes : ℕ → ℕ → ℕ
unfolding rotl23
mix_hashes column_hash key_hash =
    let value = bit_xor column_hash (rotl23 key_hash) in
    let value₁ = mul64 (xor_shift 30 value) 0xbf58476d1ce4e5b9 in
    let value₂ = mul64 (xor_shift 27 value₁) 0x94d049bb133111eb in xor_shift 31 value₂

-- 0 marks an empty bucket, so it is no hash.
unfoldable pub object_index_hash : ℕ → ℕ → ℕ
unfolding mix_hashes
object_index_hash column_hash key_hash =
    let hash = mix_hashes column_hash key_hash in if hash == 0 then 1 else hash
