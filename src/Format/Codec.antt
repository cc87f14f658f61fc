-- ===== src/Format/Codec.antt =====
-- Fixed-width little-endian fields, as the packed structs of storage_format.h lay them out.
use lumodb.Base.{
  ℕ, zero, suc, ◌+◌, ◌*◌, ◌/◌, ◌%◌, ◌^◌, ◌<◌, ◌≡◌, refl, ap, List, [], ◌∷◌, arith, length, take,
  drop,
}
use native.Mathlib.Nat.{pow-suc}

-- The `width` bytes of a field, lowest first.
unfoldable pub encode_le : ℕ → ℕ → List ℕ
encode_le zero value = []
encode_le (suc width) value = (value % 256) ∷ encode_le width (value / 256)

unfoldable pub decode_le : List ℕ → ℕ
decode_le [] = 0
decode_le (b ∷ bs) = b + 256 * decode_le bs

-- The field of `width` bytes that begins `offset` bytes into a struct.
abbrev pub field_at : ℕ → ℕ → List ℕ → ℕ
field_at offset width bytes = decode_le (take width (drop offset bytes))

pub length-encode_le : (w n : ℕ) → length (encode_le w n) ≡ w
unfolding encode_le
length-encode_le zero n = refl
length-encode_le (suc w) n = ap suc (length-encode_le w (n / 256))

-- What fits a field is read back as it was written.
pub decode_le-encode_le : (w n : ℕ) → n < 256 ^ w → decode_le (encode_le w n) ≡ n
unfolding encode_le decode_le
decode_le-encode_le zero n h = omega arith
decode_le-encode_le (suc w) n h =
    omega (arith, decode_le-encode_le w (n / 256) (omega (arith, pow-suc 256 w)))
