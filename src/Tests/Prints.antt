-- ===== src/Tests/Prints.antt =====
-- Printed texts, and a read of several objects.
use lumodb.Base.{ℕ, ◌≡◌, refl, List, [], ◌∷◌, arith}
use lumodb.Objects.{get_many}
use lumodb.Objects.Many.{values_of, get_many-Models}
use lumodb.Text.{escape_text}
use lumodb.Text.Injective.{AllBytes, escape_text-injective, hex_bytes-injective}
use lumodb.Writer.Client.{Ready-CanRead}
use lumodb.Writer.Resize.{no_map}
use lumodb.Tests.Fixture.{
  device, device-Works, empty_store, empty_store-Ready, empty_store-Models, length-header_bytes,
}

abbrev text : List ℕ
text = b'a' ∷ 34 ∷ 10 ∷ 200 ∷ []

abbrev text-AllBytes : AllBytes text
text-AllBytes = (omega arith, (omega arith, (omega arith, (omega arith, tt))))

escape_text-injective_example : text ≡ text
escape_text-injective_example = escape_text-injective text text text-AllBytes text-AllBytes refl

hex_bytes-injective_example : text ≡ text
hex_bytes-injective_example = hex_bytes-injective text text text-AllBytes text-AllBytes refl

get_many-Models_example :
    get_many device empty_store (b'u' ∷ []) ((b'a' ∷ []) ∷ (b'b' ∷ []) ∷ [])
    ≡ values_of no_map (b'u' ∷ []) ((b'a' ∷ []) ∷ (b'b' ∷ []) ∷ [])
get_many-Models_example =
    get_many-Models
      (Ready-CanRead device-Works.reads empty_store-Ready (omega (arith, length-header_bytes)))
      empty_store-Models (b'u' ∷ []) ((b'a' ∷ []) ∷ (b'b' ∷ []) ∷ []) refl

-- `a"\n\xc8` in quotes, and 0x61220ac8.
escape_text_run :
    escape_text text ≡ 34 ∷ b'a' ∷ 92 ∷ 34 ∷ 92 ∷ b'n' ∷ 92 ∷ b'x' ∷ b'c' ∷ b'8' ∷ 34 ∷ []
unfolding escape_text
escape_text_run = refl
