-- ===== src/Text.antt =====
-- `EscapeText` and `HexBytes` of src/lumodb/database.cpp, which print keys and values in dumps.
pub mod Injective
use lumodb.Base.{
  ℕ, ◌+◌, ◌/◌, ◌%◌, ◌&&◌, Bool, true, false, List, [], ◌∷◌, ◌++◌, leb, ◌==◌, get_or, if◌then◌else◌,
}

-- `kHexDigits`
abbrev pub hex_digits : List ℕ
hex_digits =
    b'0' ∷ b'1' ∷ b'2' ∷ b'3' ∷ b'4' ∷ b'5' ∷ b'6' ∷ b'7' ∷ b'8' ∷ b'9' ∷ b'a' ∷ b'b' ∷ b'c' ∷ b'd'
    ∷ b'e' ∷ b'f' ∷ []

pub hex_pair : ℕ → List ℕ
hex_pair value = get_or hex_digits (value / 16) 0 ∷ get_or hex_digits (value % 16) 0 ∷ []

-- The `switch` of `EscapeText`.
pub escape_character : ℕ → List ℕ
unfolding hex_pair
escape_character character =
    if character == 92
    then 92 ∷ 92 ∷ []
    else if character == 34
    then 92 ∷ 34 ∷ []
    else if character == 10
    then 92 ∷ b'n' ∷ []
    else if character == 13
    then 92 ∷ b'r' ∷ []
    else if character == 9
    then 92 ∷ b't' ∷ []
    else if leb 0x20 character && leb character 0x7e
    then character ∷ []
    else 92 ∷ b'x' ∷ hex_pair character

pub escape_all : List ℕ → List ℕ
unfolding escape_character
escape_all [] = []
escape_all (character ∷ rest) = escape_character character ++ escape_all rest

-- `EscapeText`
unfoldable pub escape_text : List ℕ → List ℕ
unfolding escape_all
escape_text value = 34 ∷ (escape_all value ++ (34 ∷ []))

pub hex_all : List ℕ → List ℕ
unfolding hex_pair
hex_all [] = []
hex_all (value ∷ rest) = hex_pair value ++ hex_all rest

-- `HexBytes`
pub hex_bytes : List ℕ → List ℕ
unfolding hex_all
hex_bytes bytes = b'0' ∷ b'x' ∷ hex_all bytes
