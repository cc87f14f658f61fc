-- ===== src/Format/Headers.antt =====
-- The value file's headers: `ValueFileHeader`, `ValueRecordHeader` and `LegacyValueRecordHeader`.
-- Each struct has no padding, so its bytes are those of its fields in order.
use lumodb.Base.{ℕ, ◌^◌, ◌<◌, ◌≡◌, refl, Bool, List, [], ◌∷◌, ◌++◌, ◌&&◌, ◌==◌, length, take}
use lumodb.Format.Codec.{encode_le, field_at, decode_le-encode_le}

-- "LUMV0002" and "LUMV0001"
abbrev pub value_file_magic : List ℕ
value_file_magic = b'L' ∷ b'U' ∷ b'M' ∷ b'V' ∷ b'0' ∷ b'0' ∷ b'0' ∷ b'2' ∷ []

abbrev pub legacy_value_file_magic : List ℕ
legacy_value_file_magic = b'L' ∷ b'U' ∷ b'M' ∷ b'V' ∷ b'0' ∷ b'0' ∷ b'0' ∷ b'1' ∷ []

abbrev pub storage_version : ℕ
storage_version = 1

abbrev pub record_magic : ℕ
record_magic = 0x43455256

pub record ValueFileHeader : Type 0 where
  pub magic : List ℕ
  pub version : ℕ
  pub header_size : ℕ
  pub reserved : ℕ

-- The member initialisers.
abbrev pub new_value_file_header : ValueFileHeader
new_value_file_header = record {
  magic = value_file_magic;
  version = storage_version;
  header_size = 24;
  reserved = 0;
}

unfoldable pub encode_file_header : ValueFileHeader → List ℕ
encode_file_header h =
    h.magic ++ (encode_le 4 h.version ++ (encode_le 4 h.header_size ++ encode_le 8 h.reserved))

unfoldable pub decode_file_header : List ℕ → ValueFileHeader
decode_file_header bytes = record {
  magic = take 8 bytes;
  version = field_at 8 4 bytes;
  header_size = field_at 12 4 bytes;
  reserved = field_at 16 8 bytes;
}

pub record ValueRecordHeader : Type 0 where
  pub magic : ℕ
  pub version : ℕ
  pub header_size : ℕ
  pub column_size : ℕ
  pub key_size : ℕ
  pub value_size : ℕ

abbrev pub record_header_size : ℕ
record_header_size = 24

-- The member initialisers, with the three sizes that the writer sets.
abbrev pub new_record_header : ℕ → ℕ → ℕ → ValueRecordHeader
new_record_header column_size key_size value_size = record {
  magic = record_magic;
  version = storage_version;
  header_size = record_header_size;
  column_size = column_size;
  key_size = key_size;
  value_size = value_size;
}

unfoldable pub encode_record_header : ValueRecordHeader → List ℕ
encode_record_header h =
    encode_le 4 h.magic
    ++ (encode_le 2 h.version
        ++ (encode_le 2 h.header_size
            ++ (encode_le 4 h.column_size ++ (encode_le 4 h.key_size ++ encode_le 8 h.value_size))))

unfoldable pub decode_record_header : List ℕ → ValueRecordHeader
decode_record_header bytes = record {
  magic = field_at 0 4 bytes;
  version = field_at 4 2 bytes;
  header_size = field_at 6 2 bytes;
  column_size = field_at 8 4 bytes;
  key_size = field_at 12 4 bytes;
  value_size = field_at 16 8 bytes;
}

-- `IsValidRecordHeader` of database.cpp.
unfoldable pub is_valid_record_header : ValueRecordHeader → Bool
is_valid_record_header h =
    (h.magic == record_magic)
    && (h.version == storage_version)
    && (h.header_size == record_header_size)

-- Every field fits its width.
pub record Fits (h : ValueRecordHeader) : Type 0 where
  pub magic_fits : h.magic < 256 ^ 4
  pub version_fits : h.version < 256 ^ 2
  pub header_size_fits : h.header_size < 256 ^ 2
  pub column_fits : h.column_size < 256 ^ 4
  pub key_fits : h.key_size < 256 ^ 4
  pub value_fits : h.value_size < 256 ^ 8

pub length-encode_record_header :
    (h : ValueRecordHeader) → length (encode_record_header h) ≡ record_header_size
unfolding encode_record_header encode_le
length-encode_record_header h = refl

-- A record header whose fields fit their widths is read back from its bytes.
pub decode-encode_record_header :
    (h : ValueRecordHeader) → Fits h → decode_record_header (encode_record_header h) ≡ h
unfolding encode_record_header decode_record_header encode_le
decode-encode_record_header h f = λ i. record {
  magic = decode_le-encode_le 4 h.magic f.magic_fits i;
  version = decode_le-encode_le 2 h.version f.version_fits i;
  header_size = decode_le-encode_le 2 h.header_size f.header_size_fits i;
  column_size = decode_le-encode_le 4 h.column_size f.column_fits i;
  key_size = decode_le-encode_le 4 h.key_size f.key_fits i;
  value_size = decode_le-encode_le 8 h.value_size f.value_fits i;
}
