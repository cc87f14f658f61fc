-- ===== src/Format/Legacy.antt =====
-- `LegacyValueRecordHeader`, the record header of value files of the first format.
use lumodb.Base.{ℕ, ◌^◌, ◌<◌, ◌≡◌, refl, Bool, List, ◌++◌, ◌&&◌, ◌==◌, length}
use lumodb.Format.Codec.{encode_le, field_at, decode_le-encode_le}
use lumodb.Format.Headers.{record_magic, storage_version}

pub record LegacyValueRecordHeader : Type 0 where
  pub magic : ℕ
  pub version : ℕ
  pub header_size : ℕ
  pub sequence : ℕ
  pub column_hash : ℕ
  pub key_hash : ℕ
  pub column_size : ℕ
  pub key_size : ℕ
  pub value_size : ℕ

abbrev pub legacy_header_size : ℕ
legacy_header_size = 48

unfoldable pub encode_legacy_header : LegacyValueRecordHeader → List ℕ
encode_legacy_header h =
    encode_le 4 h.magic
    ++ (encode_le 2 h.version
        ++ (encode_le 2 h.header_size
            ++ (encode_le 8 h.sequence
                ++ (encode_le 8 h.column_hash
                    ++ (encode_le 8 h.key_hash
                        ++ (encode_le 4 h.column_size
                            ++ (encode_le 4 h.key_size ++ encode_le 8 h.value_size)))))))

unfoldable pub decode_legacy_header : List ℕ → LegacyValueRecordHeader
decode_legacy_header bytes = record {
  magic = field_at 0 4 bytes;
  version = field_at 4 2 bytes;
  header_size = field_at 6 2 bytes;
  sequence = field_at 8 8 bytes;
  column_hash = field_at 16 8 bytes;
  key_hash = field_at 24 8 bytes;
  column_size = field_at 32 4 bytes;
  key_size = field_at 36 4 bytes;
  value_size = field_at 40 8 bytes;
}

-- `IsValidLegacyRecordHeader` of database.cpp.
unfoldable pub is_valid_legacy_record_header : LegacyValueRecordHeader → Bool
is_valid_legacy_record_header h =
    (h.magic == record_magic)
    && (h.version == storage_version)
    && (h.header_size == legacy_header_size)

-- Every field fits its width.
pub record FitsLegacy (h : LegacyValueRecordHeader) : Type 0 where
  pub magic_fits : h.magic < 256 ^ 4
  pub version_fits : h.version < 256 ^ 2
  pub header_size_fits : h.header_size < 256 ^ 2
  pub sequence_fits : h.sequence < 256 ^ 8
  pub column_hash_fits : h.column_hash < 256 ^ 8
  pub key_hash_fits : h.key_hash < 256 ^ 8
  pub column_fits : h.column_size < 256 ^ 4
  pub key_fits : h.key_size < 256 ^ 4
  pub value_fits : h.value_size < 256 ^ 8

pub length-encode_legacy_header :
    (h : LegacyValueRecordHeader) → length (encode_legacy_header h) ≡ legacy_header_size
unfolding encode_legacy_header encode_le
length-encode_legacy_header h = refl

-- A legacy record header whose fields fit their widths is read back from its bytes.
pub decode-encode_legacy_header :
    (h : LegacyValueRecordHeader) → FitsLegacy h → decode_legacy_header (encode_legacy_header h) ≡ h
unfolding encode_legacy_header decode_legacy_header encode_le
decode-encode_legacy_header h f = λ i. record {
  magic = decode_le-encode_le 4 h.magic f.magic_fits i;
  version = decode_le-encode_le 2 h.version f.version_fits i;
  header_size = decode_le-encode_le 2 h.header_size f.header_size_fits i;
  sequence = decode_le-encode_le 8 h.sequence f.sequence_fits i;
  column_hash = decode_le-encode_le 8 h.column_hash f.column_hash_fits i;
  key_hash = decode_le-encode_le 8 h.key_hash f.key_hash_fits i;
  column_size = decode_le-encode_le 4 h.column_size f.column_fits i;
  key_size = decode_le-encode_le 4 h.key_size f.key_fits i;
  value_size = decode_le-encode_le 8 h.value_size f.value_fits i;
}
