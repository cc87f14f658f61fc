-- ===== src/Migration.antt =====
-- The loops of `MigrateLegacyValueFile` of src/lumodb/database.cpp, which copy the records of a
-- value file of the first format to a new file.
pub mod Copy
pub mod Log
use lumodb.Base.{
  ℕ, zero, suc, ◌+◌, ◌-◌, ◌*◌, ◌%◌, ◌^◌, min, Bool, true, false, List, [], ◌∷◌, ltb, leb, ◌==◌,
  length, if◌then◌else◌,
}
use lumodb.Base.Words.{u32, add64, sub64}
use lumodb.Status.{
  Result, Act, ok, err, fault, endless_loop, corruption, ◌>>=◌, ◌>>◌, require, on_ok,
}
use lumodb.Format.Headers.{
  record_header_size, new_record_header, encode_record_header, new_value_file_header,
  encode_file_header,
}
use lumodb.Format.Legacy.{
  LegacyValueRecordHeader, legacy_header_size, decode_legacy_header, is_valid_legacy_record_header,
}
use lumodb.File.{Device, read_all_at, write_all_at}

-- The size of `copyBuffer`.
abbrev pub copy_buffer_size : ℕ
copy_buffer_size = 1024 * 1024

-- What was read goes to the new file.
pub write_chunk : Device → List ℕ → ℕ → Result (List ℕ) → (List ℕ → Act (List ℕ)) → Act (List ℕ)
write_chunk dev target offset (ok bytes) continue =
    on_ok (write_all_at dev target offset bytes) continue
write_chunk dev target offset (err c m) continue = (target, err c m)
write_chunk dev target offset (fault x) continue = (target, fault x)

-- `while (remaining > 0)` with fuel: the new file after it.
pub copy_from : ℕ → Device → List ℕ → ℕ → ℕ → ℕ → List ℕ → Act (List ℕ)
unfolding write_chunk
copy_from zero dev source remaining source_offset target_offset target =
    (target, fault endless_loop)
copy_from (suc fuel) dev source remaining source_offset target_offset target =
    let chunk_size = min remaining copy_buffer_size in
    let round =
      write_chunk dev target target_offset (read_all_at dev source chunk_size source_offset) (
        copy_from fuel dev source (remaining - chunk_size) (add64 source_offset chunk_size)
          (add64 target_offset chunk_size)) in
    if remaining == 0 then (target, ok tt) else round

-- A chunk has a byte at least, so `remaining` rounds are enough.
pub copy_data : Device → List ℕ → ℕ → ℕ → ℕ → List ℕ → Act (List ℕ)
unfolding copy_from
copy_data dev source size source_offset target_offset target =
    copy_from (suc size) dev source size source_offset target_offset target

-- `recordDataSize`: the first sum is one of 32-bit numbers.
pub record_data_size : LegacyValueRecordHeader → ℕ
record_data_size h = add64 ((h.column_size + h.key_size) % u32) h.value_size

-- The header that a round reads, with its checks.
pub read_legacy : Device → List ℕ → ℕ → ℕ → Result LegacyValueRecordHeader
unfolding record_data_size
read_legacy dev source file_size offset = do
  bytes ← read_all_at dev source legacy_header_size offset
  let h = decode_legacy_header bytes
  require (is_valid_legacy_record_header h) corruption "legacy value record header is invalid"
  require (leb (add64 legacy_header_size (record_data_size h)) (sub64 file_size offset)) corruption
      "legacy value record extends beyond file size"
  ok h

-- The new header and the record's data, in the new file.
pub copy_record : Device → List ℕ → ℕ → ℕ → LegacyValueRecordHeader → List ℕ → Act (List ℕ)
unfolding copy_data record_data_size
copy_record dev source source_offset target_offset h target =
    on_ok
      (write_all_at dev target target_offset
        (encode_record_header (new_record_header h.column_size h.key_size h.value_size)))
      (copy_data dev source (record_data_size h) (add64 source_offset legacy_header_size)
        (add64 target_offset record_header_size))

-- `if (!status) { return status; }` with the new file at hand.
abbrev pub with_file : Act (List ℕ) → (List ℕ → List ℕ × Result ℕ) → List ℕ × Result ℕ
with_file (file, ok u) f = f file
with_file (file, err c m) f = (file, err c m)
with_file (file, fault x) f = (file, fault x)

-- One round and what follows it, by the header that the round has read.
pub copy_read :
    Device
    → List ℕ
    → ℕ
    → ℕ
    → List ℕ
    → Result LegacyValueRecordHeader
    → (LegacyValueRecordHeader → List ℕ → List ℕ × Result ℕ)
    → List ℕ × Result ℕ
unfolding copy_record
copy_read dev source source_offset target_offset target (ok h) continue =
    with_file (copy_record dev source source_offset target_offset h target) (continue h)
copy_read dev source source_offset target_offset target (err c m) continue = (target, err c m)
copy_read dev source source_offset target_offset target (fault x) continue = (target, fault x)

-- `while (sourceOffset < legacyFileSize)` with fuel: the new file, and `destinationOffset`.
pub migrate_from : ℕ → Device → List ℕ → ℕ → ℕ → ℕ → List ℕ → List ℕ × Result ℕ
unfolding read_legacy copy_read record_data_size
migrate_from zero dev source file_size source_offset target_offset target =
    (target, fault endless_loop)
migrate_from (suc fuel) dev source file_size source_offset target_offset target =
    let round =
      copy_read dev source source_offset target_offset target
        (read_legacy dev source file_size source_offset)
        λ h.
          migrate_from fuel dev source file_size
            (add64 source_offset (add64 legacy_header_size (record_data_size h)))
            (add64 target_offset (add64 record_header_size (record_data_size h))) in
    if ltb source_offset file_size then round else (target, ok target_offset)

-- The new file, made from the old one of `legacy_file_size` bytes.
pub migrated : Device → List ℕ → ℕ → List ℕ × Result ℕ
unfolding migrate_from
migrated dev source legacy_file_size =
    with_file (write_all_at dev [] 0 (encode_file_header new_value_file_header))
      (migrate_from (suc legacy_file_size) dev source legacy_file_size 24 24)
