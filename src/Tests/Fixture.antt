-- ===== src/Tests/Fixture.antt =====
-- A device that answers every call, a load factor of 0.8, and a store with no object.
use lumodb.Base.{
  ℕ, ◌*◌, ◌/◌, ◌≡◌, refl, sym, append-nil, true, false, none, some, List, [], arith, ltb, ltb-true,
  ltb-false, length,
}
use lumodb.Capacity.{LoadFactor, IsLoadFactor}
use lumodb.Probe.Scan.{IsSize}
use lumodb.Format.Headers.{encode_file_header, new_value_file_header}
use lumodb.Format.Codec.{encode_le}
use lumodb.File.{Device}
use lumodb.Objects.{Store}
use lumodb.Objects.Lookup.{Models}
use lumodb.Writer.{new_index}
use lumodb.Writer.Publish.{Indexes}
use lumodb.Writer.Resize.{new_index-Indexes, no_map}
use lumodb.Writer.Append.{Works, Ready}

abbrev pub device : Device
device = record {
  read_fails = λ size offset. false;
  write_stops = λ size offset. none;
  truncate_fails = λ size. false;
  map_fails = λ size. false;
  stat_fails = false;
}

pub device-Works : Works device
device-Works = record {
  reads = λ size offset. refl;
  writes = λ size offset. refl;
  grants = record { truncates = λ size. refl; maps = λ size. refl };
}

-- A factor of 4 / 5.
abbrev pub four_fifths : LoadFactor
four_fifths = record {
  in_range = true;
  exceeds = λ items buckets. ltb (4 * buckets) (5 * items);
  quotient = λ items. items * 5 / 4;
}

abbrev pub four_fifths-IsLoadFactor : IsLoadFactor four_fifths
four_fifths-IsLoadFactor = record {
  slack = 1;
  full_exceeds = λ items buckets pos full. ltb-true (4 * buckets) (5 * items) (omega arith);
  sparse_fits = λ items buckets pos sparse. ltb-false (4 * buckets) (5 * items) (omega arith);
}

abbrev pub sixteen : IsSize 16
sixteen = record { exponent = 4; is_power = refl; small = omega arith }

abbrev pub header_bytes : List ℕ
header_bytes = encode_file_header new_value_file_header

-- The store that `Open` makes of an empty directory.
abbrev pub empty_store : Store
empty_store = record {
  value_file = header_bytes;
  value_map = none;
  append_offset = 24;
  index = some (new_index 16);
  load = four_fifths;
  is_open = true;
  read_only = false;
}

abbrev pub empty_store-Ready : Ready empty_store
empty_store-Ready = record {
  opened = refl;
  writable = refl;
  unmapped = refl;
  law = four_fifths-IsLoadFactor;
}

abbrev pub start : Indexes header_bytes no_map (new_index 16)
start = new_index-Indexes header_bytes 1 sixteen (omega arith)

pub length-header_bytes : length header_bytes ≡ 24
unfolding encode_file_header encode_le
length-header_bytes = refl

abbrev pub empty_store-Models : Models no_map empty_store
empty_store-Models = record {
  body = header_bytes;
  rest = [];
  file = sym (append-nil header_bytes);
  place = length-header_bytes;
  ix = new_index 16;
  is_mapped = refl;
  T = start.T;
  is_index = start.is_index;
  contents = start.contents;
  spare = omega arith;
  minimum = omega arith;
}
