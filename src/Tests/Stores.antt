-- ===== src/Tests/Stores.antt =====
-- Writes and reads of the store of an empty directory.
use lumodb.Base.{
  ℕ, ◌^◌, ◌<◌, ◌≡◌, refl, true, false, some, List, [], ◌∷◌, arith, length, length-append,
  if◌then◌else◌,
}
use lumodb.Status.{ok, err, io_error}
use lumodb.Objects.{Store, get_struct}
use lumodb.Objects.Records.{encode, length-encode, same_key, CanRead}
use lumodb.Objects.Lookup.{Models, get_of, get_struct-Models}
use lumodb.File.{Device}
use lumodb.Writer.{StructEntry, write_structs, put_struct}
use lumodb.Writer.Publish.{update_all}
use lumodb.Writer.Resize.{no_map}
use lumodb.Writer.Layout.{entries_of, encode_all}
use lumodb.Writer.Append.{Ready, FitsBatch, write_structs-Models}
use lumodb.Writer.Client.{single, Ready-CanRead, get_struct-put_struct}
use lumodb.Writer.Failure.{write_structs-stopped}
use lumodb.Tests.Fixture.{
  device, device-Works, length-header_bytes, empty_store, empty_store-Ready, empty_store-Models,
}

abbrev users : List ℕ
users = b'u' ∷ []

abbrev ann : List ℕ
ann = b'a' ∷ []

abbrev age : List ℕ
age = 41 ∷ []

abbrev batch : List StructEntry
batch = single ann age

batch-length : length (encode_all (entries_of users batch)) ≡ 27
batch-length = omega (
  arith,
  length-append (encode (record { column = users; key = ann; value = age })) [],
  length-encode (record { column = users; key = ann; value = age }),
)

batch-Fits : FitsBatch empty_store empty_store-Ready empty_store-Models.ix.item_count users batch
batch-Fits = record {
  column_fits = omega arith;
  keys_fit = (omega arith, tt);
  file_fits = omega (arith, batch-length, length-header_bytes);
  index_fits = omega arith;
}

write_structs-Models_example :
    (s' : Store) × (write_structs device empty_store users batch true ≡ (s', ok tt))
    × Models (update_all no_map (entries_of users batch)) s'
    × Ready s'
    × (length s'.value_file < 2 ^ 63)
write_structs-Models_example =
    write_structs-Models users batch true device-Works empty_store-Ready empty_store-Models
      batch-Fits λ h. (refl, tt)

get_struct-put_struct_example :
    (s' : Store) × (put_struct device empty_store users ann age ≡ (s', ok tt))
    × ((c k : List ℕ)
        → get_struct device s' c k
          ≡ (if same_key (users, ann) (c, k) then ok age else get_struct device empty_store c k))
get_struct-put_struct_example =
    get_struct-put_struct device-Works empty_store-Ready empty_store-Models users ann age batch-Fits

-- The store of one object.
abbrev stored :
    (s' : Store) × (write_structs device empty_store users batch false ≡ (s', ok tt))
    × Models (update_all no_map (entries_of users batch)) s'
    × Ready s'
    × (length s'.value_file < 2 ^ 63)
stored =
    write_structs-Models users batch false device-Works empty_store-Ready empty_store-Models
      batch-Fits λ h. (refl, tt)

stored-CanRead : CanRead device stored.0
stored-CanRead = Ready-CanRead device-Works.reads stored.3 stored.4

get_struct-Models_example :
    get_struct device stored.0 users ann
    ≡ get_of (update_all no_map (entries_of users batch) (users, ann))
get_struct-Models_example = get_struct-Models stored-CanRead stored.2 users ann stored.3.opened

-- A disk that is full after ten bytes.
abbrev full_disk : Device
full_disk = record device { write_stops = λ size offset. some 10 }

write_structs-stopped_example :
    (s' : Store) × (write_structs full_disk empty_store users batch false
      ≡ (s', err io_error "pwritev"))
    × Models no_map s'
    × Ready s'
write_structs-stopped_example =
    write_structs-stopped (record { truncates = λ size. refl; maps = λ size. refl }) 10
      (λ size offset. refl) users (record { key = ann; value = age }) [] false empty_store-Ready
      empty_store-Models batch-Fits
