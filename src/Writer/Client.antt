-- ===== src/Writer/Client.antt =====
-- What a client sees of `GetStruct` after a `PutStruct` that every call of the kernel answers.
use lumodb.Base.{
  ℕ, ◌^◌, ◌<◌, ◌≡◌, inl, inr, sym, ap, ◌∙◌, false, List, [], ◌∷◌, arith, length, if◌then◌else◌,
  Bool-cases,
}
use lumodb.Status.{ok}
use lumodb.File.{Device, Reads}
use lumodb.Objects.{Store, get_struct}
use lumodb.Objects.Records.{CanRead, same_key}
use lumodb.Objects.Lookup.{Map, Models, get_of, get_struct-Models}
use lumodb.Writer.{StructEntry, put_structs, put_struct}
use lumodb.Writer.Publish.{update_all}
use lumodb.Writer.Append.{Works, Ready, FitsBatch, write_structs-Models}

-- Reads of a store opened for writing, whose file fits an `off_t`.
pub Ready-CanRead :
    {dev : Device} {s : Store} → Reads dev → Ready s → length s.value_file < 2 ^ 63 → CanRead dev s
Ready-CanRead reads ready small = record {
  reads = reads;
  small = small;
  whole = inl ready.unmapped;
}

-- The batch of one object.
abbrev pub single : List ℕ → List ℕ → List StructEntry
single key value = record { key = key; value = value } ∷ []

module _ {dev : Device} (works : Works dev) {f : Map} {s : Store} (ready : Ready s) (m : Models f s)
    (column key value : List ℕ)
    (fit : FitsBatch s ready m.ix.item_count column (single key value)) where
  -- `PutStruct` succeeds on a store opened for writing, if the record fits and the kernel answers
  -- every call; then `GetStruct`
  -- returns the new value under its column and key, and under every other pair what it returned
  -- before.
  pub get_struct-put_struct :
      (s' : Store) × (put_struct dev s column key value ≡ (s', ok tt))
      × ((c k : List ℕ)
          → get_struct dev s' c k
            ≡ (if same_key (column, key) (c, k) then ok value else get_struct dev s c k))
  unfolding put_struct put_structs
  get_struct-put_struct =
      let (s', run, models, ready', small) =
        write_structs-Models column (single key value) false works ready m fit (λ h. cc) in
      (
        s',
        run,
        λ c k.
            get_struct-Models (Ready-CanRead works.reads ready' small) models c k ready'.opened
            ∙ answer c k
            ∙ ap (λ r. if same_key (column, key) (c, k) then ok value else r)
                (sym (
                  get_struct-Models (Ready-CanRead works.reads ready (omega (arith, fit.file_fits)))
                    m c k ready.opened)),
      )
    where
      answer :
          (c k : List ℕ)
          → get_of (update_all f (record { column = column; key = key; value = value } ∷ []) (c, k))
            ≡ (if same_key (column, key) (c, k) then ok value else get_of (f (c, k)))
      answer c k = elim (Bool-cases (same_key (column, key) (c, k))) [
        | inl same ↦ rw same
        | inr other ↦ rw other
      ]
