-- ===== src/Objects/Many.antt =====
-- `GetMany` against a map of objects.
use lumodb.Base.{ℕ, ◌≡◌, refl, ap, ◌∙◌, true, List, [], ◌∷◌}
use lumodb.Status.{Result, ok, ◌>>=◌, ◌>>◌, require, not_open}
use lumodb.File.{Device}
use lumodb.Objects.{Store, get_each, get_many}
use lumodb.Objects.Records.{CanRead}
use lumodb.Objects.Lookup.{Map, Models, get_of, get_struct-Models}

-- The values that a map has under the keys, up to the first key that it does not have.
abbrev pub values_of : Map → List ℕ → List (List ℕ) → Result (List (List ℕ))
values_of f column [] = ok []
values_of f column (key ∷ keys) =
    get_of (f (column, key)) >>= λ value. values_of f column keys >>= λ values. ok (value ∷ values)

module _ {dev : Device} {s : Store} (can : CanRead dev s) {f : Map} (m : Models f s) where
  get_each-Models :
      (column : List ℕ) (keys : List (List ℕ))
      → s.is_open ≡ true
      → get_each dev s column keys ≡ values_of f column keys
  unfolding get_each
  get_each-Models column [] opened = refl
  get_each-Models column (key ∷ keys) opened =
      rw (get_struct-Models can m column key opened, get_each-Models column keys opened)

  -- In an open store that can be read `GetMany` hands back the values that the map has under the
  -- column and the keys, in the order of the keys, and NotFound and no value if it lacks one.
  pub get_many-Models :
      (column : List ℕ) (keys : List (List ℕ))
      → s.is_open ≡ true
      → get_many dev s column keys ≡ values_of f column keys
  unfolding get_many
  get_many-Models column keys opened =
      ap (λ o. require o not_open "database is not open" >> get_each dev s column keys) opened
      ∙ get_each-Models column keys opened
