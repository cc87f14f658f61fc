-- ===== src/Rows/Blocks/Values.antt =====
-- The second loop of `BuildRowBlockLayout` gives each full bucket the place of its entry's value.
use lumodb.Base.{
  ℕ, zero, suc, ◌+◌, ◌<◌, ◌≡◌, inl, inr, refl, sym, ap, subst, true, false, Option, none, some,
  List, [], ◌∷◌, ◌++◌, append_assoc, arith, ◌==◌, length, length-append, get_or, Option-cases,
}
use lumodb.Base.Words.{u64, add64}
use lumodb.Hash.{hash_string}
use lumodb.Format.Rows.{RowKeyBucket}
use lumodb.File.Loops.{flatten}
use lumodb.Rows.Blocks.{RowStructEntry, bucket_empty, bucket_filled, empty_key_bucket, place_values}
use lumodb.Rows.Blocks.Keys.{PieceAt, KeySlot, Slot}

-- A bucket holds the key of an entry and the place of its value.
pub record ValueSlot (key_bytes value_bytes : List ℕ) (b : RowKeyBucket) (e : RowStructEntry)
    : Type 0 where
  pub full : b.state ≡ bucket_filled
  pub plain : b.reserved ≡ 0
  pub hash : b.key_hash ≡ hash_string e.key
  pub size : b.key_size ≡ length e.key
  pub at : PieceAt key_bytes b.key_offset e.key
  pub value_size : b.value_size ≡ length e.bytes
  pub value_at : PieceAt value_bytes b.value_offset e.bytes

abbrev pub Placed : List ℕ → List ℕ → RowKeyBucket → Option RowStructEntry → Type 0
Placed key_bytes value_bytes b none = b ≡ empty_key_bucket
Placed key_bytes value_bytes b (some e) = ValueSlot key_bytes value_bytes b e

module _ (entries : List RowStructEntry) (selected : List ℕ) (key_bytes : List ℕ)
    (T : ℕ → Option RowStructEntry) where
  abbrev chosen_at : ℕ → ℕ
  chosen_at i = get_or selected i (length entries)

  abbrev place : ℕ → List RowKeyBucket → ℕ → List RowKeyBucket × List (List ℕ) × ℕ
  place = place_values entries selected

  place-empty :
      (i : ℕ) (b : RowKeyBucket) (bs : List RowKeyBucket) (size : ℕ)
      → b ≡ empty_key_bucket
      → place i (b ∷ bs) size ≡ (let rest = place (suc i) bs size in (b ∷ rest.0, rest.1, rest.2))
  unfolding place_values
  place-empty i b bs size h =
      let is_empty : (b.state == bucket_empty) ≡ true = ap (λ x. x.state == bucket_empty) h in
      rw is_empty refl

  place-full :
      (i : ℕ) (b : RowKeyBucket) (bs : List RowKeyBucket) (size : ℕ) (e : RowStructEntry)
      → KeySlot entries key_bytes b (chosen_at i) e
      → place i (b ∷ bs) size ≡ (
          let rest = place (suc i) bs (add64 size (length e.bytes)) in
          (
            record b { value_offset = size; value_size = length e.bytes } ∷ rest.0,
            e.bytes ∷ rest.1,
            rest.2,
          ))
  unfolding place_values
  place-full i b bs size e slot =
      let not_empty : (b.state == bucket_empty) ≡ false = ap (λ x. x == bucket_empty) slot.full in
      rw (not_empty, slot.selected) refl

  abbrev Slots : ℕ → List RowKeyBucket → Type 0
  Slots i bs =
      (j : ℕ)
      → j < length bs
      → Slot entries key_bytes (get_or bs j empty_key_bucket) (chosen_at (i + j)) (T (i + j))

  -- What the loop makes of the buckets from `i` on, behind the values `before`.
  abbrev Outcome :
      ℕ → List RowKeyBucket → ℕ → List ℕ → List RowKeyBucket × List (List ℕ) × ℕ → Type 0
  Outcome i bs size before r =
      (length r.0 ≡ length bs)
      × (r.2 ≡ size + length (flatten r.1))
      × ((j : ℕ)
          → j < length bs
          → Placed key_bytes (before ++ flatten r.1) (get_or r.0 j empty_key_bucket) (T (i + j)))

  next-Slots :
      (i : ℕ) (b : RowKeyBucket) (bs : List RowKeyBucket) → Slots i (b ∷ bs) → Slots (suc i) bs
  next-Slots i b bs slots j lt =
      subst (λ x. Slot entries key_bytes (get_or bs j empty_key_bucket) (chosen_at x) (T x))
        (let z : i + suc j ≡ suc i + j = omega arith in z) (slots (suc j) (omega arith))

  -- The bucket at the head, and those behind it.
  split_at :
      (i : ℕ) (P : RowKeyBucket → Option RowStructEntry → Type 0) (b : RowKeyBucket)
      (bs : List RowKeyBucket) (m : ℕ)
      → P b (T i)
      → ((j : ℕ) → j < m → P (get_or bs j empty_key_bucket) (T (suc i + j)))
      → (j : ℕ) → j < suc m
      → P (get_or (b ∷ bs) j empty_key_bucket) (T (i + j))
  split_at i P b bs m first rest zero lt =
      subst (λ x. P b (T x)) (let z : i ≡ i + 0 = omega arith in z) first
  split_at i P b bs m first rest (suc j) lt =
      subst (λ x. P (get_or bs j empty_key_bucket) (T x))
        (let z : suc i + j ≡ i + suc j = omega arith in z) (rest j (omega arith))

  step-empty :
      (b : RowKeyBucket) (bs : List RowKeyBucket) (i size : ℕ) (before : List ℕ)
      (rest : List RowKeyBucket × List (List ℕ) × ℕ)
      → b ≡ empty_key_bucket
      → T i ≡ none
      → Outcome (suc i) bs size before rest
      → Outcome i (b ∷ bs) size before (b ∷ rest.0, rest.1, rest.2)
  step-empty b bs i size before rest is_empty at (width, end, placed) = (
    ap suc width,
    end,
    split_at i (Placed key_bytes (before ++ flatten rest.1)) b rest.0 (length bs)
        (subst (Placed key_bytes (before ++ flatten rest.1) b) (sym at) is_empty) placed,
  )

  step-full :
      (b : RowKeyBucket) (bs : List RowKeyBucket) (i size : ℕ) (before : List ℕ)
      (e : RowStructEntry) (rest : List RowKeyBucket × List (List ℕ) × ℕ)
      → KeySlot entries key_bytes b (chosen_at i) e
      → T i ≡ some e
      → length before ≡ size
      → Outcome (suc i) bs (size + length e.bytes) (before ++ e.bytes) rest
      → Outcome i (b ∷ bs) size before (
        record b { value_offset = size; value_size = length e.bytes } ∷ rest.0,
        e.bytes ∷ rest.1,
        rest.2,
      )
  step-full b bs i size before e rest slot at len (width, end, placed) = (
    ap suc width,
    omega (arith, end, length-append e.bytes (flatten rest.1)),
    split_at i (Placed key_bytes (before ++ (e.bytes ++ flatten rest.1))) b' rest.0 (length bs)
        (subst (Placed key_bytes (before ++ (e.bytes ++ flatten rest.1)) b') (sym at) here)
        (λ j lt.
          subst (λ v. Placed key_bytes v (get_or rest.0 j empty_key_bucket) (T (suc i + j)))
            (append_assoc before e.bytes (flatten rest.1)) (placed j lt)),
  )
    where
      b' : RowKeyBucket
      b' = record b { value_offset = size; value_size = length e.bytes }

      here : ValueSlot key_bytes (before ++ (e.bytes ++ flatten rest.1)) b' e
      here = record {
        full = slot.full;
        plain = slot.plain;
        hash = slot.hash;
        size = slot.size;
        at = slot.at;
        value_size = refl;
        value_at = record { before = before; after = flatten rest.1; split = refl; place = len };
      }

  -- The loop gives every full bucket the place of its entry's value among the values, and
  -- `valueBytesSize` is the size of the values.
  pub place_values-Placed :
      (bs : List RowKeyBucket) (i size : ℕ) (before : List ℕ)
      → Slots i bs
      → length before ≡ size
      → size + length (flatten (place i bs size).1) < u64
      → Outcome i bs size before (place i bs size)
  unfolding place_values
  place_values-Placed [] i size before slots len small =
      (refl, omega arith, λ j lt. absurd (omega arith))
  place_values-Placed (b ∷ bs) i size before slots len small =
      let first : Slot entries key_bytes b (chosen_at i) (T i) =
        subst (λ x. Slot entries key_bytes b (chosen_at x) (T x))
          (let z : i + 0 ≡ i = omega arith in z) (slots 0 (omega arith)) in
      elim (Option-cases (T i)) [
        | inl at ↦
            let is_empty : b ≡ empty_key_bucket =
              subst (Slot entries key_bytes b (chosen_at i)) at first in
            let eq = place-empty i b bs size is_empty in
            subst (Outcome i (b ∷ bs) size before) (sym eq) (
              step-empty b bs i size before (place (suc i) bs size) is_empty at (
                place_values-Placed bs (suc i) size before (next-Slots i b bs slots) len
                  (subst (λ r. size + length (flatten r.1) < u64) eq small)))
        | inr (e, at) ↦
            let slot : KeySlot entries key_bytes b (chosen_at i) e =
              subst (Slot entries key_bytes b (chosen_at i)) at first in
            let eq = place-full i b bs size e slot in
            let rest = place (suc i) bs (add64 size (length e.bytes)) in
            let fits = subst (λ r. size + length (flatten r.1) < u64) eq small in
            let all = length-append e.bytes (flatten rest.1) in
            let sum : add64 size (length e.bytes) ≡ size + length e.bytes = omega arith in
            subst (Outcome i (b ∷ bs) size before) (sym eq) (
              subst
                (λ r. Outcome i (b ∷ bs) size before (
                  record b { value_offset = size; value_size = length e.bytes } ∷ r.0,
                  e.bytes ∷ r.1,
                  r.2,
                ))
                (ap (place (suc i) bs) (sym sum))
                (step-full b bs i size before e (place (suc i) bs (size + length e.bytes)) slot at
                  len
                  (place_values-Placed bs (suc i) (size + length e.bytes) (before ++ e.bytes)
                    (next-Slots i b bs slots) (omega (arith, length-append before e.bytes, len))
                    (subst
                      (λ x. size + length e.bytes + length (flatten (place (suc i) bs x).1) < u64)
                      sum (omega (arith, all, fits))))))
      ]
