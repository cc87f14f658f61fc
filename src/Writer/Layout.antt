-- ===== src/Writer/Layout.antt =====
-- The first loop of `WriteStructs`: the bytes that it hands to the write, and where each record
-- stands in the file afterwards.
use lumodb.Base.{
  ℕ, ◌+◌, ◌%◌, ◌^◌, ◌<◌, ◌≡◌, refl, sym, ap, ap₂, subst, ◌∙◌, List, [], ◌∷◌, ◌++◌, append_assoc,
  arith, length, length-append,
}
use lumodb.Base.Words.{u32, add64}
use lumodb.Format.Headers.{new_record_header, encode_record_header}
use lumodb.Objects.{encode_record}
use lumodb.Objects.Records.{Entry, encode, length-encode}
use lumodb.Writer.{StructEntry, pending_record, pending_records, record_slices}
use lumodb.Writer.Publish.{Written, AllWritten}

-- The objects that a batch stores under a column, in order.
abbrev pub entries_of : List ℕ → List StructEntry → List Entry
entries_of column [] = []
entries_of column (e ∷ es) =
    record { column = column; key = e.key; value = e.value } ∷ entries_of column es

abbrev pub encode_all : List Entry → List ℕ
encode_all [] = []
encode_all (e ∷ es) = encode e ++ encode_all es

abbrev pub KeysFit : List StructEntry → Type 0
KeysFit [] = Unit {0}
KeysFit (e ∷ es) = (length e.key < u32) × KeysFit es

module _ (column : List ℕ) (fits : length column < u32) where
  abbrev entry : StructEntry → Entry
  entry e = record { column = column; key = e.key; value = e.value }

  -- The slices of a record are the encoding of its object.
  slices-encode :
      (offset : ℕ) (e : StructEntry)
      → length e.key < u32
      → encode_record_header (pending_record column offset e).header
          ++ (column ++ (e.key ++ e.value))
        ≡ encode (entry e)
  unfolding pending_record encode_record
  slices-encode offset e key_fits =
      let c : length column % u32 ≡ length column = omega arith in
      let k : length e.key % u32 ≡ length e.key = omega arith in
      ap₂
        (λ a b.
          encode_record_header (new_record_header a b (length e.value))
          ++ (column ++ (e.key ++ e.value)))
        c k

  pub record_slices-encode_all :
      (offset : ℕ) (es : List StructEntry)
      → KeysFit es
      → record_slices column (pending_records column offset es).0
        ≡ encode_all (entries_of column es)
  unfolding record_slices pending_records
  record_slices-encode_all offset [] keys = refl
  record_slices-encode_all offset (e ∷ es) (key, keys) =
      ap₂ (λ a b. a ++ b) (slices-encode offset e key)
        (record_slices-encode_all (add64 offset (pending_record column offset e).record_size) es
          keys)

  record_size :
      (offset : ℕ) (e : StructEntry)
      → offset + length (encode (entry e)) < 2 ^ 63
      → add64 offset (pending_record column offset e).record_size
        ≡ offset + length (encode (entry e))
  unfolding pending_record
  record_size offset e small = omega (arith, length-encode (entry e))

  -- `nextAppendOffset` comes to stand behind the last record.
  pub next_append_offset :
      (offset : ℕ) (es : List StructEntry)
      → offset + length (encode_all (entries_of column es)) < 2 ^ 63
      → (pending_records column offset es).1 ≡ offset + length (encode_all (entries_of column es))
  unfolding pending_records
  next_append_offset offset [] small = omega arith
  next_append_offset offset (e ∷ es) small =
      let all = length-append (encode (entry e)) (encode_all (entries_of column es)) in
      ap (λ o. (pending_records column o es).1) (record_size offset e (omega (arith, all)))
      ∙ next_append_offset (offset + length (encode (entry e))) es (omega (arith, all))
      ∙ omega (arith, all)

  written :
      (e : StructEntry) (body after : List ℕ) (offset : ℕ)
      → length body ≡ offset
      → length e.key < u32
      → offset + length (encode (entry e)) < 2 ^ 63
      → Written
          (body ++ (encode (entry e) ++ after))
          column
          (pending_record column offset e)
          (entry e)
  unfolding pending_record
  written e body after offset place key small = record {
    at = record {
      before = body;
      after = after;
      split = refl;
      place = place;
      fits = record {
        column_fits = fits;
        key_fits = key;
        value_fits = omega (arith, length-encode (entry e));
      };
    };
    is_column = refl;
    is_key = refl;
    is_hash = refl;
  }

  -- Each record stands where its offset says.
  pub pending_records-AllWritten :
      (es : List StructEntry) (body after : List ℕ) (offset : ℕ)
      → length body ≡ offset
      → KeysFit es
      → offset + length (encode_all (entries_of column es)) < 2 ^ 63
      → AllWritten
          (body ++ (encode_all (entries_of column es) ++ after))
          column
          (pending_records column offset es).0
          (entries_of column es)
  unfolding pending_records
  pending_records-AllWritten [] body after offset place keys small = tt
  pending_records-AllWritten (e ∷ es) body after offset place (key, keys) small =
      let bytes = encode (entry e) in
      let more = encode_all (entries_of column es) in
      let all = length-append bytes more in
      let step = record_size offset e (omega (arith, all)) in
      let first = written e body (more ++ after) offset place key (omega (arith, all)) in
      let rest =
        pending_records-AllWritten es (body ++ bytes) after (offset + length bytes)
          (omega (arith, length-append body bytes, place)) keys (omega (arith, all)) in
      (
        subst (λ f. Written f column (pending_record column offset e) (entry e))
            (ap (λ r. body ++ r) (sym (append_assoc bytes more after))) first,
        subst
            (λ o.
              AllWritten (body ++ ((bytes ++ more) ++ after)) column (pending_records column o es).0
                (entries_of column es))
            (sym step)
            (subst
              (λ f.
                AllWritten f column (pending_records column (offset + length bytes) es).0
                  (entries_of column es))
              (append_assoc body bytes (more ++ after)
                ∙ ap (λ r. body ++ r) (sym (append_assoc bytes more after)))
              rest),
      )
