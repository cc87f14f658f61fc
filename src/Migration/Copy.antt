-- ===== src/Migration/Copy.antt =====
-- What the loop over `copyBuffer` copies.
use lumodb.Base.{
  ℕ, zero, suc, ◌+◌, ◌-◌, ◌^◌, ◌<◌, ◌≡◌, sym, ap, ◌∙◌, min, List, [], ◌∷◌, ◌++◌, append_assoc,
  append-nil, arith, ◌==◌, ==-ne, length, length-append, length-take, length-drop, take, drop,
  take-append-drop, if_false,
}
use lumodb.Base.Words.{add64}
use lumodb.Status.{ok, on_ok}
use lumodb.File.{Device, Reads, Writes}
use lumodb.File.Contents.{read_all_at-piece, write_all_at-end}
use lumodb.Migration.{copy_buffer_size, write_chunk, copy_from}

module _ (dev : Device) (reads : Reads dev) (writes : Writes dev) (source after : List ℕ) where
  pub copy_from-copies :
      (fuel : ℕ) (before piece : List ℕ) (remaining source_offset target_offset : ℕ)
      (target : List ℕ)
      → source ≡ before ++ (piece ++ after)
      → length before ≡ source_offset
      → length piece ≡ remaining
      → length target ≡ target_offset
      → remaining < fuel
      → length source < 2 ^ 63
      → target_offset + remaining < 2 ^ 63
      → copy_from fuel dev source remaining source_offset target_offset target
        ≡ (target ++ piece, ok tt)
  unfolding copy_from write_chunk
  copy_from-copies zero before piece remaining so to target split place size at_end enough small
        fits =
      absurd (omega arith)
  copy_from-copies (suc fuel) before [] remaining so to target split place size at_end enough small
        fits =
      rw (sym size) (ap (λ t. (t, ok tt)) (sym (append-nil target)))
  copy_from-copies (suc fuel) before (b ∷ bs) remaining so to target split place size at_end enough
        small fits =
      let chunk = min remaining copy_buffer_size in
      let piece = b ∷ bs in
      let first = take chunk piece in
      let rest = drop chunk piece in
      let whole : first ++ rest ≡ piece = take-append-drop chunk piece in
      let first_size : length first ≡ chunk = length-take chunk piece (omega (arith, size)) in
      let sizes : length source ≡ so + remaining + length after = omega (
        arith,
        ap (length {0}) split,
        length-append before (piece ++ after),
        length-append piece after,
        size,
        place,
      ) in
      let split' : source ≡ before ++ (first ++ (rest ++ after)) =
        split
        ∙ ap (λ p. before ++ (p ++ after)) (sym whole)
        ∙ ap (λ x. before ++ x) (append_assoc first rest after) in
      if_false (remaining == 0) _ _ (==-ne remaining 0 (omega (arith, size)))
      ∙ ap
          (λ r.
            write_chunk dev target to r
              (copy_from fuel dev source (remaining - chunk) (add64 so chunk) (add64 to chunk)))
          (read_all_at-piece dev source before first (rest ++ after) chunk so reads split' place
            first_size small)
      ∙ ap
          (λ a.
            on_ok a
              (copy_from fuel dev source (remaining - chunk) (add64 so chunk) (add64 to chunk)))
          (write_all_at-end dev target first to writes at_end (omega (arith, fits)))
      ∙ copy_from-copies fuel (before ++ first) rest (remaining - chunk) (add64 so chunk)
          (add64 to chunk) (target ++ first)
          (split' ∙ sym (append_assoc before first (rest ++ after)))
          (omega (arith, length-append before first, first_size, place, sizes, small))
          (omega (arith, length-drop chunk piece, size))
          (omega (arith, length-append target first, first_size, at_end, fits))
          (omega (arith, enough, size)) small (omega (arith, fits))
      ∙ ap (λ t. (t, ok tt)) (append_assoc target first rest ∙ ap (λ p. target ++ p) whole)
