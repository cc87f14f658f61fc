-- ===== src/File/Contents.antt =====
-- What reads give back of a file, and what writes leave of it.
use lumodb.Base.{
  ℕ, zero, suc, ◌+◌, ◌-◌, ◌^◌, ◌≤◌, ◌<◌, ◌≡◌, ◌≢◌, some, inl, inr, refl, sym, ap, ◌∙◌, false, List,
  [], ◌∷◌, ◌++◌, append_assoc, arith, leb, ◌==◌, length, take, drop, length-append, take-append,
  Bool-cases, ==-eq, append-nil, slice-append,
}
use lumodb.Status.{ok, err, io_error}
use lumodb.File.{Device, Reads, Writes, read_all_at, write_at, write_v_all_at, write_all_at}

take_zero : (n : ℕ) (l : List ℕ) → n ≡ 0 → take n l ≡ []
take_zero zero l h = refl
take_zero (suc n) l h = absurd (omega arith)

-- A range inside the file is read whole.
pub read_all_at-inside :
    (dev : Device) (file : List ℕ) (size offset : ℕ)
    → Reads dev
    → offset + size ≤ length file
    → length file < 2 ^ 63
    → read_all_at dev file size offset ≡ ok (take size (drop offset file))
unfolding read_all_at
read_all_at-inside dev file size offset reads inside small = elim (Bool-cases (size == 0)) [
  | inl z ↦ rw z (ap ok (sym (take_zero size (drop offset file) (==-eq size 0 z))))
  | inr nz ↦ ground (arith, reads size offset)
]

drop_past : (n : ℕ) (l : List ℕ) → length l ≤ n → drop n l ≡ []
drop_past zero [] h = refl
drop_past zero (x ∷ l) h = absurd (omega arith)
drop_past (suc n) [] h = refl
drop_past (suc n) (x ∷ l) h = drop_past n l (omega arith)

pub drop-append_left :
    (n : ℕ) (xs ys : List ℕ) → n ≡ length xs → (m : ℕ) → drop (n + m) (xs ++ ys) ≡ drop m ys
drop-append_left n [] ys h m = ap (λ k. drop k ys) (let e : n + m ≡ m = omega arith in e)
drop-append_left n (x ∷ xs) ys h m =
    ap (λ k. drop k (x ∷ (xs ++ ys))) (let e : n + m ≡ suc (n - 1 + m) = omega arith in e)
    ∙ drop-append_left (n - 1) xs ys (omega arith) m

-- A write from the end of `before` on leaves `before` alone, whatever stood behind it.
pub write_at-append :
    (before rest bytes : List ℕ) (offset : ℕ)
    → length before ≡ offset
    → write_at (before ++ rest) offset bytes ≡ before ++ (bytes ++ drop (length bytes) rest)
unfolding write_at
write_at-append before rest bytes offset e =
    rw (
      pad,
      append_assoc,
      take-append offset before _ e,
      drop-append_left offset before rest (sym e),
    )
  where
    pad : offset - length (before ++ rest) ≡ 0
    pad = omega (arith, length-append before rest)

-- A write that meets no error puts the bytes behind `before`.
pub write_v_all_at-append :
    (dev : Device) (before rest bytes : List ℕ) (offset : ℕ)
    → Writes dev
    → length before ≡ offset
    → offset < 2 ^ 63
    → write_v_all_at dev (before ++ rest) offset bytes
      ≡ (before ++ (bytes ++ drop (length bytes) rest), ok tt)
unfolding write_v_all_at
write_v_all_at-append dev before rest [] offset writes e small = refl
write_v_all_at-append dev before rest (b ∷ bs) offset writes e small =
    let low : leb (2 ^ 63) offset ≡ false = ground arith in
    rw (low, writes (length (b ∷ bs)) offset)
      (ap (λ f. (f, ok tt)) (write_at-append before rest (b ∷ bs) offset e))

-- A write that is stopped has put a part of the bytes behind `before`.
pub write_v_all_at-stopped :
    (dev : Device) (before rest bytes : List ℕ) (offset k : ℕ)
    → ((size o : ℕ) → dev.write_stops size o ≡ some k)
    → length before ≡ offset
    → offset < 2 ^ 63
    → bytes ≢ []
    → write_v_all_at dev (before ++ rest) offset bytes
      ≡ (before ++ (take k bytes ++ drop (length (take k bytes)) rest), err io_error "pwritev")
unfolding write_v_all_at
write_v_all_at-stopped dev before rest [] offset k stops e small some_bytes =
    absurd (some_bytes refl)
write_v_all_at-stopped dev before rest (b ∷ bs) offset k stops e small some_bytes =
    let low : leb (2 ^ 63) offset ≡ false = ground arith in
    rw (low, stops (length (b ∷ bs)) offset)
      (ap (λ f. (f, err io_error "pwritev"))
        (write_at-append before rest (take k (b ∷ bs)) offset e))

-- A piece of the file is read by its place and its length.
pub read_all_at-piece :
    (dev : Device) (file before piece after : List ℕ) (size offset : ℕ)
    → Reads dev
    → file ≡ before ++ (piece ++ after)
    → length before ≡ offset
    → length piece ≡ size
    → length file < 2 ^ 63
    → read_all_at dev file size offset ≡ ok piece
read_all_at-piece dev file before piece after size offset reads split place len small =
    read_all_at-inside dev file size offset reads
      (omega (
        arith,
        ap (length {0}) split,
        length-append before (piece ++ after),
        length-append piece after,
        place,
        len,
      ))
      small
    ∙ ap (λ f. ok (take size (drop offset f))) split
    ∙ ap ok (slice-append size offset before piece after place len)

-- `WriteAllAt` at the end of a file appends.
pub write_all_at-end :
    (dev : Device) (file bytes : List ℕ) (offset : ℕ)
    → Writes dev
    → length file ≡ offset
    → offset < 2 ^ 63
    → write_all_at dev file offset bytes ≡ (file ++ bytes, ok tt)
unfolding write_all_at
write_all_at-end dev file [] offset writes e small = ap (λ f. (f, ok tt)) (sym (append-nil file))
write_all_at-end dev file (b ∷ bs) offset writes e small =
    let low : leb (2 ^ 63) offset ≡ false = ground arith in
    rw (low, writes (length (b ∷ bs)) offset)
      (ap (λ f. (f, ok tt))
        (ap (λ f. write_at f offset (b ∷ bs)) (sym (append-nil file))
          ∙ write_at-append file [] (b ∷ bs) offset e
          ∙ ap (λ t. file ++ t) (append-nil (b ∷ bs))))
