-- ===== src/File/Loops/Writing.antt =====
-- `WriteVAllAt` writes the same bytes however the kernel cuts the vectors.
use lumodb.Base.{
  ℕ, zero, suc, ◌+◌, ◌-◌, ◌^◌, ◌≤◌, ◌<◌, ◌≡◌, refl, sym, ap, ap₂, ◌∙◌, some, List, [], ◌∷◌, ◌++◌,
  append_assoc, arith, ltb-true, ltb-false, ◌==◌, ==-ne, dec_lt, length, length-append, length-take,
  length-drop, take, drop, drop-append, take-append-drop, if_false, ℕ_discrete,
}
use lumodb.Base.Words.{add64}
use lumodb.Status.{ok}
use lumodb.File.{Device, Writes, write_v_all_at}
use lumodb.File.Contents.{write_at-append, write_v_all_at-append, drop-append_left}
use lumodb.File.Loops.{
  Answer, moved, interrupted, refused, flatten, consume, nonempty, write_v_loop,
}
use lumodb.File.Loops.Reading.{Moves, moves, drop-drop, length-take-min}

abbrev AllFull : List (List ℕ) → Type 0
AllFull [] = Unit {0}
AllFull (v ∷ vs) = (0 < length v) × AllFull vs

drop_short : (n : ℕ) (xs ys : List ℕ) → n ≤ length xs → drop n (xs ++ ys) ≡ drop n xs ++ ys
drop_short zero xs ys h = refl
drop_short (suc n) [] ys h = absurd (omega arith)
drop_short (suc n) (x ∷ xs) ys h = drop_short n xs ys (omega arith)

-- What is left after `consumed` bytes of the vectors are written.
consume-drop :
    (consumed : ℕ) (vs : List (List ℕ))
    → AllFull vs
    → consumed ≤ length (flatten vs)
    → (flatten (consume consumed vs) ≡ drop consumed (flatten vs)) × AllFull (consume consumed vs)
unfolding consume
consume-drop consumed [] full h =
    (let z : consumed ≡ 0 = omega arith in ap (λ n. drop n []) (sym z), tt)
consume-drop consumed (v ∷ vs) (pos, full) h = elim (ℕ_discrete consumed 0) [
  | yes z ↦ rw z (refl, (pos, full))
  | no nz ↦ rw (==-ne consumed 0 nz) (elim (dec_lt consumed (length v)) [
    | yes short ↦ rw (ltb-true consumed (length v) short) (
      sym (drop_short consumed v (flatten vs) (omega arith)),
      (omega (arith, length-drop consumed v), full),
    )
    | no long ↦
        let (same, full') =
          consume-drop (consumed - length v) vs full
            (omega (arith, length-append v (flatten vs))) in
        let split : length v + (consumed - length v) ≡ consumed = omega arith in
        rw (ltb-false consumed (length v) (omega arith)) (
          same
              ∙ sym (drop-append_left (length v) v (flatten vs) refl (consumed - length v))
              ∙ ap (λ n. drop n (v ++ flatten vs)) split,
          full',
        )
  ])
]

flatten-split :
    (n : ℕ) (vs : List (List ℕ)) → flatten vs ≡ flatten (take n vs) ++ flatten (drop n vs)
flatten-split zero vs = refl
flatten-split (suc n) [] = refl
flatten-split (suc n) (v ∷ vs) =
    ap (λ l. v ++ l) (flatten-split n vs)
    ∙ sym (append_assoc v (flatten (take n vs)) (flatten (drop n vs)))

no_vectors :
    (answers : List Answer) (max_vectors : ℕ) (file : List ℕ) (offset : ℕ)
    → write_v_loop answers max_vectors file [] offset ≡ some (file, ok tt)
unfolding write_v_loop
no_vectors [] max_vectors file offset = refl
no_vectors (moved count ∷ answers) max_vectors file offset = refl
no_vectors (interrupted ∷ answers) max_vectors file offset = refl
no_vectors (refused ∷ answers) max_vectors file offset = refl

-- Bytes that stand before others, and where the others then go.
rejoin :
    (before bytes tail rest : List ℕ)
    → (before ++ bytes) ++ (tail ++ drop (length tail) (drop (length bytes) rest))
      ≡ before ++ ((bytes ++ tail) ++ drop (length (bytes ++ tail)) rest)
rejoin before bytes tail rest =
    ap (λ l. (before ++ bytes) ++ (tail ++ l))
      (drop-drop (length bytes) (length tail) rest
        ∙ ap (λ n. drop n rest) (sym (length-append bytes tail)))
    ∙ simp append_assoc

module _ (max_vectors : ℕ) where
  write_v_loop-append :
      (answers : List Answer) (before rest : List ℕ) (vectors : List (List ℕ)) (offset : ℕ)
      → Moves answers
      → length (flatten vectors) ≤ moves answers
      → AllFull vectors
      → length before ≡ offset
      → offset + length (flatten vectors) < 2 ^ 63
      → write_v_loop answers (suc max_vectors) (before ++ rest) vectors offset
        ≡ some (before ++ (flatten vectors ++ drop (length (flatten vectors)) rest), ok tt)
  unfolding write_v_loop
  write_v_loop-append answers before rest [] offset m enough full place small =
      no_vectors answers (suc max_vectors) (before ++ rest) offset
  write_v_loop-append [] before rest (v ∷ vs) offset m enough (pos, full) place small =
      absurd (omega (arith, length-append v (flatten vs)))
  write_v_loop-append (refused ∷ answers) before rest (v ∷ vs) offset m enough full place small =
      absurd m
  write_v_loop-append (interrupted ∷ answers) before rest (v ∷ vs) offset m enough full place
        small =
      write_v_loop-append answers before rest (v ∷ vs) offset m enough full place small
  write_v_loop-append (moved count ∷ answers) before rest (v ∷ vs) offset (some_count, m) enough
        (pos, full) place small =
      let all = flatten (v ∷ vs) in
      let batch = v ++ flatten (take max_vectors vs) in
      let bytes = take count batch in
      let tail = drop count batch ++ flatten (drop max_vectors vs) in
      let whole : bytes ++ tail ≡ all =
        sym (append_assoc bytes (drop count batch) (flatten (drop max_vectors vs)))
        ∙ ap (λ l. l ++ flatten (drop max_vectors vs)) (take-append-drop count batch)
        ∙ sym (flatten-split (suc max_vectors) (v ∷ vs)) in
      let n = length bytes in
      let some_bytes : 0 < n = omega (
        arith,
        length-take-min count batch,
        length-append v (flatten (take max_vectors vs)),
        pos,
        some_count,
      ) in
      let sizes : n + length tail ≡ length all =
        sym (length-append bytes tail) ∙ ap (length {0}) whole in
      let (left, full') = consume-drop n (v ∷ vs) (pos, full) (omega (arith, sizes)) in
      let is_tail : flatten (consume n (v ∷ vs)) ≡ tail =
        left ∙ ap (drop n) (sym whole) ∙ drop-append n bytes tail refl in
      let tail_size : length (flatten (consume n (v ∷ vs))) ≡ length tail =
        ap (length {0}) is_tail in
      let next : add64 offset n ≡ offset + n = omega (arith, sizes, small) in
      if_false (n == 0) _ _ (==-ne n 0 (omega arith))
      ∙ ap₂ (λ f o. write_v_loop answers (suc max_vectors) f (consume n (v ∷ vs)) o)
          (write_at-append before rest bytes offset place
            ∙ sym (append_assoc before bytes (drop n rest)))
          next
      ∙ write_v_loop-append answers (before ++ bytes) (drop n rest) (consume n (v ∷ vs))
          (offset + n) m (omega (arith, tail_size, sizes, enough, some_bytes)) full'
          (omega (arith, length-append before bytes, place))
          (omega (arith, tail_size, sizes, small))
      ∙ ap (λ t. some ((before ++ bytes) ++ (t ++ drop (length t) (drop n rest)), ok tt)) is_tail
      ∙ ap (λ l. some (l, ok tt)) (rejoin before bytes tail rest)
      ∙ ap (λ t. some (before ++ (t ++ drop (length t) rest), ok tt)) whole

  nonempty-flatten :
      (slices : List (List ℕ))
      → (flatten (nonempty slices) ≡ flatten slices) × AllFull (nonempty slices)
  unfolding nonempty
  nonempty-flatten [] = (refl, tt)
  nonempty-flatten ([] ∷ slices) = nonempty-flatten slices
  nonempty-flatten ((b ∷ bs) ∷ slices) =
      let (same, full) = nonempty-flatten slices in
      (ap (λ l. (b ∷ bs) ++ l) same, (omega arith, full))

  -- If no call meets an error, every call that is not interrupted writes a byte at least, and there
  -- are as many of them as bytes to write, then the loop of `WriteVAllAt` ends with what one uncut
  -- write of the slices gives, however many vectors a call may take, if that is one at least. The
  -- write begins in the file or at its end, and stays below 2 ^ 63.
  pub write_v_loop-write_v_all_at :
      (dev : Device)
      → Writes dev
      → (answers : List Answer) (file : List ℕ) (slices : List (List ℕ)) (offset : ℕ)
      → Moves answers
      → length (flatten slices) ≤ moves answers
      → offset ≤ length file
      → offset + length (flatten slices) < 2 ^ 63
      → write_v_loop answers (suc max_vectors) file (nonempty slices) offset
        ≡ some (write_v_all_at dev file offset (flatten slices))
  write_v_loop-write_v_all_at dev writes answers file slices offset m enough inside small =
      let (same, full) = nonempty-flatten slices in
      let before = take offset file in
      let rest = drop offset file in
      let cut = take-append-drop offset file in
      let place : length before ≡ offset = length-take offset file inside in
      let size = ap (length {0}) same in
      ap (λ f. write_v_loop answers (suc max_vectors) f (nonempty slices) offset) (sym cut)
      ∙ write_v_loop-append answers before rest (nonempty slices) offset m
          (omega (arith, size, enough)) full place (omega (arith, size, small))
      ∙ ap (λ t. some (before ++ (t ++ drop (length t) rest), ok tt)) same
      ∙ ap some (
          sym (
            write_v_all_at-append dev before rest (flatten slices) offset writes place
              (omega (arith, small))))
      ∙ ap (λ f. some (write_v_all_at dev f offset (flatten slices))) cut
