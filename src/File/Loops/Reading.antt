-- ===== src/File/Loops/Reading.antt =====
-- `ReadAllAt` reads the same bytes however the kernel cuts the range.
use lumodb.Base.{
  ℕ, zero, suc, ◌+◌, ◌-◌, ◌^◌, ◌≤◌, ◌<◌, ◌≡◌, refl, sym, ap, ◌∙◌, min, Option, some, List, [], ◌∷◌,
  ◌++◌, arith, ◌==◌, ==-ne, dec_lt, length, length-drop, take, drop, if_false, ℕ_discrete,
}
use lumodb.Base.Words.{add64}
use lumodb.Status.{Result, ok, err, corruption}
use lumodb.File.{Device, Reads, read_all_at}
use lumodb.File.Loops.{Answer, moved, interrupted, refused, behind, after_read, read_loop}

-- No call meets an error, and a call that is not interrupted moves a byte at least.
abbrev pub Moves : List Answer → Type 0
Moves [] = Unit {0}
Moves (moved count ∷ answers) = (0 < count) × Moves answers
Moves (interrupted ∷ answers) = Moves answers
Moves (refused ∷ answers) = ⊥

-- How many calls are not interrupted.
abbrev pub moves : List Answer → ℕ
moves [] = 0
moves (moved count ∷ answers) = suc (moves answers)
moves (interrupted ∷ answers) = moves answers
moves (refused ∷ answers) = moves answers

drop-nil : (n : ℕ) → drop {A = ℕ} n [] ≡ []
drop-nil zero = refl
drop-nil (suc n) = refl

take-nil : (n : ℕ) → take {A = ℕ} n [] ≡ []
take-nil zero = refl
take-nil (suc n) = refl

pub drop-drop : (n m : ℕ) (xs : List ℕ) → drop m (drop n xs) ≡ drop (n + m) xs
drop-drop zero m xs = ap (λ k. drop k xs) (let e : m ≡ 0 + m = omega arith in e)
drop-drop (suc n) m [] = drop-nil m ∙ sym (drop-nil (suc n + m))
drop-drop (suc n) m (x ∷ xs) =
    drop-drop n m xs
    ∙ ap (λ k. drop k (x ∷ xs)) (let e : suc (n + m) ≡ suc n + m = omega arith in e)

take-split : (n m : ℕ) (xs : List ℕ) → take n xs ++ take m (drop n xs) ≡ take (n + m) xs
take-split zero m xs = ap (λ k. take k xs) (let e : m ≡ 0 + m = omega arith in e)
take-split (suc n) m [] = take-nil m ∙ sym (take-nil (suc n + m))
take-split (suc n) m (x ∷ xs) =
    ap (λ l. x ∷ l) (take-split n m xs)
    ∙ ap (λ k. take k (x ∷ xs)) (let e : suc (n + m) ≡ suc n + m = omega arith in e)

pub length-take-min : (n : ℕ) (xs : List ℕ) → length (take n xs) ≡ min n (length xs)
length-take-min zero xs = omega arith
length-take-min (suc n) [] = omega arith
length-take-min (suc n) (x ∷ xs) = omega (arith, length-take-min n xs)

after_read-behind :
    (bytes : List ℕ) (rest : Option (Result (List ℕ)))
    → 0 < length bytes
    → after_read bytes rest ≡ behind bytes rest
after_read-behind [] rest h = absurd (omega arith)
after_read-behind (b ∷ bs) rest h = refl

after_read-end :
    (bytes : List ℕ) (rest : Option (Result (List ℕ)))
    → length bytes ≡ 0
    → after_read bytes rest ≡ some (err corruption "unexpected end of file")
after_read-end [] rest h = refl
after_read-end (b ∷ bs) rest h = absurd (omega arith)

nothing_asked :
    (answers : List Answer) (file : List ℕ) (offset : ℕ)
    → read_loop answers file 0 offset ≡ some (ok [])
unfolding read_loop
nothing_asked [] file offset = refl
nothing_asked (moved count ∷ answers) file offset = refl
nothing_asked (interrupted ∷ answers) file offset = refl
nothing_asked (refused ∷ answers) file offset = refl

module _ (file : List ℕ) (small : length file < 2 ^ 63) where
  read_loop-inside :
      (answers : List Answer) (remaining offset : ℕ)
      → Moves answers
      → remaining ≤ moves answers
      → offset + remaining ≤ length file
      → read_loop answers file remaining offset ≡ some (ok (take remaining (drop offset file)))
  unfolding read_loop
  read_loop-inside answers zero offset m enough inside = nothing_asked answers file offset
  read_loop-inside [] (suc r) offset m enough inside = absurd (omega arith)
  read_loop-inside (refused ∷ answers) (suc r) offset m enough inside = absurd m
  read_loop-inside (interrupted ∷ answers) (suc r) offset m enough inside =
      if_false (suc r == 0) _ _ (==-ne (suc r) 0 (omega arith))
      ∙ read_loop-inside answers (suc r) offset m enough inside
  read_loop-inside (moved count ∷ answers) (suc r) offset (pos, m) enough inside =
      let n = min count (suc r) in
      let bytes = take n (drop offset file) in
      let size : length bytes ≡ n =
        omega (arith, length-take-min n (drop offset file), length-drop offset file, inside) in
      let whole : n + (suc r - n) ≡ suc r = omega arith in
      if_false (suc r == 0) _ _ (==-ne (suc r) 0 (omega arith))
      ∙ after_read-behind bytes _ (omega (arith, size, pos))
      ∙ ap (λ k. behind bytes (read_loop answers file (suc r - k) (add64 offset k))) size
      ∙ ap (behind bytes) (
          read_loop-inside answers (suc r - n) (add64 offset n) m (omega (arith, enough, pos))
            (omega (arith, inside, small)))
      ∙ ap (λ o. some (ok (bytes ++ take (suc r - n) (drop o file))))
          (let e : add64 offset n ≡ offset + n = omega (arith, inside, small) in e)
      ∙ ap (λ l. some (ok (bytes ++ take (suc r - n) l))) (sym (drop-drop offset n file))
      ∙ ap (λ l. some (ok l)) (take-split n (suc r - n) (drop offset file))
      ∙ ap (λ k. some (ok (take k (drop offset file)))) whole

  read_loop-beyond :
      (answers : List Answer) (remaining offset : ℕ)
      → Moves answers
      → remaining ≤ moves answers
      → 0 < remaining
      → offset < 2 ^ 63
      → length file < offset + remaining
      → read_loop answers file remaining offset ≡ some (err corruption "unexpected end of file")
  unfolding read_loop
  read_loop-beyond answers zero offset m enough pos low beyond = absurd (omega arith)
  read_loop-beyond [] (suc r) offset m enough pos low beyond = absurd (omega arith)
  read_loop-beyond (refused ∷ answers) (suc r) offset m enough pos low beyond = absurd m
  read_loop-beyond (interrupted ∷ answers) (suc r) offset m enough pos low beyond =
      if_false (suc r == 0) _ _ (==-ne (suc r) 0 (omega arith))
      ∙ read_loop-beyond answers (suc r) offset m enough pos low beyond
  read_loop-beyond (moved count ∷ answers) (suc r) offset (some_count, m) enough pos low beyond =
      let bytes = take (min count (suc r)) (drop offset file) in
      let n = length bytes in
      let size = length-take-min (min count (suc r)) (drop offset file) in
      let left = length-drop offset file in
      if_false (suc r == 0) _ _ (==-ne (suc r) 0 (omega arith)) ∙ elim (ℕ_discrete n 0) [
        | yes z ↦ after_read-end bytes _ z
        | no nz ↦
            after_read-behind bytes _ (omega arith)
            ∙ ap (behind bytes) (
                read_loop-beyond answers (suc r - n) (add64 offset n) m (omega (arith, enough))
                  (omega (arith, size, left, beyond)) (omega (arith, size, left, small, low))
                  (omega (arith, size, left, beyond, small, low)))
      ]

  -- If no call meets an error, every call that is not interrupted moves a byte at least, and there
  -- are as many of them as bytes are asked for, then the loop of `ReadAllAt` ends with what one
  -- uncut read gives: the bytes of the range, or the end of the file. The file and the offset are below 2 ^ 63.
  pub read_loop-read_all_at :
      (dev : Device)
      → Reads dev
      → (answers : List Answer) (size offset : ℕ) → Moves answers
      → size ≤ moves answers
      → offset < 2 ^ 63
      → read_loop answers file size offset ≡ some (read_all_at dev file size offset)
  unfolding read_all_at
  read_loop-read_all_at dev reads answers zero offset m enough low =
      nothing_asked answers file offset
  read_loop-read_all_at dev reads answers (suc size) offset m enough low =
      elim (dec_lt (length file) (offset + suc size)) [
        | yes beyond ↦
            read_loop-beyond answers (suc size) offset m enough (omega arith) low beyond
            ∙ ap some (sym (ground (arith, reads (suc size) offset)))
        | no inside ↦
            read_loop-inside answers (suc size) offset m enough (omega arith)
            ∙ ap some (sym (ground (arith, reads (suc size) offset)))
      ]
