-- ===== src/Tests/Calls.antt =====
-- A read and a write that the kernel cuts into pieces.
use lumodb.Base.{ℕ, ◌≡◌, refl, some, List, [], ◌∷◌, arith}
use lumodb.Status.{ok}
use lumodb.File.{read_all_at, write_at, write_v_all_at}
use lumodb.File.Loops.{
  Answer, moved, interrupted, read_loop, write_v_loop, nonempty, consume, flatten,
}
use lumodb.File.Loops.Reading.{read_loop-read_all_at}
use lumodb.File.Loops.Writing.{write_v_loop-write_v_all_at}
use lumodb.Tests.Fixture.{device, device-Works}

abbrev answers : List Answer
answers = moved 2 ∷ interrupted ∷ moved 1 ∷ moved 5 ∷ moved 1 ∷ []

abbrev bytes : List ℕ
bytes = 1 ∷ 2 ∷ 3 ∷ 4 ∷ []

abbrev slices : List (List ℕ)
slices = (5 ∷ 6 ∷ []) ∷ [] ∷ (7 ∷ 8 ∷ []) ∷ []

read_loop-read_all_at_example : read_loop answers bytes 3 1 ≡ some (read_all_at device bytes 3 1)
read_loop-read_all_at_example =
    read_loop-read_all_at bytes (omega arith) device device-Works.reads answers 3 1
      (omega arith, (omega arith, (omega arith, (omega arith, tt)))) (omega arith) (omega arith)

write_v_loop-write_v_all_at_example :
    write_v_loop answers 2 bytes (nonempty slices) 3
    ≡ some (write_v_all_at device bytes 3 (flatten slices))
write_v_loop-write_v_all_at_example =
    write_v_loop-write_v_all_at 1 device device-Works.writes answers bytes slices 3
      (omega arith, (omega arith, (omega arith, (omega arith, tt)))) (omega arith) (omega arith)
      (omega arith)

-- Two bytes of a read, and a cut in the middle of a slice.
read_loop_run : read_loop (moved 2 ∷ moved 9 ∷ []) bytes 3 1 ≡ some (ok (2 ∷ 3 ∷ 4 ∷ []))
unfolding read_loop
read_loop_run = refl

write_v_loop_run :
    write_v_loop answers 2 bytes (nonempty slices) 3 ≡ some (1 ∷ 2 ∷ 3 ∷ 5 ∷ 6 ∷ 7 ∷ 8 ∷ [], ok tt)
unfolding write_v_loop nonempty consume write_at
write_v_loop_run = refl
