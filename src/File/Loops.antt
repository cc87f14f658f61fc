-- ===== src/File/Loops.antt =====
-- The loops of `ReadAllAt` and `WriteVAllAt` against the kernel's answers to their calls, one after
-- the other: short counts, interruptions and errors. `none` waits for a further answer.
pub mod Reading
pub mod Writing
use lumodb.Base.{
  ℕ, ◌+◌, ◌-◌, ◌≤◌, min, Bool, true, false, Option, none, some, List, [], ◌∷◌, ◌++◌, ltb, leb, ◌==◌,
  length, take, drop, if◌then◌else◌, ◌^◌,
}
use lumodb.Base.Words.{add64}
use lumodb.Status.{Result, Act, ok, err, fault, corruption, io_error}
use lumodb.File.{write_at}

-- What `pread` and `pwritev` say: a count, of which no more are moved than the call asks for and,
-- reading, the file has; EINTR; or another error.
pub data Answer : Type 0 where
  moved : ℕ → Answer
  interrupted refused : Answer

-- The bytes of one call go before those of the calls to come.
abbrev pub behind : List ℕ → Option (Result (List ℕ)) → Option (Result (List ℕ))
behind bytes none = none
behind bytes (some (ok rest)) = some (ok (bytes ++ rest))
behind bytes (some (err c m)) = some (err c m)
behind bytes (some (fault x)) = some (fault x)

-- The end of a round of `ReadAllAt`, by what `pread` read.
abbrev pub after_read : List ℕ → Option (Result (List ℕ)) → Option (Result (List ℕ))
after_read [] rest = some (err corruption "unexpected end of file")
after_read (b ∷ bs) rest = behind (b ∷ bs) rest

-- `ReadAllAt`
unfoldable pub read_loop : List Answer → List ℕ → ℕ → ℕ → Option (Result (List ℕ))
read_loop [] file remaining offset = if remaining == 0 then some (ok []) else none
read_loop (interrupted ∷ answers) file remaining offset =
    let rest = read_loop answers file remaining offset in
    if remaining == 0 then some (ok []) else rest
read_loop (refused ∷ answers) file remaining offset =
    if remaining == 0 then some (ok []) else some (err io_error "pread")
read_loop (moved count ∷ answers) file remaining offset =
    let bytes = take (min count remaining) (drop offset file) in
    let n = length bytes in
    let rest = read_loop answers file (remaining - n) (add64 offset n) in
    if remaining == 0 then some (ok []) else after_read bytes rest

abbrev pub flatten : List (List ℕ) → List ℕ
flatten [] = []
flatten (v ∷ vs) = v ++ flatten vs

-- `while (consumed > 0)` of `WriteVAllAt`: what is left of the vectors.
unfoldable pub consume : ℕ → List (List ℕ) → List (List ℕ)
consume consumed [] = []
consume consumed (v ∷ vs) =
    let rest = consume (consumed - length v) vs in
    if consumed == 0 then v ∷ vs else if ltb consumed (length v) then drop consumed v ∷ vs else rest

-- The vectors of nonempty slices.
unfoldable pub nonempty : List (List ℕ) → List (List ℕ)
nonempty [] = []
nonempty ([] ∷ slices) = nonempty slices
nonempty ((b ∷ bs) ∷ slices) = (b ∷ bs) ∷ nonempty slices

-- The end of a round of `WriteVAllAt`, by what `pwritev` wrote.
abbrev pub after_write : List ℕ → ℕ → Option (Act (List ℕ)) → Option (Act (List ℕ))
after_write file written rest =
    if written == 0 then some (file, err io_error "pwritev wrote zero bytes") else rest

-- The loop of `WriteVAllAt`, with `max_vectors` vectors to a call at most.
unfoldable pub write_v_loop : List Answer → ℕ → List ℕ → List (List ℕ) → ℕ → Option (Act (List ℕ))
unfolding consume
write_v_loop answers max_vectors file [] offset = some (file, ok tt)
write_v_loop [] max_vectors file (v ∷ vs) offset = none
write_v_loop (interrupted ∷ answers) max_vectors file (v ∷ vs) offset =
    write_v_loop answers max_vectors file (v ∷ vs) offset
write_v_loop (refused ∷ answers) max_vectors file (v ∷ vs) offset =
    some (file, err io_error "pwritev")
write_v_loop (moved count ∷ answers) max_vectors file (v ∷ vs) offset =
    let bytes = take count (flatten (take max_vectors (v ∷ vs))) in
    let written = length bytes in
    let rest =
      write_v_loop answers max_vectors (write_at file offset bytes) (consume written (v ∷ vs))
        (add64 offset written) in
    after_write file written rest
