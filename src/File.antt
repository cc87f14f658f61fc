-- ===== src/File.antt =====
-- src/lumodb/file.cpp: positioned reads and writes of whole ranges. A file is the list of its
-- bytes. The kernel's calls are a parameter: what one run of an operation gets from them.
pub mod Contents
pub mod Loops
use lumodb.Base.{
  ℕ, ◌+◌, ◌-◌, ◌^◌, ◌≡◌, Bool, false, Option, none, some, List, [], ◌∷◌, ◌++◌, ltb, leb, ◌==◌,
  length, take, drop, replicate, if◌then◌else◌,
}
use lumodb.Status.{Result, Act, ok, err, corruption, io_error}

-- The outcomes of the kernel's calls, by their sizes and offsets.
pub record Device : Type 0 where
  -- `pread` meets an error other than EINTR on the way through the range
  pub read_fails : ℕ → ℕ → Bool
  -- `pwritev` meets one after so many bytes of the range
  pub write_stops : ℕ → ℕ → Option ℕ
  -- `ftruncate` and `mmap` to a size
  pub truncate_fails : ℕ → Bool
  pub map_fails : ℕ → Bool
  -- `fstat`
  pub stat_fails : Bool

-- No read meets an error.
abbrev pub Reads : Device → Type 0
Reads dev = (size offset : ℕ) → dev.read_fails size offset ≡ false

-- No write meets an error.
abbrev pub Writes : Device → Type 0
Writes dev = (size offset : ℕ) → dev.write_stops size offset ≡ none

-- What `ReadAllAt` leaves in its buffer: all of the range, or an error. An `off_t` is signed, so
-- an offset from 2 ^ 63 on is refused by `pread`.
unfoldable pub read_all_at : Device → List ℕ → ℕ → ℕ → Result (List ℕ)
read_all_at dev file size offset =
    if size == 0
    then ok []
    else if leb (2 ^ 63) offset
    then err io_error "pread"
    else if dev.read_fails size offset
    then err io_error "pread"
    else if ltb (length file) (offset + size)
    then err corruption "unexpected end of file"
    else ok (take size (drop offset file))

-- The file after `bytes` are written from `offset` on; a gap behind its end is filled with zeros.
unfoldable pub write_at : List ℕ → ℕ → List ℕ → List ℕ
write_at file offset bytes =
    take offset (file ++ replicate (offset - length file) 0)
    ++ (bytes ++ drop (offset + length bytes) file)

-- `WriteVAllAt` of slices that hold `bytes` together: the file after it, and its status. A write
-- that meets an error has written a part of the bytes.
unfoldable pub write_v_all_at : Device → List ℕ → ℕ → List ℕ → Act (List ℕ)
unfolding write_at
write_v_all_at dev file offset [] = (file, ok tt)
write_v_all_at dev file offset (b ∷ bs) =
    if leb (2 ^ 63) offset
    then (file, err io_error "pwritev")
    else elim (dev.write_stops (length (b ∷ bs)) offset) [
      | none ↦ (write_at file offset (b ∷ bs), ok tt)
      | some written ↦ (write_at file offset (take written (b ∷ bs)), err io_error "pwritev")
    ]

-- `WriteAllAt`: the same with `pwrite` on one buffer.
unfoldable pub write_all_at : Device → List ℕ → ℕ → List ℕ → Act (List ℕ)
unfolding write_at
write_all_at dev file offset [] = (file, ok tt)
write_all_at dev file offset (b ∷ bs) =
    if leb (2 ^ 63) offset
    then (file, err io_error "pwrite")
    else elim (dev.write_stops (length (b ∷ bs)) offset) [
      | none ↦ (write_at file offset (b ∷ bs), ok tt)
      | some written ↦ (write_at file offset (take written (b ∷ bs)), err io_error "pwrite")
    ]
