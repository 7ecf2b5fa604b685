-- ===== src/Memfs/Content.antt =====
-- helpers/memfs/storage.go: content, the bytes of a file. They are a Go slice, whose array may go on
-- behind its end, and `append` writes there in place while there is room.
pub mod Bytes
pub mod Writes
pub mod Reads
use go_nfs.Base.{
  ℕ, ◌+◌, ◌-◌, ◌^◌, ◌≤◌, Bool, true, false, Option, none, some, List, [], ◌∷◌, ◌++◌, if◌then◌else◌,
  ltb, leb, length, take, drop, replicate,
}
use go_nfs.Errors.Chain.{Error, path_error, io_eof, other}

-- The array has as many elements as the slice has capacity.
pub record Slice : Type 0 where
  pub array : List ℕ
  pub size : ℕ

-- the elements that the program sees
unfoldable pub visible : Slice → List ℕ
visible s = take s.size s.array

-- what the array of an append has behind the new elements: in place, what was there, and in a new
-- array whatever the runtime allocates
unfoldable pub behind : List ℕ → ℕ → List ℕ → List ℕ
behind spare end array = if leb end (length array) then drop end array else spare

-- append(s, p...); `spare` is what the runtime allocates behind the end of a new array
unfoldable pub append : List ℕ → Slice → List ℕ → Slice
unfolding behind
append spare s p =
    let end = s.size + length p in
    record { array = take s.size s.array ++ (p ++ behind spare end s.array); size = end }

-- s[:n], which panics if `n` is beyond the capacity
unfoldable pub reslice : Slice → ℕ → Slice
reslice s n = record s { size = n }

-- an int64, given by its 64 bits, is negative
abbrev pub is_negative : ℕ → Bool
is_negative off = leb (2 ^ 63) off

abbrev pub negative_offset : Error
negative_offset = path_error (other 0)

-- the zeros that WriteAt puts between the end and the offset
unfoldable pub extend : List ℕ → ℕ → Slice → Slice
unfolding append
extend spare off s = if ltb s.size off then append spare s (replicate (off - s.size) 0) else s

-- what follows the append in WriteAt: no byte behind the written ones is lost
unfoldable pub keep_tail : ℕ → Slice → Slice
unfolding reslice
keep_tail prev s = if ltb s.size prev then reslice s prev else s

-- content.WriteAt; the spare parts are those of the two calls of append
unfoldable pub write_at : List ℕ → List ℕ → List ℕ → ℕ → Slice → ℕ × Option Error × Slice
unfolding extend append reslice keep_tail
write_at spare spare' p off s =
    if is_negative off
    then (0, some negative_offset, s)
    else (length p, none, keep_tail s.size (append spare' (reslice (extend spare off s) off) p))

-- content.ReadAt into a buffer of `room` bytes: the bytes that are copied
unfoldable pub read_at : ℕ → ℕ → Slice → List ℕ × Option Error
unfolding visible
read_at room off s =
    if is_negative off
    then ([], some negative_offset)
    else if leb s.size off
    then ([], some io_eof)
    else let l = if ltb s.size (off + room) then s.size - off else room in
      (take l (drop off (visible s)), if ltb l room then some io_eof else none)

-- content.Truncate
abbrev pub truncate_content : Slice
truncate_content = record { array = []; size = 0 }

-- file.Truncate, of the content, for a size that is not negative
unfoldable pub truncate : List ℕ → ℕ → Slice → Slice
unfolding append reslice
truncate spare size s =
    if ltb size s.size
    then reslice s size
    else if ltb 0 (size - s.size)
    then append spare s (replicate (size - s.size) 0)
    else s

-- the slice ends within its array
abbrev pub IsSlice : Slice → Type 0
IsSlice s = s.size ≤ length s.array
