-- ===== src/Fs/Storage.antt =====
-- src/metal-filesystem/src/storage_in_memory.c: the bytes of files in a buffer. `mtl_storage_write`
-- and `mtl_storage_read` walk over the extents with the same loop and differ in what is copied.
pub mod Copies
pub mod Walk
pub mod Buffers
pub mod RoundTrip
use metal_fs.Base.{
  ℕ, zero, suc, ◌+◌, ◌-◌, ◌*◌, Bool, ◌&&◌, Option, none, some, List, [], ◌∷◌, ltb, leb, ◌==◌,
  if◌then◌else◌, length,
}
use metal_fs.Fs.Types.{add64, sub64, mul64, FileExtent}

abbrev pub num_blocks : ℕ
num_blocks = 128 * 256

abbrev pub storage_block : ℕ
storage_block = 4096

-- A buffer: the byte at each index.
abbrev pub Bytes : Type 0
Bytes = ℕ → ℕ

-- `memcpy` of `count` bytes from `source` in one buffer to `target` in the other.
abbrev pub memcpy : (target : ℕ) → Bytes → (source : ℕ) → Bytes → (count : ℕ) → Bytes
memcpy target to source from count i =
    if leb target i && ltb i (target + count) then from (source + (i - target)) else to i

-- The loop that determines the extent for the next byte: the extent, those behind it, and where in
-- the file it starts; none where the assertion fails.
unfoldable pub find_extent :
    List FileExtent → (start current : ℕ) → Option (FileExtent × List FileExtent × ℕ)
find_extent [] start current = none
find_extent (x ∷ xs) start current =
    let end = add64 start (mul64 x.length storage_block) in
    if leb end current then find_extent xs end current else some (x, xs, start)

-- The outer loop. A round copies the part of the range that is in one extent, so there are at most
-- as many as extents; `copy` gets the index in the buffer, the place in the storage, and the count.
unfoldable pub walk :
    {S : Type 0}
    → (copy : (index place count : ℕ) → S → S) → (rounds : ℕ) → List FileExtent
    → (start offset current rest : ℕ) → S
    → Option S
unfolding find_extent
walk copy zero xs start offset current rest s = if rest == 0 then some s else none
walk copy (suc rounds) xs start offset current rest s =
    if rest == 0 then some s else elim (find_extent xs start current) [
      | none ↦ none
      | some (x, behind, start') ↦
          let position = sub64 current start' in
          let room = sub64 (mul64 x.length storage_block) position in
          let count = if ltb rest room then rest else room in
          walk copy rounds (x ∷ behind) start' offset (add64 current count) (sub64 rest count)
            (copy (sub64 current offset) (add64 (mul64 x.offset storage_block) position) count s)
    ]

abbrev pub in_storage : (offset length : ℕ) → Bool
in_storage offset len = ltb (add64 offset len) (num_blocks * storage_block)

-- The storage after a write of a buffer.
unfoldable pub storage_write :
    List FileExtent → (storage : Bytes) → (offset length : ℕ) → (buffer : Bytes) → Option Bytes
unfolding walk
storage_write xs storage offset len buffer =
    if in_storage offset len
    then walk (λ index place count to. memcpy place to index buffer count) (length xs) xs 0 offset
        offset len storage
    else none

-- The buffer after a read into it.
unfoldable pub storage_read :
    List FileExtent → (storage : Bytes) → (offset length : ℕ) → (buffer : Bytes) → Option Bytes
unfolding walk
storage_read xs storage offset len buffer =
    if in_storage offset len
    then walk (λ index place count to. memcpy index to place storage count) (length xs) xs 0 offset
        offset len buffer
    else none
