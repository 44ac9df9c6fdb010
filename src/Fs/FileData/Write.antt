-- ===== src/Fs/FileData/Write.antt =====
-- `mtl_write`, `mtl_truncate` and `mtl_read` against the length and the extents of the file.
use metal_fs.Base.{
  ℕ, zero, suc, ◌+◌, ◌-◌, ◌^◌, ◌≤◌, ◌<◌, min, ◌≡◌, false, Option, none, some, List, arith, ltb,
  ◌==◌, if◌then◌else◌,
}
use metal_fs.Fs.Types.{add64, FileExtent, Inode, extents}
use metal_fs.Fs.State.{Databases, Txn, ok}
use metal_fs.Fs.Inode.{load_inode, load_file}
use metal_fs.Fs.FileData.{
  blocks_of, total_blocks, last_extent, StorageCall, read_length, expand_loop, expand_inode, write,
  read,
}

-- The bytes of the range [offset, offset + size) that lie in a file of `len` bytes.
abbrev pub in_range : (len size offset : ℕ) → ℕ
in_range len size offset = min size (len - offset)

-- `mtl_read` returns exactly the bytes of the range that lie in the file, for a range whose end
-- does not wrap.
pub read_length-in_range :
    (len size offset : ℕ)
    → offset + size < 2 ^ 64
    → len < 2 ^ 64
    → read_length len size offset ≡ in_range len size offset
unfolding read_length
read_length-in_range len size offset h k = ground arith

module _ (L : Databases) where
  -- Inode `id` is a file with these extents.
  pub record IsFile (t : Txn L) (id : ℕ) (inode : Inode) (xs : List FileExtent) : Type 0 where
    pub stored : L.inodes.get t.inodes id ≡ some (record { inode = inode; content = extents xs })

  pub load_file-IsFile :
      {t : Txn L} {id : ℕ} {inode : Inode} {xs : List FileExtent}
      → IsFile t id inode xs
      → load_file L t id ≡ ok (inode, xs)
  unfolding load_file load_inode
  load_file-IsFile f = rw (f.stored, load_inode)

module _ (L : Databases) (block_size : ℕ) where
  pub expand_loop-enough :
      (fuel : ℕ) (t : Txn L) (id : ℕ) (last : FileExtent) (current end_blocks end_bytes : ℕ)
      → end_blocks ≤ current
      → expand_loop L block_size fuel t id last current end_blocks end_bytes ≡ ok t
  unfolding expand_loop
  expand_loop-enough zero t id last current end_blocks end_bytes h =
      let test : ltb current end_blocks ≡ false = ground arith in rw test
  expand_loop-enough (suc fuel) t id last current end_blocks end_bytes h =
      let test : ltb current end_blocks ≡ false = ground arith in rw test

  -- A write whose end lies in the blocks that the file already has changes no metadata: the length
  -- of the file stays what it was, however far the write reaches.
  pub write_in_blocks :
      (t : Txn L) (id : ℕ) (inode : Inode) (xs : List FileExtent) (size offset : ℕ)
      → IsFile L t id inode xs
      → blocks_of block_size (add64 offset size) ≤ total_blocks 0 xs
      → write L block_size t id size offset
        ≡ ok (t, record { inode_id = id; offset = offset; length = size })
  unfolding write expand_inode
  write_in_blocks t id inode xs size offset f enough =
      let end_blocks = blocks_of block_size (add64 offset size) in
      let same =
        expand_loop-enough end_blocks t id (last_extent xs) (total_blocks 0 xs) end_blocks
          (add64 offset size) enough in
      rw (load_file-IsFile L f, same)

  -- What a write puts behind the end of the file, without going beyond the blocks that the file
  -- already has, is lost: for a range whose end does not wrap, reading it back returns fewer bytes
  -- than were written.
  pub write-read_short :
      (t : Txn L) (id : ℕ) (inode : Inode) (xs : List FileExtent) (size offset : ℕ)
      → IsFile L t id inode xs
      → blocks_of block_size (add64 offset size) ≤ total_blocks 0 xs
      → offset + size < 2 ^ 64
      → inode.length < offset + size
      → 0 < size
      → (t' : Txn L) × (call : StorageCall) × (got : ℕ) × (again : Option StorageCall) × (write L
            block_size t id size offset
          ≡ ok (t', call))
        × (read L block_size t' id size offset ≡ ok (got, again))
        × (got < size)
  unfolding read
  write-read_short t id inode xs size offset f enough small short pos = (
    t,
    record { inode_id = id; offset = offset; length = size },
    read_length inode.length size offset,
    (if read_length inode.length size offset == 0
        then none
        else some (record {
          inode_id = id;
          offset = offset;
          length = read_length inode.length size offset;
        })),
    write_in_blocks t id inode xs size offset f enough,
    rw (load_file-IsFile L f),
    omega (arith, read_length-in_range inode.length size offset small (omega arith)),
  )
