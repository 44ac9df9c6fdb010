-- ===== src/Fs/FileData.antt =====
-- src/metal-filesystem/src/metal.c: the functions on the data of a file, `mtl_expand_inode`,
-- `mtl_write`, `mtl_read`, `mtl_truncate` and `mtl_load_extent_list`. What the storage backend does
-- with the bytes is not part of these functions; they return the call that they make of it.
pub mod Write
pub mod Grow
use metal_fs.Base.{
  ℕ, zero, suc, ◌+◌, ◌/◌, ◌%◌, true, not, ◌&&◌, Option, none, some, List, [], ◌∷◌, ltb, leb, ◌==◌,
  if◌then◌else◌, length,
}
use metal_fs.Fs.Types.{add64, sub64, mul64, invalid_argument, FileExtent}
use metal_fs.Fs.State.{Databases, Txn, Result, ok, err, fault, ◌>>=◌, deref}
use metal_fs.Fs.Extent.{reserve_extent, free_extent, truncate_extent}
use metal_fs.Fs.Inode.{
  extents_of, load_inode, load_file, add_extent_to_file, extend_last_extent_in_file,
  truncate_file_extents,
}

-- A number of bytes in whole blocks.
abbrev pub blocks_of : ℕ → ℕ → ℕ
blocks_of block_size bytes =
    if (bytes % block_size) == 0 then bytes / block_size else bytes / block_size + 1

-- `current_inode_length_blocks`
unfoldable pub total_blocks : ℕ → List FileExtent → ℕ
total_blocks acc [] = acc
total_blocks acc (x ∷ xs) = total_blocks (add64 acc x.length) xs

abbrev pub no_extent : FileExtent
no_extent = record { offset = 0; length = 0 }

pub last_extent : List FileExtent → FileExtent
last_extent [] = no_extent
last_extent (x ∷ []) = x
last_extent (x ∷ y ∷ ys) = last_extent (y ∷ ys)

abbrev pub if_any : FileExtent → Option FileExtent
if_any x = if x.length == 0 then none else some x

-- A call of the storage backend: the file, the offset in bytes and the number of bytes.
pub record StorageCall : Type 0 where
  pub inode_id : ℕ
  pub offset : ℕ
  pub length : ℕ

abbrev pub max_extents : ℕ
max_extents = 512

-- The file's new length when its blocks end at `blocks`.
abbrev pub capped : ℕ → ℕ → ℕ → ℕ
capped block_size end_bytes blocks =
    if ltb (mul64 blocks block_size) end_bytes then mul64 blocks block_size else end_bytes

-- How much `mtl_read` returns of `size` bytes at `offset`.
pub read_length : (file_length size offset : ℕ) → ℕ
read_length file_length size offset =
    if ltb file_length offset
    then 0
    else if ltb file_length (add64 offset size)
    then sub64 size (sub64 (add64 offset size) file_length)
    else size

module _ (L : Databases) (block_size : ℕ) where
  -- Assign reserved blocks to the file: they extend its last extent, or are a new one.
  pub assign_blocks : Txn L → ℕ → FileExtent → FileExtent → ℕ → Result (Txn L × FileExtent)
  unfolding extend_last_extent_in_file add_extent_to_file
  assign_blocks t id last x new_length =
      let grown : FileExtent = record last { length = add64 last.length x.length } in
      if not (last.length == 0) && (last.offset == x.offset)
      then (do t' ← extend_last_extent_in_file L t id grown new_length; ok (t', grown))
      else (do t' ← add_extent_to_file L t id x new_length; ok (t', x))

  -- One round of the loop: the transaction, the last extent and the blocks that the file then has.
  -- "We don't handle no space left on device yet": the assertion fails.
  pub expand_round :
      Txn L → ℕ → FileExtent → (current end_blocks end_bytes : ℕ) → Result (Txn L × FileExtent × ℕ)
  unfolding reserve_extent assign_blocks
  expand_round t id last current end_blocks end_bytes = do
    (t1, got) ← reserve_extent L t (sub64 end_blocks current) (if_any last) true
    x ← deref got
    let current' = add64 current x.length
    if x.length == 0 then fault else do
      (t2, last') ← assign_blocks t1 id last x (capped block_size end_bytes current')
      ok (t2, last', current')

  -- Each round gives at least one block, so as many rounds as blocks are wanted are enough.
  pub expand_loop : ℕ → Txn L → ℕ → FileExtent → (current end_blocks end_bytes : ℕ) → Result (Txn L)
  unfolding expand_round
  expand_loop zero t id last current end_blocks end_bytes =
      if ltb current end_blocks then fault else ok t
  expand_loop (suc fuel) t id last current end_blocks end_bytes =
      let more = expand_round t id last current end_blocks end_bytes >>= λ r.
      expand_loop fuel r.0 id r.1 r.2 end_blocks end_bytes in
      if ltb current end_blocks then more else ok t

  pub expand_inode : Txn L → ℕ → List FileExtent → ℕ → Result (Txn L)
  unfolding expand_loop total_blocks last_extent
  expand_inode t id xs size =
      let end_blocks = blocks_of block_size size in
      expand_loop end_blocks t id (last_extent xs) (total_blocks 0 xs) end_blocks size

  unfoldable pub write : Txn L → (id size offset : ℕ) → Result (Txn L × StorageCall)
  unfolding load_file expand_inode
  write t id size offset = do
    (inode, xs) ← load_file L t id
    t' ← expand_inode t id xs (add64 offset size)
    ok (t', record { inode_id = id; offset = offset; length = size })

  unfoldable pub read : Txn L → (id size offset : ℕ) → Result (ℕ × Option StorageCall)
  unfolding load_file read_length
  read t id size offset = do
    (inode, xs) ← load_file L t id
    let len = read_length inode.length size offset
    ok (
      len,
      if len == 0 then none else some (record { inode_id = id; offset = offset; length = len }),
    )

  -- The loop of `mtl_truncate` over the extents: `i` counts them, `start` is where the next one
  -- starts in the file.
  pub truncate_loop : Txn L → (id offset i start : ℕ) → List FileExtent → Result (Txn L)
  unfolding free_extent truncate_extent truncate_file_extents
  truncate_loop t id offset i start [] = ok t
  truncate_loop t id offset i start (x ∷ xs) =
      let end = add64 start (mul64 x.length block_size) in
      let next = λ (t' : Txn L). truncate_loop t' id offset (i + 1) end xs in
      let keep = blocks_of block_size (sub64 offset start) in
      if ltb offset start
      then (free_extent L t x.offset >>= next)
      else if ltb offset end
      then if keep == 0
        then (do
          t1 ← free_extent L t x.offset
          t2 ← truncate_file_extents L t1 id offset i none
          next t2)
        else (do
          t1 ← truncate_extent L t x.offset keep
          t2 ← truncate_file_extents L t1 id offset (i + 1) (some keep)
          next t2)
      else next t

  unfoldable pub truncate : Txn L → (id offset : ℕ) → Result (Txn L)
  unfolding load_file expand_inode truncate_loop
  truncate t id offset = do
    (inode, xs) ← load_file L t id
    if leb inode.length offset
        then expand_inode t id xs offset
        else truncate_loop t id offset 0 0 xs

module _ (L : Databases) where
  -- The extents and the file's length.
  unfoldable pub load_extent_list : Txn L → ℕ → Result (List FileExtent × ℕ)
  unfolding load_inode
  load_extent_list t id = do
    v ← load_inode L t id
    xs ← extents_of v.content
    if ltb max_extents (length xs) then err invalid_argument else ok (xs, v.inode.length)
