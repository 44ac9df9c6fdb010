-- ===== src/Fs/Inode.antt =====
-- src/metal-filesystem/src/inode.c and meta.c: inodes, their numbers, and the extent lists of
-- files.
use metal_fs.Base.{ℕ, zero, suc, Option, none, some, List, [], ◌∷◌, ◌++◌}
use metal_fs.Fs.Types.{
  add64, sub64, no_entry, FileExtent, Inode, DirEntry, Content, entries, extents, InodeValue,
}
use metal_fs.Fs.State.{Databases, Txn, Result, ok, err, fault, ◌>>=◌, asserted}

-- The extent list of a file. The C code reads the bytes of a directory as extents here, and the
-- other way round; that is not modelled further.
abbrev pub extents_of : Content → Result (List FileExtent)
extents_of (extents xs) = ok xs
extents_of (entries es) = fault

abbrev pub entries_of : Content → Result (List DirEntry)
entries_of (entries es) = ok es
entries_of (extents xs) = fault

-- `extent_data[extents_length - 1] = x`; a write in front of an empty array is out of bounds.
pub set_last : List FileExtent → FileExtent → Result (List FileExtent)
set_last [] x = fault
set_last (y ∷ []) x = ok (x ∷ [])
set_last (y ∷ z ∷ ys) x = do rest ← set_last (z ∷ ys) x; ok (y ∷ rest)

-- Change the length of the last extent of a prefix.
pub set_last_length : List FileExtent → ℕ → Result (List FileExtent)
set_last_length [] len = fault
set_last_length (y ∷ []) len = ok (record y { length = len } ∷ [])
set_last_length (y ∷ z ∷ ys) len = do rest ← set_last_length (z ∷ ys) len; ok (y ∷ rest)

-- The first `n` elements; reading beyond the end is out of bounds.
pub prefix : ℕ → List FileExtent → Result (List FileExtent)
prefix zero xs = ok []
prefix (suc n) [] = fault
prefix (suc n) (x ∷ xs) = do rest ← prefix n xs; ok (x ∷ rest)

module _ (L : Databases) where
  unfoldable pub load_inode : Txn L → ℕ → Result InodeValue
  load_inode t id = elim (L.inodes.get t.inodes id) [ none ↦ err no_entry | some v ↦ ok v ]

  unfoldable pub put_inode : Txn L → ℕ → InodeValue → Txn L
  put_inode t id v = record t { inodes = L.inodes.put t.inodes id v }

  unfoldable pub delete_inode : Txn L → ℕ → Txn L
  delete_inode t id = record t { inodes = L.inodes.del t.inodes id }

  -- `meta.c`: the stored number, or 1; the number after it is stored.
  unfoldable pub next_inode_id : Txn L → Txn L × ℕ
  next_inode_id t =
      let result : ℕ = elim t.next_inode [ none ↦ 1 | some n ↦ n ] in
      let after = add64 result 1 in (record t { next_inode = some after }, sub64 after 1)

  -- The inode and the extents that `mtl_load_file` hands to a caller which uses them.
  unfoldable pub load_file : Txn L → ℕ → Result (Inode × List FileExtent)
  unfolding load_inode
  load_file t id = do v ← asserted (load_inode t id); xs ← extents_of v.content; ok (v.inode, xs)

  unfoldable pub store_extents : Txn L → ℕ → Inode → ℕ → List FileExtent → Txn L
  unfolding put_inode
  store_extents t id inode new_length xs =
      put_inode t id (record { inode = record inode { length = new_length }; content = extents xs })

  unfoldable pub add_extent_to_file : Txn L → ℕ → FileExtent → ℕ → Result (Txn L)
  unfolding load_file store_extents
  add_extent_to_file t id new_extent new_length = do
    (inode, xs) ← load_file t id
    ok (store_extents t id inode new_length (xs ++ new_extent ∷ []))

  unfoldable pub extend_last_extent_in_file : Txn L → ℕ → FileExtent → ℕ → Result (Txn L)
  unfolding load_file store_extents set_last
  extend_last_extent_in_file t id new_extent new_length = do
    (inode, xs) ← load_file t id
    ys ← set_last xs new_extent
    ok (store_extents t id inode new_length ys)

  unfoldable pub truncate_file_extents : Txn L → ℕ → ℕ → ℕ → Option ℕ → Result (Txn L)
  unfolding load_file store_extents prefix set_last_length
  truncate_file_extents t id new_length count last_length = do
    (inode, xs) ← load_file t id
    kept ← prefix count xs
    ys ← elim last_length [ none ↦ ok kept | some len ↦ set_last_length kept len ]
    ok (store_extents t id inode new_length ys)
