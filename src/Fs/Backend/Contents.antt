-- ===== src/Fs/Backend/Contents.antt =====
-- What is written into an empty file of a mounted file system is read back.
use metal_fs.Base.{
  ℕ, ◌+◌, ◌*◌, ◌^◌, ◌≤◌, ◌<◌, ◌≡◌, ap, ◌∙◌, false, Option, some, List, [], ◌∷◌, arith, ◌==◌,
}
use metal_fs.Fs.Types.{add64, NodeId, FileExtent, Inode}
use metal_fs.Fs.State.{Databases, Txn, ok}
use metal_fs.Fs.Inode.{load_inode}
use metal_fs.Fs.FileData.{blocks_of, read_length, expand_inode, write, read, load_extent_list}
use metal_fs.Fs.FileData.Write.{read_length-in_range, IsFile, load_file-IsFile}
use metal_fs.Fs.Space.{free_at}
use metal_fs.Fs.View.{IsValid}
use metal_fs.Fs.Directory.Entries.{OthersSame}
use metal_fs.Fs.FileData.Grow.{bytes-le-blocks, expand_inode-fresh}
use metal_fs.Fs.Storage.{num_blocks, storage_block, Bytes, storage_write, storage_read}
use metal_fs.Fs.Storage.RoundTrip.{ShareNone, AreApart, storage_read-storage_write}
use metal_fs.Fs.Backend.{
  with_extents, in_memory_storage, Mounted, called, keep_stored, write_file, keep_fetched,
  read_file,
}

module _ (L : Databases) where
  load_extent_list-IsFile :
      {t : Txn L} {id : ℕ} {inode : Inode} (x : FileExtent)
      → IsFile L t id inode (x ∷ [])
      → load_extent_list L t id ≡ ok (x ∷ [], inode.length)
  unfolding load_extent_list load_inode
  load_extent_list-IsFile x f = rw (f.stored, load_inode)

  with_extents-some :
      (t : Txn L) (id : ℕ) (f : List FileExtent → Option Bytes) {xs : List FileExtent} {len : ℕ}
      → load_extent_list L t id ≡ ok (xs, len)
      → with_extents L t id f ≡ f xs
  with_extents-some t id f x = rw (x, with_extents)

  -- A write from the start of a file without extents expands it.
  write_empty :
      (bs : ℕ) (t t' : Txn L) (id : ℕ) (inode : Inode) (size : ℕ)
      → IsFile L t id inode []
      → size < 2 ^ 64
      → expand_inode L bs t id [] size ≡ ok t'
      → write L bs t id size 0 ≡ ok (t', record { inode_id = id; offset = 0; length = size })
  unfolding write
  write_empty bs t t' id inode size f small e =
      let end : add64 0 size ≡ size = omega arith in rw (load_file-IsFile L f) (rw (end, e))

  read_whole :
      (bs : ℕ) (t : Txn L) (id : ℕ) (inode : Inode) (xs : List FileExtent)
      → IsFile L t id inode xs
      → 0 < inode.length
      → inode.length < 2 ^ 64
      → read L bs t id inode.length 0
        ≡ ok (inode.length, some (record { inode_id = id; offset = 0; length = inode.length }))
  unfolding read
  read_whole bs t id inode xs f some_bytes small =
      let all : read_length inode.length inode.length 0 ≡ inode.length =
        omega (arith, read_length-in_range inode.length inode.length 0 (omega arith) small) in
      let not_zero : (inode.length == 0) ≡ false = ground arith in
      rw (load_file-IsFile L f) (rw (all, not_zero))

one_extent-AreApart : (x : FileExtent) → AreApart (x ∷ [])
unfolding AreApart ShareNone
one_extent-AreApart x = (tt, tt)

module _ (L : Databases) (s : Mounted (in_memory_storage L)) (id size : ℕ) (xs : List FileExtent)
    (len : ℕ) (buffer : Bytes) where
  write_file-called :
      (t : Txn L) (bytes : Bytes)
      → write L storage_block s.metadata id size 0
        ≡ ok (t, record { inode_id = id; offset = 0; length = size })
      → load_extent_list L t id ≡ ok (xs, len)
      → storage_write xs s.stored 0 size buffer ≡ some bytes
      → write_file (in_memory_storage L) s id buffer size 0
        ≡ called (record { metadata = t; stored = bytes })
  unfolding write_file
  write_file-called t bytes e x put =
      rw (e, write_file)
        (ap (keep_stored (in_memory_storage L) t) (with_extents-some L t id _ x ∙ put))

  read_file-called :
      (out : Bytes)
      → read L storage_block s.metadata id size 0
        ≡ ok (size, some (record { inode_id = id; offset = 0; length = size }))
      → load_extent_list L s.metadata id ≡ ok (xs, len)
      → storage_read xs s.stored 0 size buffer ≡ some out
      → read_file (in_memory_storage L) s id buffer size 0 ≡ called (size, out)
  unfolding read_file
  read_file-called out e x got =
      rw (e, read_file)
        (ap (keep_fetched (in_memory_storage L) size) (with_extents-some L s.metadata id _ x ∙ got))

module _ (L : Databases) (s : Mounted (in_memory_storage L)) (id : ℕ) (inode : Inode) (size : ℕ)
    (n : NodeId) (o : ℕ) (some_bytes : 0 < size) (small : size < num_blocks * storage_block)
    (valid : IsValid L num_blocks s.metadata) (f : IsFile L s.metadata id inode [])
    (top : L.heap.last s.metadata.heap ≡ some (n, o))
    (room : blocks_of storage_block size ≤ n.k) where
  abbrev wanted : ℕ
  wanted = blocks_of storage_block size

  abbrev placed : FileExtent
  placed = record { offset = o; length = wanted }

  -- The extent that the file gets lies in the storage.
  top_inside : o + n.k ≤ num_blocks
  top_inside =
      (valid.tiling.inside o (free_at n.k o)
        (valid.listed n o (L.heap.get-last s.metadata.heap n o top)).1).1

  -- What the write leaves, and what the read then gives.
  abbrev IsStored : (buffer out : Bytes) → Type 0
  IsStored buffer out =
      (s' : Mounted (in_memory_storage L)) × (write_file (in_memory_storage L) s id buffer size 0
        ≡ called s')
      × IsValid L num_blocks s'.metadata
      × OthersSame L id s.metadata s'.metadata
      × IsFile L s'.metadata id (record inode { length = size }) (placed ∷ [])
      × (out' : Bytes) × (read_file (in_memory_storage L) s' id out size 0 ≡ called (size, out'))
      × ((i : ℕ) → i < size → out' i ≡ buffer i)

  pub write_file-IsStored : (buffer out : Bytes) → IsStored buffer out
  write_file-IsStored buffer out =
      let (t', grown, valid', f', others) =
        expand_inode-fresh L storage_block num_blocks s.metadata id inode size n o (omega arith)
          some_bytes (omega (arith, top_inside, room)) (omega (arith, top_inside, room)) valid f top
          room in
      let fits : size ≤ wanted * storage_block = bytes-le-blocks storage_block size (omega arith) in
      let (bytes', put, out', got, same) =
        storage_read-storage_write (placed ∷ []) s.stored 0 size buffer out
          (omega (arith, top_inside, room), tt) (one_extent-AreApart placed)
          (omega (arith, top_inside, room)) (omega (arith, fits)) (omega (arith, small)) in
      (
        record { metadata = t'; stored = bytes' },
        write_file-called L s id size (placed ∷ []) size buffer t' bytes'
            (write_empty L storage_block s.metadata t' id inode size f (omega arith) grown)
            (load_extent_list-IsFile L placed f') put,
        valid',
        others,
        f',
        out',
        read_file-called L (record { metadata = t'; stored = bytes' }) id size (placed ∷ []) size
            out out'
            (read_whole L storage_block t' id (record inode { length = size }) (placed ∷ []) f'
              some_bytes (omega arith))
            (load_extent_list-IsFile L placed f') got,
        same,
      )
