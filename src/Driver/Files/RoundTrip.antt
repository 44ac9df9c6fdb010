-- ===== src/Driver/Files/RoundTrip.antt =====
-- What FUSE writes into a new file, it reads back.
use metal_fs.Base.{ℕ, ◌*◌, ◌≤◌, ◌<◌, ◌≡◌, ap, false, some, List, [], ◌∷◌, arith, ◌==◌}
use metal_fs.Fs.Types.{NodeId, FileExtent, Inode, extents}
use metal_fs.Fs.State.{Databases, ok}
use metal_fs.Fs.Inode.{load_inode}
use metal_fs.Fs.Namespace.{resolve_inode, get_inode}
use metal_fs.Fs.FileData.Write.{IsFile}
use metal_fs.Fs.Namespace.Others.{resolve_inode_same}
use metal_fs.Fs.View.{IsValid}
use metal_fs.Fs.FileData.{blocks_of}
use metal_fs.Fs.Storage.{num_blocks, storage_block, Bytes}
use metal_fs.Fs.Backend.{in_memory_storage, Mounted, called, write_file, read_file}
use metal_fs.Fs.Backend.Contents.{write_file-IsStored}
use metal_fs.Driver.Combined.{Text, is_empty}
use metal_fs.Driver.Files.{
  replies, stat_of, as_int, write_reply, read_reply, fuse_write, fuse_read, fuse_getattr,
}

module _ (L : Databases) (s : Mounted (in_memory_storage L)) (buffer : Bytes) where
  fuse_write-called :
      (s' : Mounted (in_memory_storage L)) (fh size : ℕ)
      → 0 < fh
      → write_file (in_memory_storage L) s fh buffer size 0 ≡ called s'
      → fuse_write (in_memory_storage L) s fh buffer size 0 ≡ replies s' (as_int size)
  unfolding fuse_write
  fuse_write-called s' fh size pos e =
      let there : (fh == 0) ≡ false = ground arith in
      rw (there, fuse_write) (ap (write_reply (in_memory_storage L) s size) e)

  fuse_read-called :
      (path : Text) (id size : ℕ) (out : Bytes)
      → resolve_inode L s.metadata path ≡ ok id
      → read_file (in_memory_storage L) s id buffer size 0 ≡ called (size, out)
      → fuse_read (in_memory_storage L) s path buffer size 0 ≡ replies s (as_int size, out)
  unfolding fuse_read
  fuse_read-called path id size out found e =
      rw (found, fuse_read) (ap (read_reply (in_memory_storage L) s) e)

  get_inode-IsFile :
      (path : Text) (id : ℕ) (inode : Inode) (xs : List FileExtent)
      → resolve_inode L s.metadata path ≡ ok id
      → IsFile L s.metadata id inode xs
      → get_inode L s.metadata path ≡ ok inode
  unfolding get_inode
  get_inode-IsFile path id inode xs found f =
      let loaded : load_inode L s.metadata id
          ≡ ok (record { inode = inode; content = extents xs }) =
        rw (f.stored, load_inode) in
      rw (found, get_inode) (rw loaded)

  fuse_getattr-IsFile :
      (path : Text) (id : ℕ) (inode : Inode) (xs : List FileExtent)
      → is_empty path ≡ false
      → resolve_inode L s.metadata path ≡ ok id
      → IsFile L s.metadata id inode xs
      → fuse_getattr (in_memory_storage L) s path ≡ replies s (stat_of inode)
  unfolding fuse_getattr
  fuse_getattr-IsFile path id inode xs named found f =
      rw (named, fuse_getattr) (rw (get_inode-IsFile path id inode xs found f))

module _ (L : Databases) (s : Mounted (in_memory_storage L)) (path : Text) (id : ℕ) (inode : Inode)
    (size : ℕ) (n : NodeId) (o : ℕ) (named : is_empty path ≡ false) (pos : 0 < id)
    (found : resolve_inode L s.metadata path ≡ ok id) (some_bytes : 0 < size)
    (small : size < num_blocks * storage_block) (valid : IsValid L num_blocks s.metadata)
    (f : IsFile L s.metadata id inode []) (top : L.heap.last s.metadata.heap ≡ some (n, o))
    (room : blocks_of storage_block size ≤ n.k) where
  -- On a mounted file system with the storage in memory and a valid allocator, `fuse_write` of
  -- `size` bytes, more than 0, at the start of a file without extents that the path leads to, where
  -- the extent at the end of the heap has enough blocks, reports the size; `fuse_getattr` then
  -- reports the size and leaves the other attributes, and `fuse_read` of the path gives every byte
  -- as it was written, whatever was in the caller's buffer. The allocator stays valid.
  pub fuse_read-fuse_write :
      (buffer out : Bytes)
      → (s' : Mounted (in_memory_storage L)) × (out' : Bytes) × (fuse_write
            (in_memory_storage L)
            s
            id
            buffer
            size
            0
          ≡ replies s' (as_int size))
        × (fuse_getattr (in_memory_storage L) s' path
            ≡ replies s' (stat_of (record inode { length = size })))
        × (fuse_read (in_memory_storage L) s' path out size 0 ≡ replies s' (as_int size, out'))
        × ((i : ℕ) → i < size → out' i ≡ buffer i)
        × IsValid L num_blocks s'.metadata
  fuse_read-fuse_write buffer out =
      let (s', put, valid', others, f', out', got, same) =
        write_file-IsStored L s id inode size n o some_bytes small valid f top room buffer out in
      let found' = resolve_inode_same L s.metadata s'.metadata id inode [] f others path id found in
      (
        s',
        out',
        fuse_write-called L s buffer s' id size pos put,
        fuse_getattr-IsFile L s' buffer path id (record inode { length = size })
            (record { offset = o; length = blocks_of storage_block size } ∷ []) named found' f',
        fuse_read-called L s' out path id size out' found' got,
        same,
        valid',
      )
