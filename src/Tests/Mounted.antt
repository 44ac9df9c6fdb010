-- ===== src/Tests/Mounted.antt =====
-- A mounted file system with its storage in memory.
use metal_fs.Base.{ℕ, ◌%◌, ◌<◌, ◌≡◌, refl, ◌∙◌, List, [], ◌∷◌, arith}
use metal_fs.Lmdb.Assoc.{get, keep_last, last}
use metal_fs.Fs.Types.{invalid_node, committed, file, directory}
use metal_fs.Fs.State.{Txn, ok}
use metal_fs.Fs.Directory.Listing.{eq_bytes, entries_size, lookup}
use metal_fs.Fs.Directory.Entries.{Holds, resolve_inode-lookup}
use metal_fs.Fs.Path.Components.{path_of}
use metal_fs.Fs.Namespace.{resolve_inode}
use metal_fs.Fs.Namespace.Resolve.{walk, resolve_inode-walk}
use metal_fs.Fs.Space.{node, free_at}
use metal_fs.Fs.Storage.{num_blocks, Bytes}
use metal_fs.Fs.View.{IsValid}
use metal_fs.Fs.FileData.Write.{IsFile}
use metal_fs.Fs.Backend.{in_memory_storage, Mounted}
use metal_fs.Driver.Files.{replies, stat_of, as_int, fuse_getattr, fuse_read, fuse_write}
use metal_fs.Driver.Files.RoundTrip.{fuse_read-fuse_write}
use metal_fs.Tests.{memory}
use metal_fs.Tests.Files.{inode_of, listing, tree, plain_bc}

-- The tree on as many blocks as the storage has.
abbrev large : Txn memory
large = record tree {
  extents =
      (0, record { length = 2; status = committed; pq_node = invalid_node })
      ∷ (2, free_at 32766 2)
      ∷ [];
  heap = (node 32766 2, 2) ∷ [];
}

large-IsValid : IsValid memory num_blocks large
unfolding get
large-IsValid = record {
  tiling = record {
    start = refl;
    inside = λ o e h. ground arith;
    follow = λ o e h. ground arith;
    apart = λ o e p f h k lt. ground arith;
  };
  queued = λ o e h k. ground arith;
  listed = λ n o h. ground arith;
}

empty-IsFile : IsFile memory large 2 (inode_of file 0) []
unfolding get
empty-IsFile = record { stored = refl }

large-Holds : Holds memory large 0 listing
unfolding get entries_size lookup eq_bytes
large-Holds = record {
  inode = inode_of directory 70;
  stored = refl;
  kind = refl;
  size = refl;
  distinct = (refl, (refl, (refl, (refl, tt))));
}

abbrev path_bc : List ℕ
path_bc = path_of ((98 ∷ 99 ∷ []) ∷ [])

path_bc_found : resolve_inode memory large path_bc ≡ ok 2
unfolding walk lookup eq_bytes
path_bc_found =
    resolve_inode-walk memory large (98 ∷ 99 ∷ []) [] (plain_bc, tt)
    ∙ resolve_inode-lookup memory large 0 listing (98 ∷ 99 ∷ []) large-Holds

abbrev mounted : Mounted (in_memory_storage memory)
mounted = record { metadata = large; stored = λ i. 255 }

abbrev text : Bytes
text = λ i. i % 256

fuse_read-fuse_write_example :
    (s' : Mounted (in_memory_storage memory)) × (out' : Bytes) × (fuse_write
        (in_memory_storage memory)
        mounted
        2
        text
        5000
        0
      ≡ replies s' (as_int 5000))
    × (fuse_getattr (in_memory_storage memory) s' path_bc
        ≡ replies s' (stat_of (record (inode_of file 0) { length = 5000 })))
    × (fuse_read (in_memory_storage memory) s' path_bc (λ i. 0) 5000 0
        ≡ replies s' (as_int 5000, out'))
    × ((i : ℕ) → i < 5000 → out' i ≡ text i)
    × IsValid memory num_blocks s'.metadata
unfolding last keep_last path_of
fuse_read-fuse_write_example =
    fuse_read-fuse_write memory mounted path_bc 2 (inode_of file 0) 5000 (node 32766 2) 2 refl
      (omega arith) path_bc_found (omega arith) (omega arith) large-IsValid empty-IsFile refl
      (omega arith) text (λ i. 0)
