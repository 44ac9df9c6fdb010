-- ===== src/Tests/Files.antt =====
-- A file of 12 bytes with two blocks of 8 bytes, one without blocks, and a directory.
use metal_fs.Base.{ℕ, ◌<◌, ◌≡◌, refl, Option, none, some, List, [], ◌∷◌, arith, if◌then◌else◌}
use metal_fs.Fs.Directory.{append_inode_id_to_directory, remove_entry_from_directory}
use metal_fs.Fs.Directory.Listing.{eq_bytes, entries_size, lookup}
use metal_fs.Fs.Directory.Entries.{
  Holds, OthersSame, OnlyEntries, append_inode-lookup, remove_entry-lookup,
}
use metal_fs.Fs.FileData.{blocks_of, total_blocks, StorageCall, expand_inode, write, read}
use metal_fs.Fs.FileData.Write.{IsFile, write-read_short}
use metal_fs.Fs.FileData.Grow.{expand_inode-fresh}
use metal_fs.Fs.Space.{node, free_at}
use metal_fs.Fs.Path.Components.{no_slash, IsComponent, path_of}
use metal_fs.Fs.Namespace.{resolve_inode}
use metal_fs.Fs.Namespace.Resolve.{walk, resolve_inode-walk}
use metal_fs.Fs.View.{IsValid}
use metal_fs.Fs.Types.{
  invalid_node, committed, FileExtent, InodeType, file, directory, Inode, DirEntry, entries,
  extents,
}
use metal_fs.Fs.State.{Txn, ok}
use metal_fs.Lmdb.Assoc.{get, keep_last, last}
use metal_fs.Tests.{memory}

abbrev pub inode_of : InodeType → ℕ → Inode
inode_of type len = record {
  type = type;
  length = len;
  user = 0;
  group = 0;
  accessed = 0;
  modified = 0;
  created = 0;
  mode = 0;
}

abbrev pub entry : ℕ → List ℕ → DirEntry
entry id name = record { inode_id = id; name = name }

abbrev pub listing : List DirEntry
listing =
    entry 0 (46 ∷ []) ∷ entry 0 (46 ∷ 46 ∷ []) ∷ entry 1 (97 ∷ []) ∷ entry 2 (98 ∷ 99 ∷ []) ∷ []

abbrev pub xs_of_1 : List FileExtent
xs_of_1 = record { offset = 0; length = 2 } ∷ []

-- The root directory holds `a` (inode 1) and `bc` (inode 2).
abbrev pub tree : Txn memory
tree = record {
  extents =
      (0, record { length = 2; status = committed; pq_node = invalid_node })
      ∷ (2, free_at 14 2)
      ∷ [];
  heap = (node 14 2, 2) ∷ [];
  inodes =
      (0, record { inode = inode_of directory 70; content = entries listing })
      ∷ (1, record { inode = inode_of file 12; content = extents xs_of_1 })
      ∷ (2, record { inode = inode_of file 0; content = extents [] })
      ∷ [];
  next_inode = some 3;
}

tree-IsValid : IsValid memory 16 tree
unfolding get
tree-IsValid = record {
  tiling = record {
    start = refl;
    inside = λ o e h. ground arith;
    follow = λ o e h. ground arith;
    apart = λ o e p f h k lt. ground arith;
  };
  queued = λ o e h k. ground arith;
  listed = λ n o h. ground arith;
}

pub tree-Holds : Holds memory tree 0 listing
unfolding get entries_size lookup eq_bytes
tree-Holds = record {
  inode = inode_of directory 70;
  stored = refl;
  kind = refl;
  size = refl;
  distinct = (refl, (refl, (refl, (refl, tt))));
}

first-IsFile : IsFile memory tree 1 (inode_of file 12) xs_of_1
unfolding get
first-IsFile = record { stored = refl }

second-IsFile : IsFile memory tree 2 (inode_of file 0) []
unfolding get
second-IsFile = record { stored = refl }

append_inode-lookup_example :
    (t' : Txn memory) × (fs : List DirEntry) × (append_inode_id_to_directory memory tree 0
        (98 ∷ [])
        3
      ≡ ok t')
    × (h' : Holds memory t' 0 fs) × ((j : List ℕ)
        → lookup fs j ≡ (if eq_bytes (98 ∷ []) j then some 3 else lookup listing j))
    × OnlyEntries memory 0 tree-Holds.inode tree h'.inode t'
unfolding lookup eq_bytes entries_size
append_inode-lookup_example =
    append_inode-lookup memory tree 0 listing (98 ∷ []) tree-Holds 3 refl (omega arith)
      (omega arith)

remove_entry-lookup_example :
    (t' : Txn memory) × (fs : List DirEntry) × (remove_entry_from_directory memory tree 0 (97 ∷ [])
      ≡ ok (t', some 1))
    × (h' : Holds memory t' 0 fs) × ((j : List ℕ)
        → lookup fs j ≡ (if eq_bytes (97 ∷ []) j then none else lookup listing j))
    × (entries_size fs < entries_size listing)
    × OnlyEntries memory 0 tree-Holds.inode tree h'.inode t'
unfolding lookup eq_bytes entries_size
remove_entry-lookup_example =
    remove_entry-lookup memory tree 0 listing (97 ∷ []) tree-Holds 1 refl (omega arith)

write-read_short_example :
    (t' : Txn memory) × (call : StorageCall) × (got : ℕ) × (again : Option StorageCall) × (write
        memory 8 tree 1 4 12
      ≡ ok (t', call))
    × (read memory 8 t' 1 4 12 ≡ ok (got, again))
    × (got < 4)
unfolding total_blocks
write-read_short_example =
    write-read_short memory 8 tree 1 (inode_of file 12) xs_of_1 4 12 first-IsFile (omega arith)
      (omega arith) (omega arith) (omega arith)

expand_inode-fresh_example :
    (t' : Txn memory) × (expand_inode memory 8 tree 2 [] 20 ≡ ok t')
    × IsValid memory 16 t'
    × IsFile memory t' 2
        (record (inode_of file 0) { length = 20 })
        (record { offset = 2; length = blocks_of 8 20 } ∷ [])
    × OthersSame memory 2 tree t'
unfolding last keep_last
expand_inode-fresh_example =
    expand_inode-fresh memory 8 16 tree 2 (inode_of file 0) 20 (node 14 2) 2 (omega arith)
      (omega arith) (omega arith) (omega arith) tree-IsValid second-IsFile refl (omega arith)

pub plain_a : IsComponent (97 ∷ [])
unfolding no_slash
plain_a = (omega arith, refl)

pub plain_bc : IsComponent (98 ∷ 99 ∷ [])
unfolding no_slash
plain_bc = (omega arith, refl)

resolve_inode-walk_example :
    resolve_inode memory tree (path_of ((97 ∷ []) ∷ (98 ∷ 99 ∷ []) ∷ []))
    ≡ walk memory tree ((97 ∷ []) ∷ (98 ∷ 99 ∷ []) ∷ [])
resolve_inode-walk_example =
    resolve_inode-walk memory tree (97 ∷ []) ((98 ∷ 99 ∷ []) ∷ []) (plain_a, (plain_bc, tt))
