-- ===== src/Fs/Directory/Others.antt =====
-- Searching the directories does not read the inode of a file.
use metal_fs.Base.{ℕ, ◌≡◌, sym, subst, ◌≢◌, inl, inr, List, arith, Bool-cases}
use metal_fs.Fs.Types.{FileExtent, Inode, DirEntry}
use metal_fs.Fs.State.{Databases, Txn, ok, >>=-GoesOn}
use metal_fs.Fs.Inode.{load_inode}
use metal_fs.Fs.Directory.{is_directory, load_entries, resolve_inode_in_directory}
use metal_fs.Fs.Directory.Entries.{OthersSame}
use metal_fs.Fs.FileData.Write.{IsFile}

module _ (L : Databases) (t t' : Txn L) (id : ℕ) (inode : Inode) (xs : List FileExtent)
    (f : IsFile L t id inode xs) (others : OthersSame L id t t') where
  load_file_entries : (r : Inode × List DirEntry) → load_entries L t id ≢ ok r
  unfolding load_entries load_inode
  load_file_entries r h = elim (Bool-cases (is_directory inode.type)) [
    | inl e ↦ ground (arith, f.stored, e)
    | inr e ↦ ground (arith, f.stored, e)
  ]

  load_inode_same :
      (dir : ℕ)
      → L.inodes.get t'.inodes dir ≡ L.inodes.get t.inodes dir
      → load_inode L t' dir ≡ load_inode L t dir
  unfolding load_inode
  load_inode_same dir e = rw (e, load_inode)

  -- What a search finds, it finds again after the inode of a file was changed.
  pub search_same :
      (dir : ℕ) (name : List ℕ) (k : ℕ)
      → resolve_inode_in_directory L t dir name ≡ ok k
      → resolve_inode_in_directory L t' dir name ≡ ok k
  unfolding resolve_inode_in_directory
  search_same dir name k h = elim (others dir) [
    | inl e ↦
        let (r, l, more) = >>=-GoesOn (load_entries L t dir) _ h in
        absurd (load_file_entries r (subst (λ d. load_entries L t d ≡ ok r) (sym e) l))
    | inr e ↦ rw (load_inode_same dir e, resolve_inode_in_directory, load_entries) h
  ]
