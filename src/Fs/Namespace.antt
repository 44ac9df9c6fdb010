-- ===== src/Fs/Namespace.antt =====
-- src/metal-filesystem/src/metal.c: the functions on paths, and how each ends its transaction.
pub mod Resolve
pub mod Change
pub mod Open
pub mod Others
use metal_fs.Base.{
  ℕ, zero, suc, ◌+◌, Bool, true, Option, none, some, List, [], ◌∷◌, ltb, leb, ◌==◌, if◌then◌else◌,
  length,
}
use metal_fs.Fs.Types.{ErrorCode, FileExtent, Inode, DirEntry}
use metal_fs.Fs.State.{Databases, Txn, Result, ok, err, fault, ◌>>=◌, asserted, deref}
use metal_fs.Fs.Extent.{initialize_extents, free_extent}
use metal_fs.Fs.Inode.{extents_of, entries_of, load_inode, put_inode, delete_inode}
use metal_fs.Fs.Directory.{
  head_size, entry_size, resolve_inode_in_directory, append_inode_id_to_directory,
  remove_entry_from_directory, remove_directory, create_root_directory,
  create_directory_in_directory, create_file_in_directory,
}
use metal_fs.Fs.Path.{root, basename, dirname}
use metal_fs.Fs.Directory.Listing.{eq_bytes}

-- How a call ends: `leaked` returns a code with the transaction neither committed nor aborted.
pub data Finish (A : Type 0) : Type 0 where
  commits : A → Finish A
  aborts leaks : ErrorCode → Finish A
  crashes : Finish A

abbrev pub finish : {A : Type 0} → Result A → Finish A
finish (ok a) = commits a
finish (err e) = aborts e
finish fault = crashes

-- `strcmp(path, "/") == 0`
abbrev pub is_root : List ℕ → Bool
is_root p = eq_bytes p root

-- What `mtl_opendir` copies: the inode's length, the position in the data, the entries from there
-- on, and whether a next entry is to be read.
pub record Dir : Type 0 where
  pub length : ℕ
  pub at : ℕ
  pub rest : List DirEntry
  pub more : Bool

abbrev pub tail : List ℕ → List ℕ
tail [] = []
tail (b ∷ bs) = bs

-- `strncpy` of `n` bytes to the start of a buffer: zeros behind the end of the text.
unfoldable pub strncpy : (n : ℕ) → (text buffer : List ℕ) → List ℕ
strncpy zero text buffer = buffer
strncpy (suc n) [] buffer = 0 ∷ strncpy n [] (tail buffer)
strncpy (suc n) (c ∷ text) buffer = c ∷ strncpy n (if c == 0 then [] else text) (tail buffer)

-- `buffer[i] = '\0'`
unfoldable pub terminate : (i : ℕ) → (buffer : List ℕ) → List ℕ
terminate i [] = []
terminate zero (b ∷ bs) = 0 ∷ bs
terminate (suc i) (b ∷ bs) = b ∷ terminate i bs

-- What `mtl_readdir` puts into a buffer of `size` bytes: no end of the text if there is no room.
unfoldable pub fill_name : (name : List ℕ) → (size : ℕ) → (buffer : List ℕ) → List ℕ
unfolding strncpy terminate
fill_name name size buffer =
    let copied = strncpy (if ltb size (length name) then size else length name) name buffer in
    if ltb (length name) size then terminate (length name) copied else copied

-- The buffer with the next name, and the directory after it; `none` is MTL_COMPLETE, which leaves the
-- buffer as it is.
pub readdir : Dir → (buffer : List ℕ) → (size : ℕ) → Result (Option (List ℕ × Dir))
unfolding fill_name
readdir d buffer size =
    if d.more
    then elim d.rest [
      | [] ↦ fault
      | e ∷ rest ↦
          let at = d.at + entry_size e in
          ok (
            some (
              fill_name e.name size buffer,
              record d { at = at; rest = rest; more = leb (at + head_size) d.length },
            ))
    ]
    else ok none

module _ (L : Databases) where
  -- Each call goes one directory up. For an absolute path the length of the path bounds the calls;
  -- for a relative one the C function calls itself without end.
  unfoldable pub resolve_calls : ℕ → Txn L → List ℕ → Result ℕ
  unfolding resolve_inode_in_directory eq_bytes
  resolve_calls zero t path = fault
  resolve_calls (suc n) t path =
      let above = resolve_calls n t (dirname path) in
      (if is_root (dirname path) then ok 0 else above) >>= λ dir.
      if is_root (basename path) then ok 0 else resolve_inode_in_directory L t dir (basename path)

  unfoldable pub resolve_inode : Txn L → List ℕ → Result ℕ
  unfolding resolve_calls
  resolve_inode t path = resolve_calls (suc (length path)) t path

  pub resolve_parent_dir_inode : Txn L → List ℕ → Result ℕ
  unfolding resolve_inode eq_bytes
  resolve_parent_dir_inode t path =
      if is_root (dirname path) then ok 0 else resolve_inode t (dirname path)

  unfoldable pub get_inode : Txn L → List ℕ → Result Inode
  unfolding resolve_inode load_inode
  get_inode t path = do id ← resolve_inode t path; v ← load_inode L t id; ok v.inode

  -- The results of the two look-ups are not looked at.
  pub opendir : Txn L → List ℕ → Result Dir
  unfolding resolve_inode load_inode
  opendir t path = do
    id ← asserted (resolve_inode t path)
    v ← asserted (load_inode L t id)
    es ← entries_of v.content
    ok (record { length = v.inode.length; at = 0; rest = es; more = true })

  pub mkdir : Txn L → List ℕ → (now mode : ℕ) → Finish (Txn L)
  unfolding resolve_parent_dir_inode create_directory_in_directory
  mkdir t path now mode = finish (do
    parent ← resolve_parent_dir_inode t path
    (t', id) ← create_directory_in_directory L t parent (basename path) now mode
    ok t')

  pub create : Txn L → List ℕ → (now mode : ℕ) → Finish (Txn L × ℕ)
  unfolding resolve_parent_dir_inode create_file_in_directory
  create t path now mode = finish (do
    parent ← resolve_parent_dir_inode t path
    create_file_in_directory L t parent (basename path) now mode)

  pub rmdir : Txn L → List ℕ → Finish (Txn L)
  unfolding resolve_parent_dir_inode remove_entry_from_directory remove_directory
  rmdir t path = finish (do
    parent ← resolve_parent_dir_inode t path
    (t', found) ← remove_entry_from_directory L t parent (basename path)
    id ← deref found
    remove_directory L t' id)

  -- A group below 0 (here `none`) leaves the group as it is. The C function returns the negated
  -- error code.
  pub chown : Txn L → List ℕ → (uid : ℕ) → Option ℕ → Finish (Txn L)
  unfolding resolve_inode load_inode put_inode
  chown t path uid gid = finish (do
    id ← resolve_inode t path
    v ← load_inode L t id
    let group : ℕ = elim gid [ none ↦ v.inode.group | some g ↦ g ]
    let inode : Inode = record (v.inode) { user = uid; group = group }
    ok (put_inode L t id (record v { inode = inode })))

  pub rename : Txn L → (from to : List ℕ) → Finish (Txn L)
  unfolding resolve_parent_dir_inode remove_entry_from_directory append_inode_id_to_directory
  rename t from to = finish (do
    from_dir ← resolve_parent_dir_inode t from
    to_dir ← resolve_parent_dir_inode t to
    (t', found) ← remove_entry_from_directory L t from_dir (basename from)
    id ← deref found
    append_inode_id_to_directory L t' to_dir (basename to) id)

  pub free_all : Txn L → List FileExtent → Result (Txn L)
  unfolding free_extent
  free_all t [] = ok t
  free_all t (x ∷ xs) = do t' ← free_extent L t x.offset; free_all t' xs

  pub unlink_file : Txn L → ℕ → Finish (Txn L)
  unfolding load_inode free_all delete_inode
  unlink_file t id = elim (load_inode L t id) [
    | err e ↦ leaks e
    | fault ↦ crashes
    | ok v ↦ finish (do xs ← extents_of v.content; t' ← free_all t xs; ok (delete_inode L t' id))
  ]

  pub unlink_found : Result (Txn L × ℕ) → Finish (Txn L)
  unfolding unlink_file
  unlink_found (ok (t, id)) = unlink_file t id
  unlink_found (err e) = crashes
  unlink_found fault = crashes

  -- The results of the first two steps are overwritten: after an error the function goes on with a
  -- number that was never set.
  pub unlink : Txn L → List ℕ → Finish (Txn L)
  unfolding resolve_parent_dir_inode remove_entry_from_directory unlink_found
  unlink t path = unlink_found (do
    parent ← asserted (resolve_parent_dir_inode t path)
    (t', found) ← asserted (remove_entry_from_directory L t parent (basename path))
    id ← deref found
    ok (t', id))

  unfoldable initialize : Txn L → (blocks now : ℕ) → Txn L
  unfolding create_root_directory initialize_extents
  initialize t blocks now = initialize_extents L (create_root_directory L t now) blocks
