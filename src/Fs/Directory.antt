-- ===== src/Fs/Directory.antt =====
-- src/metal-filesystem/src/inode.c: directories. The entries of a directory stand one behind the
-- other in its data: a head of 16 bytes, with the length of the name in one byte, and the name.
pub mod Listing
pub mod Drop
pub mod Entries
pub mod Others
use Prim.Native.Nat.{bit_or}
use metal_fs.Base.{
  ℕ, zero, suc, ◌+◌, Bool, true, false, ◌&&◌, Option, none, some, List, [], ◌∷◌, ◌++◌, ltb, leb,
  ◌==◌, if◌then◌else◌, length,
}
use metal_fs.Fs.Types.{
  add64, sub64, no_entry, exists, not_directory, not_empty, InodeType, file, directory, Inode,
  DirEntry, entries, extents,
}
use metal_fs.Fs.State.{Databases, Txn, Result, ok, err, fault, ◌>>=◌, asserted, or_keep}
use metal_fs.Fs.Inode.{entries_of, load_inode, put_inode, delete_inode, next_inode_id}

-- `sizeof(mtl_directory_entry_head)`
abbrev pub head_size : ℕ
head_size = 16

abbrev pub entry_size : DirEntry → ℕ
entry_size e = head_size + length e.name

-- `strncmp(a, b, n) == 0`, for texts of at least `n` bytes
pub strncmp_eq : ℕ → List ℕ → List ℕ → Bool
strncmp_eq zero a b = true
strncmp_eq (suc n) [] [] = true
strncmp_eq (suc n) [] (y ∷ ys) = false
strncmp_eq (suc n) (x ∷ xs) [] = false
strncmp_eq (suc n) (x ∷ xs) (y ∷ ys) = (x == y) && strncmp_eq n xs ys

pub has_name : List ℕ → DirEntry → Bool
unfolding strncmp_eq
has_name name e = (length name == length e.name) && strncmp_eq (length e.name) e.name name

-- The walk by `mtl_load_next_directory_entry`: an entry is read where its head ends within the
-- inode's length. A head that the data does not hold is read out of bounds.
pub find_entry : ℕ → List ℕ → ℕ → List DirEntry → Result (Option ℕ)
unfolding has_name
find_entry limit name at [] = if leb (at + head_size) limit then fault else ok none
find_entry limit name at (e ∷ es) =
    if leb (at + head_size) limit
    then if has_name name e
      then ok (some e.inode_id)
      else find_entry limit name (at + entry_size e) es
    else ok none

-- The copying walk of `mtl_remove_entry_from_directory`: `size` is the new data's length, `out`
-- what is written so far, and `id` the number of the last entry that was skipped.
pub drop_entry :
    (size limit : ℕ)
    → List ℕ
    → (at out : ℕ) → Option ℕ
    → List DirEntry
    → Result (List DirEntry × Option ℕ)
unfolding has_name
drop_entry size limit name at out id [] = if leb (at + head_size) limit then fault else ok ([], id)
drop_entry size limit name at out id (e ∷ es) =
    let skip = drop_entry size limit name (at + entry_size e) out (some e.inode_id) es in
    let keep = drop_entry size limit name (at + entry_size e) (out + entry_size e) id es in
    if leb (at + head_size) limit
    then if has_name name e
      then skip
      else if ltb size (out + length e.name + head_size)
      then err no_entry
      else (do (rest, found) ← keep; ok (e ∷ rest, found))
    else ok ([], id)

-- `"."` and `".."`
abbrev pub dot : List ℕ
dot = 46 ∷ []

abbrev pub dotdot : List ℕ
dotdot = 46 ∷ 46 ∷ []

-- The loop of `mtl_remove_directory`.
pub check_empty : ℕ → ℕ → List DirEntry → Result (Unit {0})
unfolding has_name
check_empty limit at [] = if leb (at + head_size) limit then fault else ok tt
check_empty limit at (e ∷ es) =
    let rest = check_empty limit (at + entry_size e) es in
    if leb (at + head_size) limit
    then if has_name dot e then rest else if has_name dotdot e then rest else err not_empty
    else ok tt

-- `S_IFDIR` and `S_IFREG`
abbrev pub s_ifdir : ℕ
s_ifdir = 0o40000

abbrev pub s_ifreg : ℕ
s_ifreg = 0o100000

abbrev pub is_directory : InodeType → Bool
is_directory directory = true
is_directory file = false

module _ (L : Databases) where
  -- Every function here uses the inode without a look at what `mtl_load_inode` returned.
  pub load_entries : Txn L → ℕ → Result (Inode × List DirEntry)
  unfolding load_inode
  load_entries t dir = do
    v ← asserted (load_inode L t dir)
    if is_directory v.inode.type
        then (do es ← entries_of v.content; ok (v.inode, es))
        else err not_directory

  pub put_entries : Txn L → ℕ → Inode → ℕ → List DirEntry → Txn L
  unfolding put_inode
  put_entries t dir inode len es =
      put_inode L t dir (record { inode = record inode { length = len }; content = entries es })

  unfoldable pub resolve_inode_in_directory : Txn L → ℕ → List ℕ → Result ℕ
  unfolding load_entries find_entry
  resolve_inode_in_directory t dir name = do
    (inode, es) ← load_entries t dir
    found ← find_entry inode.length name 0 es
    elim found [ none ↦ err no_entry | some id ↦ ok id ]

  -- The length of a name goes into one byte; a longer name makes an entry that cannot be walked
  -- over, which is not modelled further.
  unfoldable pub append_inode_id_to_directory : Txn L → ℕ → List ℕ → ℕ → Result (Txn L)
  unfolding load_entries find_entry put_entries
  append_inode_id_to_directory t dir name id = do
    (inode, es) ← load_entries t dir
    found ← find_entry inode.length name 0 es
    elim found [
      | some _ ↦ err exists
      | none ↦
          if ltb (length name) 256
          then ok (
              put_entries t dir inode (add64 (add64 inode.length head_size) (length name))
                (es ++ record { inode_id = id; name = name } ∷ []))
          else fault
    ]

  -- The new data stands in an array on the stack, of a length that wraps where the entry to be
  -- removed is longer than all the data: there is no such array.
  unfoldable pub remove_entry_from_directory : Txn L → ℕ → List ℕ → Result (Txn L × Option ℕ)
  unfolding load_entries drop_entry put_entries
  remove_entry_from_directory t dir name = do
    (inode, es) ← load_entries t dir
    if ltb inode.length (head_size + length name) then fault else do
      let size = sub64 inode.length (head_size + length name)
      (kept, id) ← drop_entry size inode.length name 0 0 none es
      ok (put_entries t dir inode size kept, id)

  unfoldable pub remove_directory : Txn L → ℕ → Result (Txn L)
  unfolding load_entries check_empty delete_inode
  remove_directory t dir = do
    (inode, es) ← load_entries t dir
    _ ← check_empty inode.length 0 es
    ok (delete_inode L t dir)

  -- `now` is what `time(NULL)` returns.
  abbrev pub fresh_inode : InodeType → ℕ → ℕ → Inode
  fresh_inode type now mode = record {
    type = type;
    length = 0;
    user = 0;
    group = 0;
    accessed = now;
    modified = now;
    created = now;
    mode = mode;
  }

  unfoldable pub create_root_directory : Txn L → ℕ → Txn L
  unfolding put_inode append_inode_id_to_directory load_inode
  create_root_directory t now = elim (load_inode L t 0) [
    | ok _ ↦ t
    | _ ↦
        let root = fresh_inode directory now 0o40755 in
        let t1 = put_inode L t 0 (record { inode = root; content = entries [] }) in
        let t2 = or_keep (append_inode_id_to_directory t1 0 dot 0) t1 in
        or_keep (append_inode_id_to_directory t2 0 dotdot 0) t2
  ]

  unfoldable pub create_directory_in_directory :
      Txn L → ℕ → List ℕ → (now mode : ℕ) → Result (Txn L × ℕ)
  unfolding next_inode_id append_inode_id_to_directory put_inode
  create_directory_in_directory t dir name now mode = do
    let (t1, id) = next_inode_id L t
    t2 ← append_inode_id_to_directory t1 dir name id
    let inode = fresh_inode directory now (bit_or mode s_ifdir)
    let t3 = put_inode L t2 id (record { inode = inode; content = entries [] })
    t4 ← append_inode_id_to_directory t3 id dot id
    t5 ← append_inode_id_to_directory t4 id dotdot dir
    ok (t5, id)

  -- The file, with the number that it gets.
  unfoldable pub create_file_as : Txn L × ℕ → ℕ → List ℕ → (now mode : ℕ) → Result (Txn L × ℕ)
  unfolding append_inode_id_to_directory put_inode
  create_file_as (t1, id) dir name now mode = do
    t2 ← append_inode_id_to_directory t1 dir name id
    let inode = fresh_inode file now (bit_or mode s_ifreg)
    ok (put_inode L t2 id (record { inode = inode; content = extents [] }), id)

  unfoldable pub create_file_in_directory : Txn L → ℕ → List ℕ → (now mode : ℕ) → Result (Txn L × ℕ)
  unfolding next_inode_id create_file_as
  create_file_in_directory t dir name now mode =
      create_file_as (next_inode_id L t) dir name now mode
