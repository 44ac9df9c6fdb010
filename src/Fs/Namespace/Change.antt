-- ===== src/Fs/Namespace/Change.antt =====
-- The functions of metal.c that change a directory, as changes of the map of names.
use Prim.Native.Nat.{bit_or}
use native.Mathlib.Decide.{ℕ_discrete}
use metal_fs.Base.{
  ℕ, ◌+◌, ◌^◌, ◌≤◌, ◌<◌, ◌≡◌, sym, ap, ◌∙◌, ◌≢◌, ◌⊎◌, inl, inr, false, none, some, List, [], arith,
  if◌then◌else◌, length,
}
use metal_fs.Fs.Types.{add64, sub64, exists, file, Inode, DirEntry, extents, InodeValue}
use metal_fs.Fs.State.{Databases, Txn, ok}
use metal_fs.Fs.Inode.{put_inode, next_inode_id}
use metal_fs.Fs.Path.{basename}
use metal_fs.Fs.Directory.{
  head_size, s_ifreg, append_inode_id_to_directory, fresh_inode, create_file_as,
  create_file_in_directory,
}
use metal_fs.Fs.Directory.Listing.{eq_bytes, entries_size, lookup}
use metal_fs.Fs.Directory.Entries.{
  Holds, OthersSame, OnlyEntries, append_inode-exists, append_inode-lookup, remove_entry-lookup,
  remove_entry-missing,
}
use metal_fs.Fs.FileData.Write.{IsFile}
use metal_fs.Fs.Namespace.{
  commits, aborts, crashes, resolve_parent_dir_inode, create, rename, unlink_found, unlink,
}

module _ (L : Databases) where
  OthersSame-trans :
      (dir : ℕ) (t t' t'' : Txn L)
      → OthersSame L dir t t'
      → OthersSame L dir t' t''
      → OthersSame L dir t t''
  OthersSame-trans dir t t' t'' a b k = elim (a k) [
    | inl e ↦ inl e
    | inr e ↦ elim (b k) [ inl f ↦ inl f | inr f ↦ inr (f ∙ e) ]
  ]

  OnlyEntries-trans :
      (dir : ℕ) (t t' t'' : Txn L) (i i' i'' : Inode)
      → OnlyEntries L dir i t i' t'
      → OnlyEntries L dir i' t' i'' t''
      → OnlyEntries L dir i t i'' t''
  OnlyEntries-trans dir t t' t'' i i' i'' (a, xs, hp, nx, os) (a', xs', hp', nx', os') = (
    a' ∙ ap (λ (j : Inode). record j { length = i''.length }) a,
    xs' ∙ xs,
    hp' ∙ hp,
    nx' ∙ nx,
    OthersSame-trans dir t t' t'' os os',
  )

  -- The inode of a file that is created, as mtl_create_file_in_directory fills it in.
  abbrev pub new_file : (now mode : ℕ) → Inode
  new_file now mode = record {
    type = file;
    length = 0;
    user = 0;
    group = 0;
    accessed = now;
    modified = now;
    created = now;
    mode = bit_or mode s_ifreg;
  }

  -- What creating the file `id` in the directory `dir` makes, and what it leaves: of the inode of
  -- the directory all but the length, and the other inodes.
  abbrev pub Created : Txn L → ℕ → Inode → ℕ → (now mode : ℕ) → Txn L → Inode → Type 0
  Created t dir inode id now mode t' inode' =
      IsFile L t' id (new_file now mode) []
      × (t'.next_inode ≡ some (id + 1))
      × (inode' ≡ record inode { length = inode'.length })
      × (t'.extents ≡ t.extents)
      × (t'.heap ≡ t.heap)
      × ((k : ℕ) → (dir ≡ k) ⊎ ((id ≡ k) ⊎ (L.inodes.get t'.inodes k ≡ L.inodes.get t.inodes k)))

  module _ (t : Txn L) (dir : ℕ) (es : List DirEntry) (h : Holds L t dir es) (from : List ℕ)
      (from_dir : resolve_parent_dir_inode L t from ≡ ok dir)
      (small : entries_size es < 2 ^ 63) where
    -- In a well-formed directory with less than 2 ^ 63 bytes of entries, a rename within it, to a
    -- name of at most 255 bytes that is not there, is committed, moves the number of the old name
    -- to the new one, and leaves the other names, the other attributes of the directory, the other
    -- inodes, the extents, the heap and the next inode number alone.
    pub rename-lookup :
        (to : List ℕ) (id : ℕ)
        → resolve_parent_dir_inode L t to ≡ ok dir
        → lookup es (basename from) ≡ some id
        → lookup es (basename to) ≡ none
        → length (basename to) < 256
        → (t'' : Txn L) × (fs : List DirEntry) × (rename L t from to ≡ commits t'')
          × (h'' : Holds L t'' dir fs) × ((j : List ℕ)
              → lookup fs j ≡ (
                  if eq_bytes (basename to) j
                  then some id
                  else if eq_bytes (basename from) j
                  then none
                  else lookup es j))
          × OnlyEntries L dir h.inode t h''.inode t''
    unfolding rename
    rename-lookup to id to_dir there new short =
        let (t', fs, e, h', looks, less, others) =
          remove_entry-lookup L t dir es (basename from) h id there small in
        let still_new : lookup fs (basename to) ≡ none = ground (arith, looks (basename to), new) in
        let (t'', gs, e', h'', looks', others') =
          append_inode-lookup L t' dir fs (basename to) h' id still_new short
            (omega (arith, less, small)) in
        (
          t'',
          gs,
          rw (from_dir, to_dir, e, e'),
          h'',
          λ j. looks' j ∙ rw (looks j),
          OnlyEntries-trans dir t t' t'' h.inode h'.inode h''.inode others others',
        )

    -- In a well-formed directory with less than 2 ^ 63 bytes of entries, a rename within it, to a
    -- name that is there and is not the old one, is aborted with MTL_ERROR_EXISTS.
    pub rename-exists :
        (to : List ℕ) (id old : ℕ)
        → resolve_parent_dir_inode L t to ≡ ok dir
        → lookup es (basename from) ≡ some id
        → lookup es (basename to) ≡ some old
        → eq_bytes (basename from) (basename to) ≡ false
        → rename L t from to ≡ aborts exists
    unfolding rename
    rename-exists to id old to_dir there taken other =
        let (t', fs, e, h', looks, less, others) =
          remove_entry-lookup L t dir es (basename from) h id there small in
        let still : lookup fs (basename to) ≡ some old =
          ground (arith, looks (basename to), taken, other) in
        rw (from_dir, to_dir, e, append_inode-exists L t' dir fs (basename to) h' id old still)

    -- In a well-formed directory with less than 2 ^ 63 bytes of entries, unlinking a name that is
    -- not there goes on with a number that was never set, where the data is at least as long as an
    -- entry for the name would be.
    unlink_missing :
        lookup es (basename from) ≡ none
        → head_size + length (basename from) ≤ entries_size es
        → unlink L t from ≡ crashes
    unfolding unlink unlink_found
    unlink_missing missing long =
        rw (from_dir, remove_entry-missing L t dir es (basename from) h missing long small)

    abbrev numbered : ℕ → Txn L
    numbered id = record t { next_inode = some (id + 1) }

    next_inode_id-numbered :
        (id : ℕ) → t.next_inode ≡ some id → id + 1 < 2 ^ 64 → next_inode_id L t ≡ (numbered id, id)
    unfolding next_inode_id
    next_inode_id-numbered id next no_wrap =
        let after : add64 id 1 ≡ id + 1 = omega arith in
        let before : sub64 (id + 1) 1 ≡ id = omega arith in rw (next, after, before)

    create_file-some :
        (t2 : Txn L) (id now mode : ℕ)
        → next_inode_id L t ≡ (numbered id, id)
        → append_inode_id_to_directory L (numbered id) dir (basename from) id ≡ ok t2
        → create_file_in_directory L t dir (basename from) now mode
          ≡ ok (
            put_inode L t2 id (record {
              inode = fresh_inode L file now (bit_or mode s_ifreg);
              content = extents [];
            }),
            id,
          )
    unfolding create_file_in_directory create_file_as
    create_file-some t2 id now mode number e =
        ap (λ q. create_file_as L q dir (basename from) now mode) number ∙ rw e

    -- In a well-formed directory with less than 2 ^ 63 bytes of entries, creating a file under a
    -- name of at most 255 bytes that is not there is committed, gives the file the next number,
    -- adds the name with that number, makes the inode an empty file of that time and mode, counts
    -- the next number up, and leaves the other names, the other attributes of the directory, the
    -- other inodes, the extents and the heap alone; the next number is not the directory's and does
    -- not wrap.
    pub create-lookup :
        (now mode id : ℕ)
        → t.next_inode ≡ some id
        → id + 1 < 2 ^ 64
        → dir ≢ id
        → lookup es (basename from) ≡ none
        → length (basename from) < 256
        → (t' : Txn L) × (fs : List DirEntry) × (create L t from now mode ≡ commits (t', id))
          × (h' : Holds L t' dir fs) × ((j : List ℕ)
              → lookup fs j ≡ (if eq_bytes (basename from) j then some id else lookup es j))
          × Created t dir h.inode id now mode t' h'.inode
    unfolding create put_inode
    create-lookup now mode id next no_wrap other new short =
        let h1 : Holds L (numbered id) dir es = record {
          inode = h.inode;
          stored = h.stored;
          kind = h.kind;
          size = h.size;
          distinct = h.distinct;
        } in
        let (t2, fs, e, h2, looks, (attributes, xs, hp, nx, others)) =
          append_inode-lookup L (numbered id) dir es (basename from) h1 id new short small in
        let made = fresh_inode L file now (bit_or mode s_ifreg) in
        let value : InodeValue = record { inode = made; content = extents [] } in
        (
          put_inode L t2 id value,
          fs,
          rw (from_dir, create_file-some t2 id now mode (next_inode_id-numbered id next no_wrap) e),
          record {
            inode = h2.inode;
            stored = L.inodes.get-put_ne t2.inodes id dir value (λ q. other (sym q)) ∙ h2.stored;
            kind = h2.kind;
            size = h2.size;
            distinct = h2.distinct;
          },
          looks,
          (
            record { stored = L.inodes.get-put_self t2.inodes id value },
            nx,
            attributes,
            xs,
            hp,
            λ k. elim (ℕ_discrete id k) [
              | yes q ↦ inr (inl q)
              | no ne ↦ elim (others k) [
                | inl q ↦ inl q
                | inr q ↦ inr (inr (L.inodes.get-put_ne t2.inodes id k value ne ∙ q))
              ]
            ],
          ),
        )
