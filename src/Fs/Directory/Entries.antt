-- ===== src/Fs/Directory/Entries.antt =====
-- The directory operations refine a finite map from names to inode numbers.
use native.Mathlib.Decide.{ℕ_discrete}
use metal_fs.Base.{
  ℕ, ◌+◌, ◌^◌, ◌≤◌, ◌<◌, ◌≡◌, refl, ◌⊎◌, inl, inr, true, false, Option, none, some, List, [], ◌∷◌,
  ◌++◌, arith, ltb, if◌then◌else◌, length,
}
use metal_fs.Fs.Types.{add64, sub64, no_entry, exists, directory, Inode, DirEntry, entries}
use metal_fs.Fs.State.{Databases, Txn, Result, ok, err, fault}
use metal_fs.Fs.Inode.{load_inode, put_inode}
use metal_fs.Fs.Directory.{
  head_size, find_entry, load_entries, put_entries, resolve_inode_in_directory,
  append_inode_id_to_directory, remove_entry_from_directory,
}
use metal_fs.Fs.Directory.Listing.{
  eq_bytes, entries_size, lookup, Distinct, without, entries_size-append, lookup-append,
  Distinct-append, lookup-without, Distinct-without, entries_size-without, find_entry-lookup,
}
use metal_fs.Fs.Directory.Drop.{drop_entry-some, drop_entry-none}

module _ (L : Databases) where
  -- Inode `dir` of the transaction is a directory with these entries.
  pub record Holds (t : Txn L) (dir : ℕ) (es : List DirEntry) : Type 0 where
    pub inode : Inode
    pub stored : L.inodes.get t.inodes dir ≡ some (record { inode = inode; content = entries es })
    pub kind : inode.type ≡ directory
    pub size : inode.length ≡ entries_size es
    pub distinct : Distinct es

  load_entries-Holds :
      {t : Txn L} {dir : ℕ} {es : List DirEntry} (h : Holds t dir es)
      → load_entries L t dir ≡ ok (h.inode, es)
  unfolding load_entries load_inode
  load_entries-Holds h = rw (h.stored, load_inode, h.kind)

  abbrev put_entries-Holds :
      {t : Txn L} {dir : ℕ} {es : List DirEntry} (h : Holds t dir es) (len : ℕ) (fs : List DirEntry)
      → len ≡ entries_size fs
      → Distinct fs
      → Holds (put_entries L t dir h.inode len fs) dir fs
  unfolding put_entries put_inode
  put_entries-Holds {t} {dir} h len fs size distinct = record {
    inode = record (h.inode) { length = len };
    stored = L.inodes.get-put_self t.inodes dir _;
    kind = h.kind;
    size = size;
    distinct = distinct;
  }

  -- The number under a name, or the error for a name that is not there.
  abbrev pub or_no_entry : Option ℕ → Result ℕ
  or_no_entry none = err no_entry
  or_no_entry (some id) = ok id

  -- No other inode changes.
  abbrev pub OthersSame : ℕ → Txn L → Txn L → Type 0
  OthersSame dir t t' = (k : ℕ) → (dir ≡ k) ⊎ (L.inodes.get t'.inodes k ≡ L.inodes.get t.inodes k)

  -- Of the inode of directory `dir` no more than the length changes, and besides it and its
  -- entries nothing does.
  abbrev pub OnlyEntries : ℕ → Inode → Txn L → Inode → Txn L → Type 0
  OnlyEntries dir inode t inode' t' =
      (inode' ≡ record inode { length = inode'.length })
      × (t'.extents ≡ t.extents)
      × (t'.heap ≡ t.heap)
      × (t'.next_inode ≡ t.next_inode)
      × OthersSame dir t t'

  put_entries-OnlyEntries :
      (t : Txn L) (dir : ℕ) (inode : Inode) (len : ℕ) (es : List DirEntry)
      → OnlyEntries dir inode t (record inode { length = len }) (put_entries L t dir inode len es)
  unfolding put_entries put_inode
  put_entries-OnlyEntries t dir inode len es = (
    refl,
    refl,
    refl,
    refl,
    λ k. elim (ℕ_discrete dir k) [
      | yes e ↦ inl e
      | no ne ↦ inr (L.inodes.get-put_ne t.inodes dir k _ ne)
    ],
  )

  module _ (t : Txn L) (dir : ℕ) (es : List DirEntry) (name : List ℕ) (h : Holds t dir es) where
    find : find_entry h.inode.length name 0 es ≡ ok (lookup es name)
    find = find_entry-lookup name 0 h.inode.length es (omega (arith, h.size))

    -- In a well-formed directory `mtl_resolve_inode_in_directory` returns the number under the
    -- name, and MTL_ERROR_NOENTRY exactly where the map has none.
    pub resolve_inode-lookup :
        resolve_inode_in_directory L t dir name ≡ or_no_entry (lookup es name)
    unfolding resolve_inode_in_directory
    resolve_inode-lookup = rw (load_entries-Holds h, find)

    -- In a well-formed directory, appending a name that is there fails with MTL_ERROR_EXISTS.
    pub append_inode-exists :
        (id old : ℕ)
        → lookup es name ≡ some old
        → append_inode_id_to_directory L t dir name id ≡ err exists
    unfolding append_inode_id_to_directory
    append_inode-exists id old there = rw (load_entries-Holds h, find, there)

    -- In a well-formed directory with less than 2 ^ 63 bytes of entries, appending a name of at
    -- most 255 bytes that is not there succeeds, keeps the directory well formed, adds the name
    -- with its number, and leaves the other names, the other attributes of the directory, the other
    -- inodes, the extents, the heap and the next inode number alone.
    pub append_inode-lookup :
        (id : ℕ)
        → lookup es name ≡ none
        → length name < 256
        → entries_size es < 2 ^ 63
        → (t' : Txn L) × (fs : List DirEntry) × (append_inode_id_to_directory L t dir name id
            ≡ ok t')
          × (h' : Holds t' dir fs) × ((j : List ℕ)
              → lookup fs j ≡ (if eq_bytes name j then some id else lookup es j))
          × OnlyEntries dir h.inode t h'.inode t'
    unfolding append_inode_id_to_directory entries_size
    append_inode-lookup id new short small =
        let e : DirEntry = record { inode_id = id; name = name } in
        let len = add64 (add64 h.inode.length head_size) (length name) in
        let fits : ltb (length name) 256 ≡ true = ground arith in
        (
          put_entries L t dir h.inode len (es ++ e ∷ []),
          es ++ e ∷ [],
          rw (load_entries-Holds h, find, new, fits),
          put_entries-Holds h len (es ++ e ∷ [])
              (omega (arith, h.size, entries_size-append es (e ∷ [])))
              (Distinct-append es e h.distinct new),
          λ j. lookup-append es e j new,
          put_entries-OnlyEntries t dir h.inode len (es ++ e ∷ []),
        )

    -- In a well-formed directory with less than 2 ^ 63 bytes of entries, removing a name that is
    -- there succeeds, returns its number, keeps the directory well formed, takes the name out and
    -- makes the data shorter, and leaves the other names, the other attributes of the directory, the
    -- other inodes, the extents, the heap and the next inode number alone.
    pub remove_entry-lookup :
        (id : ℕ)
        → lookup es name ≡ some id
        → entries_size es < 2 ^ 63
        → (t' : Txn L) × (fs : List DirEntry) × (remove_entry_from_directory L t dir name
            ≡ ok (t', some id))
          × (h' : Holds t' dir fs) × ((j : List ℕ)
              → lookup fs j ≡ (if eq_bytes name j then none else lookup es j))
          × (entries_size fs < entries_size es)
          × OnlyEntries dir h.inode t h'.inode t'
    unfolding remove_entry_from_directory
    remove_entry-lookup id there small =
        let shrunk = entries_size-without es name id h.distinct there in
        let size = sub64 h.inode.length (head_size + length name) in
        let fits : ltb h.inode.length (head_size + length name) ≡ false =
          ground (arith, h.size, shrunk) in
        let walk =
          drop_entry-some size h.inode.length name 0 id es h.distinct there (omega (arith, h.size))
            (omega (arith, h.size, shrunk)) in
        (
          put_entries L t dir h.inode size (without name es),
          without name es,
          rw (load_entries-Holds h, fits, walk),
          put_entries-Holds h size (without name es) (omega (arith, h.size, shrunk))
              (Distinct-without es name h.distinct),
          λ j. lookup-without es name j,
          omega (arith, shrunk),
          put_entries-OnlyEntries t dir h.inode size (without name es),
        )

    -- In a well-formed directory with less than 2 ^ 63 bytes of entries, removing a name that is
    -- not there fails with MTL_ERROR_NOENTRY, where the data is at least as long as an entry for
    -- the name would be.
    pub remove_entry-missing :
        lookup es name ≡ none
        → head_size + length name ≤ entries_size es
        → entries_size es < 2 ^ 63
        → remove_entry_from_directory L t dir name ≡ err no_entry
    unfolding remove_entry_from_directory
    remove_entry-missing missing long small =
        let size = sub64 h.inode.length (head_size + length name) in
        let fits : ltb h.inode.length (head_size + length name) ≡ false = ground (arith, h.size) in
        let walk =
          drop_entry-none size h.inode.length name 0 es missing (omega arith)
            (omega (arith, h.size)) (omega (arith, h.size)) in
        rw (load_entries-Holds h, fits, walk)

    -- In a well-formed directory whose data is shorter than an entry for the name would be,
    -- removing the name wraps the length of the array for the new data around.
    pub remove_entry-wraps :
        entries_size es < head_size + length name → remove_entry_from_directory L t dir name ≡ fault
    unfolding remove_entry_from_directory
    remove_entry-wraps short =
        let wraps : ltb h.inode.length (head_size + length name) ≡ true = ground (arith, h.size) in
        rw (load_entries-Holds h, wraps)
