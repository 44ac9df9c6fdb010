-- ===== src/Fs/Directory/Drop.antt =====
-- The copying walk of `mtl_remove_entry_from_directory` against the map.
use metal_fs.Base.{ℕ, ◌+◌, ◌<◌, ◌≡◌, Option, none, some, List, [], ◌∷◌, arith, length}
use metal_fs.Fs.Types.{no_entry, DirEntry}
use metal_fs.Fs.State.{ok, err}
use metal_fs.Fs.Directory.{head_size, entry_size, drop_entry}
use metal_fs.Fs.Directory.Listing.{
  eq_bytes_iff, has_name-eq_bytes, entries_size, lookup, Distinct, without, without-none,
  entries_size-without,
}

module _ (size limit : ℕ) (name : List ℕ) where
  -- Behind the entry that was skipped, the rest is copied.
  drop_entry-rest :
      (at out : ℕ) (id : Option ℕ) (es : List DirEntry)
      → lookup es name ≡ none
      → at + entries_size es ≡ limit
      → out + entries_size es ≡ size
      → drop_entry size limit name at out id es ≡ ok (es, id)
  unfolding drop_entry lookup entries_size
  drop_entry-rest at out id [] h a o = ground arith
  drop_entry-rest at out id (e ∷ es) h a o = ground (
    arith,
    has_name-eq_bytes name e,
    drop_entry-rest (at + entry_size e) (out + entry_size e) id es,
  )

  -- The entry that is there is skipped, and its number kept.
  pub drop_entry-some :
      (at : ℕ) (id : ℕ) (es : List DirEntry)
      → Distinct es
      → lookup es name ≡ some id
      → at + entries_size es ≡ limit
      → size + (head_size + length name) ≡ limit
      → drop_entry size limit name at at none es ≡ ok (without name es, some id)
  unfolding drop_entry lookup entries_size without
  drop_entry-some at id [] d h a s = ground arith
  drop_entry-some at id (e ∷ es) d h a s = ground (
    arith,
    has_name-eq_bytes name e,
    eq_bytes_iff name e.name,
    drop_entry-some (at + entry_size e) id es d.1,
    drop_entry-rest (at + entry_size e) at (some e.inode_id) es,
    without-none es name,
    entries_size-without es name id d.1,
  )

  -- An entry that is not there is noticed before too much is copied.
  pub drop_entry-none :
      (at : ℕ) (es : List DirEntry)
      → lookup es name ≡ none
      → 0 < entries_size es
      → at + entries_size es ≡ limit
      → size < limit
      → drop_entry size limit name at at none es ≡ err no_entry
  unfolding drop_entry lookup entries_size
  drop_entry-none at [] h pos a s = ground arith
  drop_entry-none at (e ∷ []) h pos a s = ground (arith, has_name-eq_bytes name e)
  drop_entry-none at (e ∷ f ∷ es) h pos a s =
      ground (arith, has_name-eq_bytes name e, drop_entry-none (at + entry_size e) (f ∷ es))
