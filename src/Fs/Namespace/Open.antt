-- ===== src/Fs/Namespace/Open.antt =====
-- `mtl_opendir` followed by `mtl_readdir` to the end.
use metal_fs.Base.{ℕ, ◌+◌, ◌≤◌, ◌<◌, ◌≡◌, subst, true, List, [], ◌∷◌, arith, leb, length}
use metal_fs.Fs.Types.{DirEntry}
use metal_fs.Fs.State.{Databases, Txn, ok}
use metal_fs.Fs.Inode.{load_inode}
use metal_fs.Fs.Directory.{head_size}
use metal_fs.Fs.Directory.Listing.{entries_size}
use metal_fs.Fs.Directory.Entries.{Holds}
use metal_fs.Fs.Namespace.{Dir, resolve_inode, opendir}
use metal_fs.Fs.Namespace.Resolve.{read_all, names, all_fit, read_all-names}

head_fits : (es : List DirEntry) → 0 < length es → head_size ≤ entries_size es
unfolding entries_size
head_fits [] h = absurd (omega arith)
head_fits (e ∷ es) h = omega arith

module _ (L : Databases) (t : Txn L) (path : List ℕ) (dir : ℕ) (es : List DirEntry)
    (found : resolve_inode L t path ≡ ok dir) (h : Holds L t dir es) where
  abbrev opened : Dir
  opened = record { length = h.inode.length; at = 0; rest = es; more = true }

  opendir-opened : opendir L t path ≡ ok opened
  unfolding opendir load_inode
  opendir-opened = rw found (rw (h.stored, load_inode))

  -- A well-formed directory with at least one entry, which its path resolves to, is opened, and
  -- reading it into one buffer, whatever that holds before, then lists each of its names once, in
  -- order, and ends, if the names have no byte 0 and the buffer has room for each and its end.
  pub opendir-names :
      (n : ℕ) (buffer : List ℕ)
      → 0 < length es
      → all_fit (length buffer) es ≡ true
      → length es < n
      → (d : Dir) × (opendir L t path ≡ ok d) × (read_all n buffer d ≡ ok (names es))
  opendir-names n buffer some_entry short enough =
      let more : leb (0 + head_size) h.inode.length ≡ true =
        ground (arith, h.size, head_fits es some_entry) in
      (
        opened,
        opendir-opened,
        subst
            (λ b.
              read_all n buffer (record { length = h.inode.length; at = 0; rest = es; more = b })
              ≡ ok (names es))
            more (read_all-names n h.inode.length 0 buffer es (omega (arith, h.size)) short enough),
      )
