-- ===== src/Tests/Changes.antt =====
-- Changes of the root directory of the tree.
use metal_fs.Base.{
  ℕ, ◌^◌, ◌<◌, ◌≡◌, refl, Option, none, some, List, [], ◌∷◌, arith, if◌then◌else◌, length,
}
use metal_fs.Fs.Types.{DirEntry}
use metal_fs.Fs.State.{Txn, ok}
use metal_fs.Fs.Directory.Listing.{eq_bytes, entries_size, lookup}
use metal_fs.Fs.Directory.Entries.{Holds, OnlyEntries}
use metal_fs.Fs.Path.{
  strip, until_slash, from_slash, root, basename_of, dirname_of, basename, strip_last, dirname,
}
use metal_fs.Fs.Path.Components.{no_slash, IsComponent, path_of, basename-path_of}
use metal_fs.Fs.Namespace.{
  commits, Dir, resolve_calls, resolve_inode, resolve_parent_dir_inode, opendir, create, rename,
}
use metal_fs.Fs.Namespace.Resolve.{walk, resolve_parent-walk, read_all, names, all_fit}
use metal_fs.Fs.Namespace.Open.{opendir-names}
use metal_fs.Fs.Namespace.Change.{Created, rename-lookup, create-lookup}
use metal_fs.Tests.{memory}
use metal_fs.Tests.Files.{listing, tree, tree-Holds, plain_a}

-- `/` and a component.
abbrev at_root : List ℕ → List ℕ
at_root c = path_of (c ∷ [])

parent_at_root :
    (c : List ℕ) → IsComponent c → resolve_parent_dir_inode memory tree (at_root c) ≡ ok 0
unfolding walk
parent_at_root c plain = resolve_parent-walk memory tree c [] (plain, tt)

plain_d : IsComponent (100 ∷ [])
unfolding no_slash
plain_d = (omega arith, refl)

-- What a name is in the root directory.
looked_up :
    (c : List ℕ) (r : Option ℕ)
    → IsComponent c
    → lookup listing c ≡ r
    → lookup listing (basename (at_root c)) ≡ r
looked_up c r plain h = rw (basename-path_of c [] plain, h)

short_name : (c : List ℕ) (n : ℕ) → IsComponent c → length c < n → length (basename (at_root c)) < n
short_name c n plain h = rw (basename-path_of c [] plain) h

small_listing : entries_size listing < 2 ^ 63
unfolding entries_size
small_listing = omega arith

rename-lookup_example :
    (t'' : Txn memory) × (fs : List DirEntry) × (rename memory tree
        (at_root (97 ∷ []))
        (at_root (100 ∷ []))
      ≡ commits t'')
    × (h'' : Holds memory t'' 0 fs) × ((j : List ℕ)
        → lookup fs j ≡ (
            if eq_bytes (basename (at_root (100 ∷ []))) j
            then some 1
            else if eq_bytes (basename (at_root (97 ∷ []))) j
            then none
            else lookup listing j))
    × OnlyEntries memory 0 tree-Holds.inode tree h''.inode t''
unfolding lookup eq_bytes
rename-lookup_example =
    rename-lookup memory tree 0 listing tree-Holds (at_root (97 ∷ []))
      (parent_at_root (97 ∷ []) plain_a) small_listing (at_root (100 ∷ [])) 1
      (parent_at_root (100 ∷ []) plain_d) (looked_up (97 ∷ []) (some 1) plain_a refl)
      (looked_up (100 ∷ []) none plain_d refl) (short_name (100 ∷ []) 256 plain_d (omega arith))

create-lookup_example :
    (t' : Txn memory) × (fs : List DirEntry) × (create memory tree (at_root (100 ∷ [])) 7 420
      ≡ commits (t', 3))
    × (h' : Holds memory t' 0 fs) × ((j : List ℕ)
        → lookup fs j
          ≡ (if eq_bytes (basename (at_root (100 ∷ []))) j then some 3 else lookup listing j))
    × Created memory tree 0 tree-Holds.inode 3 7 420 t' h'.inode
unfolding lookup eq_bytes
create-lookup_example =
    create-lookup memory tree 0 listing tree-Holds (at_root (100 ∷ []))
      (parent_at_root (100 ∷ []) plain_d) small_listing 7 420 3 refl (omega arith) (omega arith)
      (looked_up (100 ∷ []) none plain_d refl) (short_name (100 ∷ []) 256 plain_d (omega arith))

root_resolved : resolve_inode memory tree root ≡ ok 0
unfolding resolve_inode resolve_calls strip until_slash from_slash basename_of dirname_of basename
    strip_last dirname eq_bytes
root_resolved = refl

-- A buffer of 16 bytes, with something in it.
abbrev buffer : List ℕ
buffer = 7 ∷ 7 ∷ 7 ∷ 7 ∷ 7 ∷ 7 ∷ 7 ∷ 7 ∷ 7 ∷ 7 ∷ 7 ∷ 7 ∷ 7 ∷ 7 ∷ 7 ∷ 7 ∷ []

opendir-names_example :
    (d : Dir) × (opendir memory tree root ≡ ok d) × (read_all 5 buffer d ≡ ok (names listing))
unfolding all_fit
opendir-names_example =
    opendir-names memory tree root 0 listing root_resolved tree-Holds 5 buffer (omega arith) refl
      (omega arith)
