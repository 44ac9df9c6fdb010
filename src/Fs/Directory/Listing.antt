-- ===== src/Fs/Directory/Listing.antt =====
-- A directory as a finite map from names to inode numbers, and the walks over its entries.
use metal_fs.Base.{
  ℕ, ◌+◌, ◌≡◌, refl, ◌≢◌, ◌↔◌, Bool, true, false, ◌&&◌, Option, none, some, List, [], ◌∷◌, ◌++◌,
  arith, ◌==◌, if◌then◌else◌, length,
}
use metal_fs.Fs.Types.{DirEntry}
use metal_fs.Fs.State.{ok}
use metal_fs.Fs.Directory.{head_size, entry_size, strncmp_eq, has_name, find_entry}

unfoldable pub eq_bytes : List ℕ → List ℕ → Bool
eq_bytes [] [] = true
eq_bytes [] (y ∷ ys) = false
eq_bytes (x ∷ xs) [] = false
eq_bytes (x ∷ xs) (y ∷ ys) = (x == y) && eq_bytes xs ys

pub eq_bytes_iff : (a b : List ℕ) → (eq_bytes a b ≡ true) ↔ (a ≡ b)
unfolding eq_bytes
eq_bytes_iff [] [] = ground arith
eq_bytes_iff [] (y ∷ ys) = ground arith
eq_bytes_iff (x ∷ xs) [] = ground arith
eq_bytes_iff (x ∷ xs) (y ∷ ys) = ground (arith, eq_bytes_iff xs ys)

strncmp-eq_bytes : (a b : List ℕ) → length b ≡ length a → strncmp_eq (length a) a b ≡ eq_bytes b a
unfolding strncmp_eq eq_bytes
strncmp-eq_bytes [] [] h = refl
strncmp-eq_bytes [] (y ∷ ys) h = absurd (omega arith)
strncmp-eq_bytes (x ∷ xs) [] h = absurd (omega arith)
strncmp-eq_bytes (x ∷ xs) (y ∷ ys) h = ground (arith, strncmp-eq_bytes xs ys)

length-ne : (a b : List ℕ) → length a ≢ length b → eq_bytes a b ≡ false
length-ne a b h = ground (arith, eq_bytes_iff a b)

pub has_name-eq_bytes : (name : List ℕ) (e : DirEntry) → has_name name e ≡ eq_bytes name e.name
unfolding has_name
has_name-eq_bytes name e = ground (arith, strncmp-eq_bytes e.name name, length-ne name e.name)

unfoldable pub entries_size : List DirEntry → ℕ
entries_size [] = 0
entries_size (e ∷ es) = entry_size e + entries_size es

-- The number under a name.
unfoldable pub lookup : List DirEntry → List ℕ → Option ℕ
lookup [] name = none
lookup (e ∷ es) name = if eq_bytes name e.name then some e.inode_id else lookup es name

abbrev pub Distinct : List DirEntry → Type 0
Distinct [] = Unit {0}
Distinct (e ∷ es) = (lookup es e.name ≡ none) × Distinct es

unfoldable pub without : List ℕ → List DirEntry → List DirEntry
without name [] = []
without name (e ∷ es) = if eq_bytes name e.name then without name es else e ∷ without name es

pub entries_size-append :
    (es fs : List DirEntry) → entries_size (es ++ fs) ≡ entries_size es + entries_size fs
unfolding entries_size
entries_size-append [] fs = omega arith
entries_size-append (e ∷ es) fs = omega (arith, entries_size-append es fs)

pub lookup-append :
    (es : List DirEntry) (e : DirEntry) (j : List ℕ)
    → lookup es e.name ≡ none
    → lookup (es ++ e ∷ []) j ≡ (if eq_bytes e.name j then some e.inode_id else lookup es j)
unfolding lookup
lookup-append [] e j h = ground (arith, eq_bytes_iff j e.name, eq_bytes_iff e.name j)
lookup-append (x ∷ es) e j h = ground (
  arith,
  lookup-append es e j,
  eq_bytes_iff j x.name,
  eq_bytes_iff e.name x.name,
  eq_bytes_iff e.name j,
)

pub Distinct-append :
    (es : List DirEntry) (e : DirEntry)
    → Distinct es
    → lookup es e.name ≡ none
    → Distinct (es ++ e ∷ [])
unfolding lookup
Distinct-append [] e d h = (refl, tt)
Distinct-append (x ∷ es) e d h = (
  ground (arith, lookup-append es e x.name, eq_bytes_iff e.name x.name),
  Distinct-append es e d.1 (ground arith),
)

pub lookup-without :
    (es : List DirEntry) (name j : List ℕ)
    → lookup (without name es) j ≡ (if eq_bytes name j then none else lookup es j)
unfolding lookup without
lookup-without [] name j = ground arith
lookup-without (x ∷ es) name j = ground (
  arith,
  lookup-without es name j,
  eq_bytes_iff j x.name,
  eq_bytes_iff name x.name,
  eq_bytes_iff name j,
)

pub Distinct-without :
    (es : List DirEntry) (name : List ℕ) → Distinct es → Distinct (without name es)
unfolding lookup without
Distinct-without [] name d = tt
Distinct-without (x ∷ es) name d =
    ground (arith, Distinct-without es name d.1, lookup-without es name x.name)

pub without-none :
    (es : List DirEntry) (name : List ℕ) → lookup es name ≡ none → without name es ≡ es
unfolding lookup without
without-none [] name h = refl
without-none (x ∷ es) name h = ground (arith, without-none es name)

-- The bytes that a name which is there takes up.
pub entries_size-without :
    (es : List DirEntry) (name : List ℕ) (id : ℕ)
    → Distinct es
    → lookup es name ≡ some id
    → entries_size (without name es) + (head_size + length name) ≡ entries_size es
unfolding lookup without entries_size
entries_size-without [] name id d h = ground arith
entries_size-without (x ∷ es) name id d h =
    ground
      (arith, entries_size-without es name id d.1, without-none es name, eq_bytes_iff name x.name)

-- The search by `mtl_load_next_directory_entry` finds what the map holds.
pub find_entry-lookup :
    (name : List ℕ) (at limit : ℕ) (es : List DirEntry)
    → limit ≡ at + entries_size es
    → find_entry limit name at es ≡ ok (lookup es name)
unfolding find_entry lookup entries_size
find_entry-lookup name at limit [] h = ground arith
find_entry-lookup name at limit (e ∷ es) h =
    ground (arith, has_name-eq_bytes name e, find_entry-lookup name (at + entry_size e) limit es)
