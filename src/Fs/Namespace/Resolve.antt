-- ===== src/Fs/Namespace/Resolve.antt =====
-- Path resolution: `mtl_resolve_inode` walks down the components, and what `mtl_readdir` lists.
use metal_fs.Base.{
  ℕ, zero, suc, ◌+◌, ◌≤◌, ◌<◌, ◌≡◌, refl, ap, ◌∙◌, ◌↔◌, inl, inr, Bool, true, false, not, ◌&&◌,
  none, some, List, [], ◌∷◌, ◌++◌, arith, ltb, leb, ◌==◌, if◌then◌else◌, Bool-cases, length,
  length-append,
}
use metal_fs.Fs.Types.{DirEntry}
use metal_fs.Fs.State.{Databases, Txn, Result, ok, fault, ◌>>=◌}
use metal_fs.Fs.Directory.{head_size, entry_size, resolve_inode_in_directory}
use metal_fs.Fs.Directory.Listing.{eq_bytes, eq_bytes_iff, entries_size}
use metal_fs.Fs.Path.{slash, root}
use metal_fs.Fs.Path.Components.{
  no_slash, IsComponent, path_of, AllComponents, basename-path_of, dirname-path_of_two,
  dirname-path_of_one,
}
use metal_fs.Fs.Namespace.{
  is_root, Dir, strncpy, terminate, fill_name, readdir, resolve_calls, resolve_inode,
  resolve_parent_dir_inode,
}

eq_root_iff : (p : List ℕ) → (is_root p ≡ true) ↔ (p ≡ root)
eq_root_iff p = eq_bytes_iff p root

component_not_root : (c : List ℕ) → IsComponent c → is_root c ≡ false
unfolding eq_bytes no_slash
component_not_root [] h = absurd (omega arith)
component_not_root (x ∷ c) h = ground arith

path_not_root :
    (c : List ℕ) (cs : List (List ℕ)) → IsComponent c → is_root (path_of (c ∷ cs)) ≡ false
unfolding path_of
path_not_root c cs plain = elim (Bool-cases (is_root (path_of (c ∷ cs)))) [
  | inl e ↦
      let same : length (path_of cs ++ slash ∷ c) ≡ 1 =
        ap length ((eq_root_iff (path_of (c ∷ cs))).0 e) in
      absurd (omega (arith, same, plain.0, length-append (path_of cs) (slash ∷ c)))
  | inr e ↦ e
]

module _ (L : Databases) (t : Txn L) where
  -- Looking the components up one after the other, from the root down.
  unfoldable pub walk : List (List ℕ) → Result ℕ
  walk [] = ok 0
  walk (c ∷ cs) = do dir ← walk cs; resolve_inode_in_directory L t dir c

  resolve_calls-walk :
      (n : ℕ) (c : List ℕ) (cs : List (List ℕ))
      → AllComponents (c ∷ cs)
      → length cs < n
      → resolve_calls L n t (path_of (c ∷ cs)) ≡ walk (c ∷ cs)
  unfolding resolve_calls walk
  resolve_calls-walk zero c cs all h = absurd (omega arith)
  resolve_calls-walk (suc n) c [] all h =
      rw (dirname-path_of_one c all.0, basename-path_of c [] all.0)
        (rw (component_not_root c all.0))
  resolve_calls-walk (suc n) c (d ∷ cs) all h =
      rw (dirname-path_of_two c d cs all.0 all.1.0, basename-path_of c (d ∷ cs) all.0)
        (rw (
          path_not_root d cs all.1.0,
          component_not_root c all.0,
          resolve_calls-walk n d cs all.1 (omega arith),
        ))

  depth-le-length : (cs : List (List ℕ)) → length cs ≤ length (path_of cs)
  unfolding path_of
  depth-le-length [] = omega arith
  depth-le-length (c ∷ cs) =
      omega (arith, depth-le-length cs, length-append (path_of cs) (slash ∷ c))

  -- Resolving an absolute path of plain components ends, and looks the components up one after the
  -- other from the root down.
  pub resolve_inode-walk :
      (c : List ℕ) (cs : List (List ℕ))
      → AllComponents (c ∷ cs)
      → resolve_inode L t (path_of (c ∷ cs)) ≡ walk (c ∷ cs)
  unfolding resolve_inode
  resolve_inode-walk c cs all =
      resolve_calls-walk (suc (length (path_of (c ∷ cs)))) c cs all
        (omega (arith, depth-le-length (c ∷ cs)))

  -- The parent of an absolute path of plain components is found by looking up all components but
  -- the last, from the root down.
  pub resolve_parent-walk :
      (c : List ℕ) (cs : List (List ℕ))
      → AllComponents (c ∷ cs)
      → resolve_parent_dir_inode L t (path_of (c ∷ cs)) ≡ walk cs
  unfolding resolve_parent_dir_inode walk
  resolve_parent-walk c [] all = rw (dirname-path_of_one c all.0)
  resolve_parent-walk c (d ∷ cs) all =
      rw (dirname-path_of_two c d cs all.0 all.1.0)
        (rw (path_not_root d cs all.1.0) (resolve_inode-walk d cs all.1))

-- The text that a buffer holds; without an end it has none.
unfoldable pub text_in : List ℕ → Result (List ℕ)
text_in [] = fault
text_in (b ∷ bs) = let rest = text_in bs in if b == 0 then ok [] else rest >>= λ t. ok (b ∷ t)

-- Reading a directory to its end, into the same buffer again and again.
pub read_all : ℕ → (buffer : List ℕ) → Dir → Result (List (List ℕ))
unfolding readdir text_in
read_all zero buffer d = fault
read_all (suc n) buffer d = readdir d buffer (length buffer) >>= λ r. elim r [
  | none ↦ ok []
  | some (filled, d') ↦ do name ← text_in filled; rest ← read_all n filled d'; ok (name ∷ rest)
]

unfoldable pub names : List DirEntry → List (List ℕ)
names [] = []
names (e ∷ es) = e.name ∷ names es

abbrev pub is_text : List ℕ → Bool
is_text [] = true
is_text (c ∷ t) = not (c == 0) && is_text t

-- Each name is a text for which, with its end, a buffer of this size has room.
unfoldable pub all_fit : (size : ℕ) → List DirEntry → Bool
all_fit size [] = true
all_fit size (e ∷ es) = ltb (length e.name) size && (is_text e.name && all_fit size es)

text_in-filled :
    (name buffer : List ℕ)
    → is_text name ≡ true
    → length name < length buffer
    → text_in (terminate (length name) (strncpy (length name) name buffer)) ≡ ok name
unfolding text_in terminate strncpy
text_in-filled [] [] t h = absurd (omega arith)
text_in-filled [] (b ∷ bs) t h = refl
text_in-filled (c ∷ name) [] t h = absurd (omega arith)
text_in-filled (c ∷ name) (b ∷ bs) t h =
    let plain : (c == 0) ≡ false = ground arith in
    let later : is_text name ≡ true = ground arith in
    rw plain (rw (text_in-filled name bs later (omega arith)) refl)

length-terminate : (i : ℕ) (buffer : List ℕ) → length (terminate i buffer) ≡ length buffer
unfolding terminate
length-terminate i [] = refl
length-terminate zero (b ∷ bs) = refl
length-terminate (suc i) (b ∷ bs) = ap suc (length-terminate i bs)

length-strncpy :
    (n : ℕ) (text buffer : List ℕ)
    → n ≤ length buffer
    → length (strncpy n text buffer) ≡ length buffer
unfolding strncpy
length-strncpy zero text buffer h = refl
length-strncpy (suc n) text [] h = absurd (omega arith)
length-strncpy (suc n) [] (b ∷ bs) h = ap suc (length-strncpy n [] bs (omega arith))
length-strncpy (suc n) (c ∷ text) (b ∷ bs) h =
    ap suc (length-strncpy n (if c == 0 then [] else text) bs (omega arith))

-- A name that fits is what the buffer then holds, and the buffer keeps its size.
fill_name-fits :
    (name buffer : List ℕ)
    → is_text name ≡ true
    → length name < length buffer
    → (text_in (fill_name name (length buffer) buffer) ≡ ok name)
      × (length (fill_name name (length buffer) buffer) ≡ length buffer)
unfolding fill_name
fill_name-fits name buffer t h =
    let short : ltb (length buffer) (length name) ≡ false = ground arith in
    let room : ltb (length name) (length buffer) ≡ true = ground arith in
    (
      rw (short, room) (text_in-filled name buffer t h),
      rw (short, room)
          (length-terminate (length name) (strncpy (length name) name buffer)
            ∙ length-strncpy (length name) name buffer (omega arith)),
    )

abbrev dir_at : ℕ → ℕ → List DirEntry → Dir
dir_at limit at es = record {
  length = limit;
  at = at;
  rest = es;
  more = leb (at + head_size) limit;
}

both_hold : (a b : Bool) → (a && b) ≡ true → (a ≡ true) × (b ≡ true)
both_hold true b h = (refl, h)
both_hold false b h = cc h

-- From the start of the data on, `mtl_readdir` lists every name once, in order, and then says that
-- it is complete, if the buffer has room for each name and its end, and the inode's length is that
-- of the entries.
pub read_all-names :
    (n limit at : ℕ) (buffer : List ℕ) (es : List DirEntry)
    → limit ≡ at + entries_size es
    → all_fit (length buffer) es ≡ true
    → length es < n
    → read_all n buffer (dir_at limit at es) ≡ ok (names es)
unfolding read_all readdir names all_fit entries_size
read_all-names zero limit at buffer es h k l = absurd (omega arith)
read_all-names (suc n) limit at buffer [] h k l =
    let done : leb (at + head_size) limit ≡ false = ground arith in rw done
read_all-names (suc n) limit at buffer (e ∷ es) h k l =
    let more : leb (at + head_size) limit ≡ true = ground arith in
    let (fits, k') = both_hold (ltb (length e.name) (length buffer)) _ k in
    let (text, later) = both_hold (is_text e.name) (all_fit (length buffer) es) k' in
    let room : length e.name < length buffer = ground arith in
    let (held, kept) = fill_name-fits e.name buffer text room in
    rw more (
      rw (
        held,
        read_all-names n limit (at + entry_size e) (fill_name e.name (length buffer) buffer) es
            (omega arith) (rw kept later) (omega arith),
      ))
