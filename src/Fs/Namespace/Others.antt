-- ===== src/Fs/Namespace/Others.antt =====
-- Resolving a path does not read the inode of a file.
use metal_fs.Base.{
  ℕ, zero, suc, ◌≡◌, ap, ◌∙◌, inl, inr, List, arith, if◌then◌else◌, Bool-cases, length,
}
use metal_fs.Fs.Types.{FileExtent, Inode}
use metal_fs.Fs.State.{Databases, Txn, Result, ok, ◌>>=◌, >>=-GoesOn}
use metal_fs.Fs.Path.{basename, dirname}
use metal_fs.Fs.Directory.{resolve_inode_in_directory}
use metal_fs.Fs.Directory.Entries.{OthersSame}
use metal_fs.Fs.Directory.Others.{search_same}
use metal_fs.Fs.FileData.Write.{IsFile}
use metal_fs.Fs.Namespace.{is_root, resolve_calls, resolve_inode}

module _ (L : Databases) (t t' : Txn L) (id : ℕ) (inode : Inode) (xs : List FileExtent)
    (f : IsFile L t id inode xs) (others : OthersSame L id t t') where
  -- The last step of a call.
  step_same :
      (dir : ℕ) (path : List ℕ) (k : ℕ)
      → (if is_root (basename path)
          then ok 0
          else resolve_inode_in_directory L t dir (basename path))
        ≡ ok k
      → (if is_root (basename path)
          then ok 0
          else resolve_inode_in_directory L t' dir (basename path))
        ≡ ok k
  step_same dir path k h = elim (Bool-cases (is_root (basename path))) [
    | inl e ↦ ground (arith, e)
    | inr e ↦ rw e (search_same L t t' id inode xs f others dir (basename path) k (rw e at h))
  ]

  above_same :
      (path : List ℕ) (a a' : Result ℕ)
      → ((k : ℕ) → a ≡ ok k → a' ≡ ok k)
      → (k : ℕ) → (if is_root path then ok 0 else a) ≡ ok k
      → (if is_root path then ok 0 else a') ≡ ok k
  above_same path a a' same k h = elim (Bool-cases (is_root path)) [
    | inl e ↦ ground (arith, e)
    | inr e ↦ rw e (same k (rw e at h))
  ]

  resolve_calls_same :
      (n : ℕ) (path : List ℕ) (k : ℕ)
      → resolve_calls L n t path ≡ ok k
      → resolve_calls L n t' path ≡ ok k
  unfolding resolve_calls
  resolve_calls_same zero path k h = cc
  resolve_calls_same (suc n) path k h =
      let (dir, above, last) =
        >>=-GoesOn (if is_root (dirname path) then ok 0 else resolve_calls L n t (dirname path)) _
          h in
      ap
        (λ r. r >>= λ d.
          if is_root (basename path)
          then ok 0
          else resolve_inode_in_directory L t' d (basename path))
        (above_same (dirname path) (resolve_calls L n t (dirname path))
          (resolve_calls L n t' (dirname path)) (resolve_calls_same n (dirname path)) dir above)
      ∙ step_same dir path k last

  -- A path that is resolved leads to the same inode after the inode of a file was changed.
  pub resolve_inode_same :
      (path : List ℕ) (k : ℕ) → resolve_inode L t path ≡ ok k → resolve_inode L t' path ≡ ok k
  unfolding resolve_inode
  resolve_inode_same path k h = resolve_calls_same (suc (length path)) path k h
