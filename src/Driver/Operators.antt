-- ===== src/Driver/Operators.antt =====
-- operator_fuse_handler.cpp: the directory of the operators. Each is a file with the program that
-- stands for it, whose bytes are an argument.
pub mod Reads
use metal_fs.Base.{
  ℕ, zero, suc, ◌+◌, Bool, false, ◌||◌, Option, none, some, List, [], ◌∷◌, ltb, ◌==◌, if◌then◌else◌,
  length,
}
use metal_fs.Fs.Types.{sub64}
use metal_fs.Fs.Directory.{s_ifdir, s_ifreg}
use metal_fs.Fs.Directory.Listing.{eq_bytes}
use metal_fs.Driver.Combined.{Text, enoent, enosys, is_empty}
use metal_fs.Driver.Files.{fuse, Reply, replies, denies, crashed, Stat, as_int}

-- `_operators.find(basename) != _operators.cend()`
unfoldable pub is_operator : List Text → Text → Bool
unfolding eq_bytes
is_operator [] name = false
is_operator (op ∷ ops) name = eq_bytes op name || is_operator ops name

-- `assert(path.size() > 1 && path[0] == '/')` and `path.substr(1)`
abbrev pub name_in : Text → Option Text
name_in [] = none
name_in (c ∷ []) = none
name_in (c ∷ d ∷ name) = if c == 47 then some (d ∷ name) else none

abbrev pub directory_stat : Stat → Stat
directory_stat stbuf = record stbuf { st_mode = s_ifdir + 0o755; st_nlink = 2 }

-- `S_IFREG | 0111`
abbrev pub program_stat : (size : ℕ) → Stat
program_stat size = record {
  st_mode = s_ifreg + 0o111;
  st_nlink = 0;
  st_uid = 0;
  st_gid = 0;
  st_size = size;
  st_blocks = 0;
  st_atime = 0;
  st_mtime = 0;
  st_ctime = 0;
}

-- `memcpy` of so many bytes from an offset on; none where it reads behind the end.
unfoldable pub copied : (offset len : ℕ) → List ℕ → Option (List ℕ)
copied offset zero bytes = some []
copied offset (suc n) [] = none
copied zero (suc n) (b ∷ bytes) = elim (copied zero n bytes) [ none ↦ none | some r ↦ some (b ∷ r) ]
copied (suc offset) (suc n) (b ∷ bytes) = copied offset (suc n) bytes

-- `sizeof(PlaceholderBinary) - offset` is a `size_t`.
unfoldable pub copied_length : (size offset total : ℕ) → ℕ
copied_length size offset total = if ltb (sub64 total offset) size then sub64 total offset else size

module _ (binary : List ℕ) (ops : List Text) where
  abbrev pub or_crash : (len : ℕ) → Option (List ℕ) → Reply (List Text) (ℕ × List ℕ)
  or_crash len none = crashed
  or_crash len (some bytes) = replies ops (as_int len, bytes)

  abbrev pub attributes_of : Option Text → Reply (List Text) Stat
  attributes_of none = crashed
  attributes_of (some name) =
      if is_operator ops name
      then replies ops (program_stat (length binary))
      else denies ops (fuse enoent)

  unfoldable pub fuse_getattr : Text → (stbuf : Stat) → Reply (List Text) Stat
  fuse_getattr path stbuf =
      if is_empty path then replies ops (directory_stat stbuf) else attributes_of (name_in path)

  abbrev pub bytes_of : (size offset : ℕ) → Option Text → Reply (List Text) (ℕ × List ℕ)
  bytes_of size offset none = crashed
  bytes_of size offset (some name) =
      if is_operator ops name
      then or_crash (copied_length size offset (length binary))
          (copied offset (copied_length size offset (length binary)) binary)
      else denies ops (fuse enosys)

  unfoldable pub fuse_read : Text → (size offset : ℕ) → Reply (List Text) (ℕ × List ℕ)
  fuse_read path size offset = bytes_of size offset (name_in path)

  -- The names that the `filler` gets.
  unfoldable pub fuse_readdir : Text → Reply (List Text) (List Text)
  fuse_readdir path = replies ops ((46 ∷ []) ∷ (46 ∷ 46 ∷ []) ∷ ops)

  pub fuse_chown : Text → (uid gid : ℕ) → Reply (List Text) (Unit {0})
  fuse_chown path uid gid = denies ops (fuse enosys)

  pub fuse_create : Text → (mode : ℕ) → Reply (List Text) ℕ
  fuse_create path mode = denies ops (fuse enosys)

  pub fuse_readlink : Text → Reply (List Text) (Unit {0})
  fuse_readlink path = denies ops (fuse enoent)

  pub fuse_open : Text → Reply (List Text) ℕ
  fuse_open path = denies ops (fuse enosys)

  pub fuse_release : Text → Reply (List Text) (Unit {0})
  fuse_release path = replies ops tt

  pub fuse_truncate : Text → (size : ℕ) → Reply (List Text) (Unit {0})
  fuse_truncate path size = denies ops (fuse enosys)

  pub fuse_write : Text → (size offset : ℕ) → Reply (List Text) ℕ
  fuse_write path size offset = denies ops (fuse enosys)

  pub fuse_unlink : Text → Reply (List Text) (Unit {0})
  fuse_unlink path = denies ops (fuse enosys)

  pub fuse_mkdir : Text → (mode : ℕ) → Reply (List Text) (Unit {0})
  fuse_mkdir path mode = denies ops (fuse enosys)

  pub fuse_rmdir : Text → Reply (List Text) (Unit {0})
  fuse_rmdir path = denies ops (fuse enosys)

  pub fuse_rename : (from_path to_path : Text) → Reply (List Text) (Unit {0})
  fuse_rename from to = denies ops (fuse enosys)
