-- ===== src/Driver/Files.antt =====
-- filesystem_fuse_handler.cpp: a FUSE call on a mounted file system. A path is what stands behind the
-- handler's prefix; the file handle `fi->fh` is an argument or a result.
pub mod RoundTrip
use metal_fs.Base.{ℕ, suc, ◌+◌, ◌/◌, ◌%◌, ◌^◌, not, Option, List, ltb, ◌==◌, if◌then◌else◌, length}
use metal_fs.Fs.Types.{ErrorCode, Inode}
use metal_fs.Fs.State.{Databases, Txn, Result, ok, err, fault, ◌>>=◌}
use metal_fs.Fs.Directory.{s_ifdir}
use metal_fs.Fs.Storage.{Bytes}
use metal_fs.Fs.FileData.{truncate}
use metal_fs.Fs.Backend.{Backend, Mounted, Called, called, refused, breaks, write_file, read_file}
use metal_fs.Fs.Namespace.{
  Finish, commits, aborts, leaks, crashes, resolve_inode, get_inode, opendir, mkdir, create, rmdir,
  chown, rename, unlink,
}
use metal_fs.Fs.Namespace.Resolve.{read_all}
use metal_fs.Driver.Combined.{Text, FuseError, enoent, enosys, is_empty}

-- A negative result: `-res`, `-ENOENT` or `-ENOSYS`.
pub data Errno : Type 0 where
  code : ErrorCode → Errno
  fuse : FuseError → Errno

-- How a call ends: with a result that is not negative, with a negative one, or with a negative one
-- and a transaction that was left open; `crashed` where the file system does.
pub data Reply (S A : Type 0) : Type 0 where
  replies : S → A → Reply S A
  denies : S → Errno → Reply S A
  leaves_open : Errno → Reply S A
  crashed : Reply S A

-- The fields of `struct stat` that are set.
pub record Stat : Type 0 where
  pub st_mode : ℕ
  pub st_nlink : ℕ
  pub st_uid : ℕ
  pub st_gid : ℕ
  pub st_size : ℕ
  pub st_blocks : ℕ
  pub st_atime : ℕ
  pub st_mtime : ℕ
  pub st_ctime : ℕ

-- After the `memset`, for the root: `S_IFDIR | 0755`, which share no bit.
abbrev pub root_stat : Stat
root_stat = record {
  st_mode = s_ifdir + 0o755;
  st_nlink = 2;
  st_uid = 0;
  st_gid = 0;
  st_size = 0;
  st_blocks = 0;
  st_atime = 0;
  st_mtime = 0;
  st_ctime = 0;
}

abbrev pub stat_of : Inode → Stat
stat_of inode = record {
  st_mode = inode.mode;
  st_nlink = 2;
  st_uid = inode.user;
  st_gid = inode.group;
  st_size = inode.length;
  st_blocks = inode.length / 512 + (if ltb 0 (inode.length % 512) then 1 else 0);
  st_atime = inode.accessed;
  st_mtime = inode.modified;
  st_ctime = inode.created;
}

-- The `int` that a number of bytes is returned as, by its bits.
abbrev pub as_int : ℕ → ℕ
as_int n = n % 2 ^ 32

module _ {L : Databases} (B : Backend L) where
  -- A call that reads the metadata, whose transaction is aborted either way.
  abbrev pub look_up : {A : Type 0} → Mounted B → Result A → Reply (Mounted B) A
  look_up s (ok a) = replies s a
  look_up s (err e) = denies s (code e)
  look_up s fault = crashed

  -- A call that changes the metadata.
  abbrev pub change : {A C : Type 0} → Mounted B → (A → Txn L × C) → Finish A → Reply (Mounted B) C
  change s f (commits a) = replies (record s { metadata = (f a).0 }) (f a).1
  change s f (aborts e) = denies s (code e)
  change s f (leaks e) = leaves_open (code e)
  change s f crashes = crashed

  abbrev pub no_result : Txn L → Txn L × Unit {0}
  no_result t = (t, tt)

  pub fuse_chown : Mounted B → Text → (uid : ℕ) → (gid : Option ℕ) → Reply (Mounted B) (Unit {0})
  fuse_chown s path uid gid = change s no_result (chown L s.metadata path uid gid)

  pub fuse_getattr : Mounted B → Text → Reply (Mounted B) Stat
  fuse_getattr s path =
      if is_empty path
      then replies s root_stat
      else look_up s (do inode ← get_inode L s.metadata path; ok (stat_of inode))

  -- The names that the `filler` gets, in order. The directory has at most `n` entries, and
  -- `unset` is what the buffer of FILENAME_MAX bytes on the stack holds.
  unfoldable pub fuse_readdir :
      (n : ℕ) → (unset : List ℕ) → Mounted B → Text → Reply (Mounted B) (List Text)
  fuse_readdir n unset s path =
      look_up s (do dir ← opendir L s.metadata path; read_all (suc n) unset dir)

  -- The result is the file handle.
  unfoldable pub fuse_create : Mounted B → Text → (now mode : ℕ) → Reply (Mounted B) ℕ
  fuse_create s path now mode = change s (λ r. r) (create L s.metadata path now mode)

  pub fuse_readlink : Mounted B → Text → Reply (Mounted B) (Unit {0})
  fuse_readlink s path = denies s (fuse enoent)

  pub fuse_open : Mounted B → Text → Reply (Mounted B) ℕ
  fuse_open s path = look_up s (resolve_inode L s.metadata path)

  -- The end of `fuse_read`; `mtl_read` refuses nothing.
  abbrev pub read_reply : Mounted B → Called (ℕ × Bytes) → Reply (Mounted B) (ℕ × Bytes)
  read_reply s (called (len, buffer)) = replies s (as_int len, buffer)
  read_reply s (refused e) = crashed
  read_reply s breaks = crashed

  unfoldable pub fuse_read :
      Mounted B → Text → (buffer : Bytes) → (size offset : ℕ) → Reply (Mounted B) (ℕ × Bytes)
  fuse_read s path buffer size offset = elim (resolve_inode L s.metadata path) [
    | ok id ↦ read_reply s (read_file B s id buffer size offset)
    | err e ↦ denies s (code e)
    | fault ↦ crashed
  ]

  pub fuse_release : Mounted B → Text → Reply (Mounted B) (Unit {0})
  fuse_release s path = replies s tt

  abbrev pub truncated : Mounted B → Result (Txn L) → Reply (Mounted B) (Unit {0})
  truncated s (ok t) = replies (record s { metadata = t }) tt
  truncated s (err e) = denies s (code e)
  truncated s fault = crashed

  pub fuse_truncate : Mounted B → Text → (size : ℕ) → Reply (Mounted B) (Unit {0})
  fuse_truncate s path size = elim (resolve_inode L s.metadata path) [
    | ok id ↦ truncated s (truncate L B.block_size s.metadata id size)
    | err e ↦ denies s (code e)
    | fault ↦ crashed
  ]

  -- The end of `fuse_write`: the result of `mtl_write` is not looked at.
  abbrev pub write_reply : Mounted B → (size : ℕ) → Called (Mounted B) → Reply (Mounted B) ℕ
  write_reply s size (called s') = replies s' (as_int size)
  write_reply s size (refused e) = replies s (as_int size)
  write_reply s size breaks = crashed

  unfoldable pub fuse_write :
      Mounted B → (fh : ℕ) → (buffer : Bytes) → (size offset : ℕ) → Reply (Mounted B) ℕ
  fuse_write s fh buffer size offset =
      if not (fh == 0)
      then write_reply s size (write_file B s fh buffer size offset)
      else denies s (fuse enosys)

  pub fuse_unlink : Mounted B → Text → Reply (Mounted B) (Unit {0})
  fuse_unlink s path = change s no_result (unlink L s.metadata path)

  pub fuse_mkdir : Mounted B → Text → (now mode : ℕ) → Reply (Mounted B) (Unit {0})
  fuse_mkdir s path now mode = change s no_result (mkdir L s.metadata path now mode)

  pub fuse_rmdir : Mounted B → Text → Reply (Mounted B) (Unit {0})
  fuse_rmdir s path = change s no_result (rmdir L s.metadata path)

  pub fuse_rename : Mounted B → (from_path to_path : Text) → Reply (Mounted B) (Unit {0})
  fuse_rename s from to = change s no_result (rename L s.metadata from to)
