-- ===== src/Driver/SocketFile.antt =====
-- socket_fuse_handler.cpp: the link to the socket of the driver. The handler's path is the link.
use metal_fs.Base.{ℕ, zero, suc, ◌+◌, List, [], ◌∷◌, if◌then◌else◌, length}
use metal_fs.Driver.Combined.{Text, enoent, enosys, is_empty}
use metal_fs.Driver.Files.{fuse, Reply, replies, denies, Stat}

-- `S_IFLNK | 0777`, after the `memset`.
abbrev link_stat : (size : ℕ) → Stat
link_stat size = record {
  st_mode = 0o120000 + 0o777;
  st_nlink = 1;
  st_uid = 0;
  st_gid = 0;
  st_size = size;
  st_blocks = 0;
  st_atime = 0;
  st_mtime = 0;
  st_ctime = 0;
}

-- `strncpy`: at most so many bytes, and zeros behind the end of the text.
abbrev strncpy : (size : ℕ) → Text → List ℕ
strncpy zero t = []
strncpy (suc n) [] = 0 ∷ strncpy n []
strncpy (suc n) (c ∷ t) = c ∷ strncpy n t

module _ (socket_name : Text) where
  abbrev link_attributes : Text → Reply Text Stat
  link_attributes path =
      if is_empty path
      then replies socket_name (link_stat (length socket_name))
      else denies socket_name (fuse enoent)

  abbrev link_target : Text → (size : ℕ) → Reply Text (List ℕ)
  link_target path size =
      if is_empty path
      then replies socket_name (strncpy size socket_name)
      else denies socket_name (fuse enoent)

  -- `fuse_chown`, `fuse_readdir`, `fuse_create`, `fuse_open`, `fuse_read`, `fuse_truncate`,
  -- `fuse_write`, `fuse_unlink`, `fuse_mkdir`, `fuse_rmdir` and `fuse_rename`.
  abbrev unsupported : {A : Type 0} → Text → Reply Text A
  unsupported path = denies socket_name (fuse enosys)

  abbrev link_released : Text → Reply Text (Unit {0})
  link_released path = replies socket_name tt
