-- ===== src/Driver/Combined.antt =====
-- combined_fuse_handler.cpp: the handlers that are mounted under prefixes of the path. A handler is
-- an object behind the interface of fuse_handler.hpp; what a function of the combined handler does
-- is either a call of one handler's function, whose result it returns, or an answer of its own.
pub mod Dispatch
use metal_fs.Base.{
  ℕ, Bool, true, false, ◌&&◌, Option, none, some, List, [], ◌∷◌, ◌==◌, if◌then◌else◌,
}
use metal_fs.Lmdb.Order.{memcmp_lt}
use metal_fs.Fs.Directory.Listing.{eq_bytes}

-- A `std::string`.
abbrev pub Text : Type 0
Text = List ℕ

-- The calls of fuse_handler.hpp on one path, with the arguments behind the path that are values.
pub data FuseCall : Type 0 where
  chown_call : (uid gid : ℕ) → FuseCall
  getattr_call readlink_call open_call release_call unlink_call rmdir_call : FuseCall
  readdir_call : (offset : ℕ) → FuseCall
  create_call mkdir_call : (mode : ℕ) → FuseCall
  read_call write_call : (size offset : ℕ) → FuseCall
  truncate_call : (size : ℕ) → FuseCall

-- `-ENOENT` and `-ENOSYS`
pub data FuseError : Type 0 where
  enoent enosys : FuseError

pub data Answer (H : Type 0) : Type 0 where
  forwards : H → FuseCall → Text → Answer H
  forwards_rename : H → (from to : Text) → Answer H
  fails : FuseError → Answer H
  root_attributes : Answer H
  lists : List Text → Answer H

-- `path.rfind(prefix, 0) == 0`
unfoldable pub starts_with : Text → Text → Bool
starts_with [] path = true
starts_with (c ∷ prefix) [] = false
starts_with (c ∷ prefix) (d ∷ path) = (c == d) && starts_with prefix path

-- `path.substr(prefix.size())`
abbrev pub substr : Text → Text → Text
substr [] path = path
substr (c ∷ prefix) [] = []
substr (c ∷ prefix) (d ∷ path) = substr prefix path

abbrev pub root_path : Text
root_path = 47 ∷ []

abbrev pub is_empty : Text → Bool
is_empty [] = true
is_empty (c ∷ cs) = false

-- The name behind the leading slash.
abbrev pub tail : Text → Text
tail [] = []
tail (c ∷ cs) = cs

-- An empty path below a handler is its root.
abbrev pub or_slash : Text → Text
or_slash path = if is_empty path then root_path else path

-- The `std::map` of the handlers, in the order of the prefixes.
abbrev pub Handlers : Type 0 → Type 0
Handlers H = List (Text × H)

module _ {H : Type 0} where
  -- `emplace`: a handler that is there for the prefix stays.
  pub add_handler : Handlers H → Text → H → Handlers H
  add_handler [] prefix h = (prefix, h) ∷ []
  add_handler ((p, x) ∷ hs) prefix h =
      if memcmp_lt prefix p
      then (prefix, h) ∷ (p, x) ∷ hs
      else if memcmp_lt p prefix
      then (p, x) ∷ add_handler hs prefix h
      else (p, x) ∷ hs

  unfoldable pub resolve_handler : Handlers H → Text → Option (Text × H)
  unfolding starts_with
  resolve_handler [] path = none
  resolve_handler ((p, x) ∷ hs) path =
      if starts_with p path then some (p, x) else resolve_handler hs path

  -- The loop that most functions share, with the error for a path that no handler takes.
  abbrev pub answer : FuseCall → FuseError → Text → Option (Text × H) → Answer H
  answer call e path none = fails e
  answer call e path (some (p, x)) = forwards x call (substr p path)

  pub dispatch : FuseCall → FuseError → Handlers H → Text → Answer H
  unfolding resolve_handler
  dispatch call e hs path = answer call e path (resolve_handler hs path)

  pub fuse_chown : Handlers H → Text → (uid gid : ℕ) → Answer H
  unfolding dispatch
  fuse_chown hs path uid gid = dispatch (chown_call uid gid) enoent hs path

  pub fuse_getattr : Handlers H → Text → Answer H
  unfolding dispatch eq_bytes
  fuse_getattr hs path =
      if eq_bytes path root_path then root_attributes else dispatch getattr_call enoent hs path

  pub names_of : Handlers H → List Text
  names_of [] = []
  names_of ((p, x) ∷ hs) = tail p ∷ names_of hs

  pub fuse_readdir : Handlers H → Text → (offset : ℕ) → Answer H
  unfolding resolve_handler names_of eq_bytes
  fuse_readdir hs path offset = elim (resolve_handler hs path) [
    | some (p, x) ↦ forwards x (readdir_call offset) (or_slash (substr p path))
    | none ↦
        if eq_bytes path root_path
        then lists ((46 ∷ []) ∷ (46 ∷ 46 ∷ []) ∷ names_of hs)
        else lists []
  ]

  pub fuse_create : Handlers H → Text → (mode : ℕ) → Answer H
  unfolding dispatch
  fuse_create hs path mode = dispatch (create_call mode) enosys hs path

  pub fuse_readlink : Handlers H → Text → Answer H
  unfolding dispatch
  fuse_readlink hs path = dispatch readlink_call enoent hs path

  pub fuse_open : Handlers H → Text → Answer H
  unfolding dispatch
  fuse_open hs path = dispatch open_call enoent hs path

  pub fuse_read : Handlers H → Text → (size offset : ℕ) → Answer H
  unfolding dispatch
  fuse_read hs path size offset = dispatch (read_call size offset) enoent hs path

  pub fuse_release : Handlers H → Text → Answer H
  unfolding dispatch
  fuse_release hs path = dispatch release_call enosys hs path

  pub fuse_truncate : Handlers H → Text → (size : ℕ) → Answer H
  unfolding dispatch
  fuse_truncate hs path size = dispatch (truncate_call size) enoent hs path

  pub fuse_write : Handlers H → Text → (size offset : ℕ) → Answer H
  unfolding dispatch
  fuse_write hs path size offset = dispatch (write_call size offset) enoent hs path

  pub fuse_unlink : Handlers H → Text → Answer H
  unfolding dispatch
  fuse_unlink hs path = dispatch unlink_call enoent hs path

  pub fuse_mkdir : Handlers H → Text → (mode : ℕ) → Answer H
  unfolding dispatch
  fuse_mkdir hs path mode = dispatch (mkdir_call mode) enosys hs path

  pub fuse_rmdir : Handlers H → Text → Answer H
  unfolding dispatch
  fuse_rmdir hs path = dispatch rmdir_call enoent hs path

  -- Files cannot be moved to another handler.
  unfoldable pub fuse_rename : Handlers H → (from to : Text) → Answer H
  unfolding resolve_handler starts_with
  fuse_rename hs from to = elim (resolve_handler hs from) [
    | none ↦ fails enoent
    | some (p, x) ↦
        if starts_with p to then forwards_rename x (substr p from) (substr p to) else fails enosys
  ]
