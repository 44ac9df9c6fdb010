-- ===== src/Fs/Types.antt =====
-- The structs, enumerations and error codes of src/metal-filesystem (heap.h, extent.c, storage.h,
-- inode.h, metal.h), and the arithmetic of `uint64_t`.
use metal_fs.Base.{ℕ, ◌+◌, ◌-◌, ◌*◌, ◌%◌, ◌^◌, Bool, true, false, ◌&&◌, List, ◌++◌, ◌==◌}
use metal_fs.Lmdb.Order.{le_bytes}

abbrev pub add64 : ℕ → ℕ → ℕ
add64 a b = (a + b) % 2 ^ 64

abbrev pub sub64 : ℕ → ℕ → ℕ
sub64 a b = (a + 2 ^ 64 - b) % 2 ^ 64

abbrev pub mul64 : ℕ → ℕ → ℕ
mul64 a b = (a * b) % 2 ^ 64

-- The `MTL_ERROR_` codes.
pub data ErrorCode : Type 0 where
  no_entry exists not_directory invalid_argument not_empty : ErrorCode

-- The bytes of a `uint64_t` key.
abbrev pub u64_bytes : ℕ → List ℕ
u64_bytes = le_bytes 8

pub record NodeId : Type 0 where
  pub k : ℕ
  pub v : ℕ

-- The bytes of a `mtl_heap_node_id` key.
abbrev pub node_bytes : NodeId → List ℕ
node_bytes n = le_bytes 8 n.k ++ le_bytes 8 n.v

abbrev pub invalid_node : NodeId
invalid_node = record { k = 0; v = 0 }

-- `memcmp(&node, &INVALID_NODE, sizeof(mtl_heap_node_id)) == 0`
abbrev pub is_invalid : NodeId → Bool
is_invalid n = (n.k == 0) && (n.v == 0)

pub data ExtentStatus : Type 0 where
  free reserved committed : ExtentStatus

abbrev pub is_free : ExtentStatus → Bool
is_free free = true
is_free reserved = false
is_free committed = false

pub record Extent : Type 0 where
  pub length : ℕ
  pub status : ExtentStatus
  pub pq_node : NodeId

pub record FileExtent : Type 0 where
  pub offset : ℕ
  pub length : ℕ

pub data InodeType : Type 0 where
  file directory : InodeType

pub record Inode : Type 0 where
  pub type : InodeType
  pub length : ℕ
  pub user : ℕ
  pub group : ℕ
  pub accessed : ℕ
  pub modified : ℕ
  pub created : ℕ
  pub mode : ℕ

-- A `mtl_directory_entry_head` and the bytes of the name behind it.
pub record DirEntry : Type 0 where
  pub inode_id : ℕ
  pub name : List ℕ

-- What stands behind the inode in its database value: the entries of a directory, or the extent
-- list of a file.
pub data Content : Type 0 where
  entries : List DirEntry → Content
  extents : List FileExtent → Content

pub record InodeValue : Type 0 where
  pub inode : Inode
  pub content : Content
