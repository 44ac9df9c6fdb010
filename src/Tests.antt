-- ===== src/Tests.antt =====
-- Databases held in memory, and the theorems of the file system applied to them.
pub mod Allocator
pub mod Files
pub mod Transfers
pub mod Jobs
pub mod Storage
pub mod Agents
pub mod Profile
pub mod Mounts
pub mod Changes
pub mod Messages
pub mod Words
pub mod Operators
pub mod Builder
pub mod Mounted
use metal_fs.Base.{ℕ, ◌≡◌, ◌↔◌, Bool, true, ◌&&◌, none, List, [], arith, ◌==◌}
use metal_fs.Lmdb.{Store}
use metal_fs.Lmdb.Assoc
use metal_fs.Lmdb.Assoc.{
  Key, get, get-empty, del, get-del_self, get-del_ne, put, get-put_self, get-put_ne, last,
  last_none, get-last, last_max, next, next_before, next_none, get-next, next_least,
}
use metal_fs.Fs.Types.{u64_bytes, NodeId, node_bytes, Extent, extents, InodeValue}
use metal_fs.Fs.State.{Databases, Txn}

pub equal_iff : (a b : ℕ) → ((a == b) ≡ true) ↔ (a ≡ b)
equal_iff a b = (λ h. ground arith, λ h. ground arith)

abbrev pub number : Key ℕ
number = record { eq = ◌==◌; eq_iff = equal_iff }

abbrev pub same : NodeId → NodeId → Bool
same m n = (m.k == n.k) && (m.v == n.v)

pub same_iff : (m n : NodeId) → (same m n ≡ true) ↔ (m ≡ n)
same_iff m n = (λ h. ground arith, λ h. ground arith)

abbrev pub node_key : Key NodeId
node_key = record { eq = same; eq_iff = same_iff }

abbrev pub in_memory : {K : Type 0} (V : Type 0) → Key K → (bytes : K → List ℕ) → Store K V bytes
in_memory {K} V key bytes = record {
  Db = List (K × V);
  empty = [];
  get = Assoc.get key;
  put = Assoc.put key;
  del = Assoc.del key;
  last = Assoc.last key bytes;
  next = Assoc.next key bytes;
  get-empty = Assoc.get-empty key;
  get-put_self = Assoc.get-put_self key;
  get-put_ne = Assoc.get-put_ne key;
  get-del_self = Assoc.get-del_self key;
  get-del_ne = Assoc.get-del_ne key;
  get-last = Assoc.get-last key bytes;
  last_none = Assoc.last_none key bytes;
  last_max = Assoc.last_max key bytes;
  get-next = Assoc.get-next key bytes;
  next_before = Assoc.next_before key bytes;
  next_least = Assoc.next_least key bytes;
  next_none = Assoc.next_none key bytes;
}

abbrev pub memory : Databases
memory = record {
  extents = in_memory Extent number u64_bytes;
  heap = in_memory ℕ node_key node_bytes;
  inodes = in_memory InodeValue number u64_bytes;
}

-- A transaction on databases without entries.
abbrev pub fresh : Txn memory
fresh = record { extents = []; heap = []; inodes = []; next_inode = none }
