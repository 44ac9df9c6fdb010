-- ===== src/Fs/Backend.antt =====
-- src/metal-filesystem/include/metal-filesystem/storage.h: the interface of a storage backend, the
-- calls that metal.c makes of it, and the backend of storage_in_memory.c behind it.
pub mod Contents
use metal_fs.Base.{ℕ, Option, none, some, List, length}
use metal_fs.Fs.Types.{ErrorCode, FileExtent}
use metal_fs.Fs.State.{Databases, Txn, ok, err, fault}
use metal_fs.Fs.FileData.{StorageCall, write, read, load_extent_list}
use metal_fs.Fs.Storage.{storage_block, Bytes, storage_write, storage_read}

-- `mtl_storage_backend`: what holds the bytes of files, and how they are written and read. None
-- stands for a failed assertion. The codes that the functions return are not looked at.
pub record Backend (L : Databases) : Type 1 where
  pub Store : Type 0
  pub block_size : ℕ
  pub store : Txn L → Store → (inode_id offset length : ℕ) → (buffer : Bytes) → Option Store
  pub fetch : Txn L → Store → (inode_id offset length : ℕ) → (buffer : Bytes) → Option Bytes

module _ (L : Databases) where
  -- On an error of `mtl_load_extent_list`, the number of extents is that of the call before, or was
  -- never set.
  abbrev pub with_extents : Txn L → (inode_id : ℕ) → (List FileExtent → Option Bytes) → Option Bytes
  with_extents t id f = elim (load_extent_list L t id) [
    | ok (xs, len) ↦ f xs
    | err e ↦ none
    | fault ↦ none
  ]

  abbrev pub in_memory_storage : Backend L
  in_memory_storage = record {
    Store = Bytes;
    block_size = storage_block;
    store = λ t bytes id offset len buffer.
        with_extents t id (λ xs. storage_write xs bytes offset len buffer);
    fetch = λ t bytes id offset len buffer.
        with_extents t id (λ xs. storage_read xs bytes offset len buffer);
  }

-- The metadata and the bytes behind them.
pub record Mounted {L : Databases} (B : Backend L) : Type 0 where
  pub metadata : Txn L
  pub stored : B.Store

-- How a call of metal.c with the storage ends. Of the two, only `mtl_write` has error codes.
pub data Called (A : Type 0) : Type 0 where
  called : A → Called A
  refused : ErrorCode → Called A
  breaks : Called A

module _ {L : Databases} (B : Backend L) where
  -- The end of `mtl_write`, after the transaction was committed.
  abbrev pub keep_stored : Txn L → Option B.Store → Called (Mounted B)
  keep_stored t none = breaks
  keep_stored t (some bytes) = called (record { metadata = t; stored = bytes })

  abbrev pub store_call : Txn L → B.Store → StorageCall → Bytes → Called (Mounted B)
  store_call t bytes call buffer =
      keep_stored t (B.store t bytes call.inode_id call.offset call.length buffer)

  -- `mtl_write`
  unfoldable pub write_file :
      Mounted B → (inode_id : ℕ) → (buffer : Bytes) → (size offset : ℕ) → Called (Mounted B)
  write_file s id buffer size offset = elim (write L B.block_size s.metadata id size offset) [
    | ok (t, call) ↦ store_call t s.stored call buffer
    | err e ↦ refused e
    | fault ↦ breaks
  ]

  -- The end of `mtl_read`.
  abbrev pub keep_fetched : (read_len : ℕ) → Option Bytes → Called (ℕ × Bytes)
  keep_fetched len none = breaks
  keep_fetched len (some buffer) = called (len, buffer)

  abbrev pub fetch_call :
      Mounted B → (read_len : ℕ) → Option StorageCall → Bytes → Called (ℕ × Bytes)
  fetch_call s len none buffer = called (len, buffer)
  fetch_call s len (some call) buffer =
      keep_fetched len (B.fetch s.metadata s.stored call.inode_id call.offset call.length buffer)

  -- `mtl_read`: how much was read, and the buffer.
  unfoldable pub read_file :
      Mounted B → (inode_id : ℕ) → (buffer : Bytes) → (size offset : ℕ) → Called (ℕ × Bytes)
  read_file s id buffer size offset = elim (read L B.block_size s.metadata id size offset) [
    | ok (len, call) ↦ fetch_call s len call buffer
    | err e ↦ refused e
    | fault ↦ breaks
  ]
