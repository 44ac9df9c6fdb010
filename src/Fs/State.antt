-- ===== src/Fs/State.antt =====
-- The metadata databases, a transaction on them, and the results of the C functions.
use metal_fs.Base.{ℕ, ◌≡◌, refl, Option, none, some}
use metal_fs.Lmdb.{Store}
use metal_fs.Fs.Types.{ErrorCode, u64_bytes, NodeId, node_bytes, Extent, InodeValue}

-- The databases `extents`, `heap` and `inodes`.
pub record Databases : Type 1 where
  pub extents : Store ℕ Extent u64_bytes
  pub heap : Store NodeId ℕ node_bytes
  pub inodes : Store ℕ InodeValue u64_bytes

-- What a transaction sees. The database `meta` holds one value, under `next_inode`.
pub record Txn (L : Databases) : Type 0 where
  pub extents : L.extents.Db
  pub heap : L.heap.Db
  pub inodes : L.inodes.Db
  pub next_inode : Option ℕ

-- `err` is a returned error code. `fault` is a failed assertion or undefined behaviour, such as
-- the use of a pointer or a variable that was never set.
pub data Result {ℓ} (A : Type ℓ) : Type ℓ where
  ok : A → Result A
  err : ErrorCode → Result A
  fault : Result A

infixl 5 ◌>>=◌
abbrev pub ◌>>=◌ {ℓ κ} : {A : Type ℓ} {B : Type κ} → Result A → (A → Result B) → Result B
ok a >>= f = f a
err e >>= f = err e
fault >>= f = fault

-- `assert(res == MTL_SUCCESS)`
abbrev pub asserted {ℓ} : {A : Type ℓ} → Result A → Result A
asserted (ok a) = ok a
asserted (err e) = fault
asserted fault = fault

-- A call whose error code is dropped: on an error the caller goes on with what it had.
abbrev pub or_keep {ℓ} : {A : Type ℓ} → Result A → A → A
or_keep (ok a) b = a
or_keep (err e) b = b
or_keep fault b = b

-- Reading through a pointer that a lookup may have left at `NULL`.
abbrev pub deref {ℓ} : {A : Type ℓ} → Option A → Result A
deref none = fault
deref (some a) = ok a

-- A chain that succeeds has a first call that does, and goes on from its result.
abbrev pub GoesOn : {A B : Type 0} → Result A → (A → Result B) → B → Type 0
GoesOn {A} first next end = (middle : A) × (first ≡ ok middle) × (next middle ≡ ok end)

pub >>=-GoesOn :
    {A B : Type 0} {end : B} (first : Result A) (next : A → Result B)
    → (first >>= next) ≡ ok end
    → GoesOn first next end
>>=-GoesOn fault next e = cc
>>=-GoesOn (err code) next e = cc
>>=-GoesOn (ok middle) next e = (middle, refl, e)
