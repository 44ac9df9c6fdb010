-- ===== src/Lmdb.antt =====
-- The key-value databases that the file system keeps in LMDB, a library outside the repository:
-- an interface with the documented behaviour of `mdb_get`, `mdb_put` and `mdb_del` and of the
-- cursor operations `MDB_LAST` and `MDB_SET` followed by `MDB_NEXT`. The databases are opened
-- without `MDB_INTEGERKEY`, so LMDB orders keys by their bytes, as `memcmp` does.
pub mod Order
pub mod Assoc
use metal_fs.Base.{ℕ, ◌≡◌, ◌≢◌, Bool, true, false, Option, none, some, List}
use Order.{memcmp_lt}

-- `before j k`: LMDB keeps the key `j` in front of `k`.
abbrev pub before : {K : Type 0} → (K → List ℕ) → K → K → Bool
before bytes j k = memcmp_lt (bytes j) (bytes k)

pub record Store (K V : Type 0) (bytes : K → List ℕ) : Type 1 where
  pub Db : Type 0
  pub empty : Db
  pub get : Db → K → Option V
  pub put : Db → K → V → Db
  -- Deleting a key that is absent changes nothing (`MDB_NOTFOUND`).
  pub del : Db → K → Db
  pub last : Db → Option (K × V)
  -- The entry behind a key that is present.
  pub next : Db → K → Option (K × V)
  pub get-empty : (k : K) → get empty k ≡ none
  pub get-put_self : (d : Db) (k : K) (v : V) → get (put d k v) k ≡ some v
  pub get-put_ne : (d : Db) (k j : K) (v : V) → k ≢ j → get (put d k v) j ≡ get d j
  pub get-del_self : (d : Db) (k : K) → get (del d k) k ≡ none
  pub get-del_ne : (d : Db) (k j : K) → k ≢ j → get (del d k) j ≡ get d j
  pub get-last : (d : Db) (k : K) (v : V) → last d ≡ some (k, v) → get d k ≡ some v
  pub last_none : (d : Db) (j : K) → last d ≡ none → get d j ≡ none
  pub last_max :
      (d : Db) (k j : K) (v w : V)
      → last d ≡ some (k, v)
      → get d j ≡ some w
      → before bytes k j ≡ false
  pub get-next : (d : Db) (k j : K) (w : V) → next d k ≡ some (j, w) → get d j ≡ some w
  pub next_before : (d : Db) (k j : K) (w : V) → next d k ≡ some (j, w) → before bytes k j ≡ true
  pub next_least :
      (d : Db) (k j i : K) (w u : V)
      → next d k ≡ some (j, w)
      → get d i ≡ some u
      → before bytes k i ≡ true
      → before bytes i j ≡ false
  pub next_none :
      (d : Db) (k i : K) (u : V) → next d k ≡ none → get d i ≡ some u → before bytes k i ≡ false
