-- ===== src/Fs/View.antt =====
-- A transaction seen as a layout and a queue.
use mathlib.Core.Path.{fun_ext}
use metal_fs.Base.{ℕ, ◌≡◌, none, some, arith}
use metal_fs.Fs.Types.{NodeId, Extent}
use metal_fs.Fs.State.{Databases, Txn}
use metal_fs.Fs.Tiling.{Layout, update}
use metal_fs.Fs.Space.{Queue, enqueue, IsConsistent}

module _ (L : Databases) where
  abbrev pub layout : Txn L → Layout
  layout t = λ o. L.extents.get t.extents o

  abbrev pub queue : Txn L → Queue
  queue t = λ n. L.heap.get t.heap n

  -- The invariant of the allocator, for a storage of `blocks` blocks.
  abbrev pub IsValid : ℕ → Txn L → Type 0
  IsValid blocks t = IsConsistent blocks (layout t) (queue t)

  open L use {extents, heap}

  pub extents-put :
      (d : extents.Db) (k : ℕ) (e : Extent)
      → extents.get (extents.put d k e) ≡ update (extents.get d) k (some e)
  unfolding update
  extents-put d k e =
      fun_ext λ j. ground (arith, extents.get-put_self d k e, extents.get-put_ne d k j e)

  pub extents-del :
      (d : extents.Db) (k : ℕ) → extents.get (extents.del d k) ≡ update (extents.get d) k none
  unfolding update
  extents-del d k = fun_ext λ j. ground (arith, extents.get-del_self d k, extents.get-del_ne d k j)

  pub heap-put :
      (d : heap.Db) (n : NodeId) (v : ℕ)
      → heap.get (heap.put d n v) ≡ enqueue (heap.get d) n (some v)
  unfolding enqueue
  heap-put d n v = fun_ext λ m. ground (arith, heap.get-put_self d n v, heap.get-put_ne d n m v)

  pub heap-del : (d : heap.Db) (n : NodeId) → heap.get (heap.del d n) ≡ enqueue (heap.get d) n none
  unfolding enqueue
  heap-del d n = fun_ext λ m. ground (arith, heap.get-del_self d n, heap.get-del_ne d n m)
