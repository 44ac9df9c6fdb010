-- ===== src/Fs/Extent/Effect.antt =====
-- What the small steps of extent.c do to the layout and to the queue.
use metal_fs.Base.{ℕ, ◌≡◌, refl, none, some}
use metal_fs.Fs.Types.{NodeId, Extent}
use metal_fs.Fs.State.{Databases, Txn, ok}
use metal_fs.Fs.Tiling.{update}
use metal_fs.Fs.Space.{enqueue, node, free_at}
use metal_fs.Fs.View.{layout, queue, extents-put, extents-del, heap-put, heap-del}
use metal_fs.Fs.Heap.{heap_insert, heap_delete}
use metal_fs.Fs.Extent.{put_extent, delete_extent, insert_free}

module _ (L : Databases) (t : Txn L) where
  pub layout-put_extent :
      (o : ℕ) (e : Extent) → layout L (put_extent L t o e) ≡ update (layout L t) o (some e)
  unfolding put_extent
  layout-put_extent o e = extents-put L t.extents o e

  pub queue-put_extent : (o : ℕ) (e : Extent) → queue L (put_extent L t o e) ≡ queue L t
  unfolding put_extent
  queue-put_extent o e = refl

  pub layout-delete_extent : (o : ℕ) → layout L (delete_extent L t o) ≡ update (layout L t) o none
  unfolding delete_extent
  layout-delete_extent o = extents-del L t.extents o

  pub queue-delete_extent : (o : ℕ) → queue L (delete_extent L t o) ≡ queue L t
  unfolding delete_extent
  queue-delete_extent o = refl

  pub layout-insert_free :
      (o len : ℕ) → layout L (insert_free L t o len) ≡ update (layout L t) o (some (free_at len o))
  unfolding insert_free heap_insert put_extent
  layout-insert_free o len = extents-put L t.extents o (free_at len o)

  pub queue-insert_free :
      (o len : ℕ) → queue L (insert_free L t o len) ≡ enqueue (queue L t) (node len o) (some o)
  unfolding insert_free heap_insert put_extent
  queue-insert_free o len = heap-put L t.heap (node len o) o

  -- The transaction after a node is taken off the heap.
  unfoldable pub popped : NodeId → Txn L
  popped n = record t { heap = L.heap.del t.heap n }

  pub heap_delete-ok :
      (n : NodeId) {v : ℕ} → queue L t n ≡ some v → heap_delete L t n ≡ ok (popped n)
  unfolding heap_delete popped
  heap_delete-ok n h = rw (h, heap_delete)

  pub layout-popped : (n : NodeId) → layout L (popped n) ≡ layout L t
  unfolding popped
  layout-popped n = refl

  pub queue-popped : (n : NodeId) → queue L (popped n) ≡ enqueue (queue L t) n none
  unfolding popped
  queue-popped n = heap-del L t.heap n

pub ruleset effects = (
  layout-popped, queue-popped, layout-put_extent, queue-put_extent, layout-delete_extent,
  queue-delete_extent, layout-insert_free, queue-insert_free,
)
