-- ===== src/Fs/Heap.antt =====
-- src/metal-filesystem/src/heap.c: a priority queue kept as a database whose keys are the pairs of
-- a priority and a value.
use metal_fs.Base.{ℕ, none, some}
use metal_fs.Fs.Types.{no_entry, invalid_argument, NodeId}
use metal_fs.Fs.State.{Databases, Txn, Result, ok, err, ◌>>=◌}

module _ (L : Databases) where
  open L use {heap}

  unfoldable pub heap_insert : Txn L → ℕ → ℕ → Txn L × NodeId
  heap_insert t key value =
      let id : NodeId = record { k = key; v = value } in
      (record t { heap = heap.put t.heap id value }, id)

  unfoldable pub heap_delete : Txn L → NodeId → Result (Txn L)
  heap_delete t id = elim (heap.get t.heap id) [
    | none ↦ err invalid_argument
    | some _ ↦ ok (record t { heap = heap.del t.heap id })
  ]

  unfoldable pub heap_extract_max : Txn L → Result (Txn L × ℕ)
  unfolding heap_delete
  heap_extract_max t = elim (heap.last t.heap) [
    | none ↦ err no_entry
    | some (id, value) ↦ do t' ← heap_delete t id; ok (t', value)
  ]

  unfoldable pub heap_increase_key : Txn L → NodeId → ℕ → Result (Txn L × NodeId)
  unfolding heap_delete heap_insert
  heap_increase_key t id key = do t' ← heap_delete t id; ok (heap_insert t' key 0)
