-- ===== src/Fs/Extent.antt =====
-- src/metal-filesystem/src/extent.c: the extents that cover the blocks of the storage.
pub mod Effect
pub mod Start
pub mod Free
pub mod Misplaced
pub mod Reserve
pub mod Grow
use metal_fs.Base.{ℕ, Bool, Option, none, some, ltb, ◌==◌, if◌then◌else◌, length}
use metal_fs.Fs.Types.{
  add64, sub64, NodeId, invalid_node, is_invalid, free, reserved, committed, is_free, Extent,
  FileExtent, extents,
}
use metal_fs.Fs.State.{Databases, Txn, Result, ok, err, fault, ◌>>=◌, asserted, or_keep, deref}
use metal_fs.Fs.Heap.{heap_insert, heap_delete, heap_extract_max, heap_increase_key}

-- The extent that `mtl_reserve_extent` works on: where it starts, what the database holds there,
-- the blocks that are joined to it from behind, and the blocks that the caller had before.
pub record Candidate : Type 0 where
  pub offset : ℕ
  pub extent : Extent
  pub append_length : ℕ
  pub original_length : ℕ

module _ (L : Databases) where
  pub load_extent : Txn L → ℕ → Option Extent
  load_extent t offset = L.extents.get t.extents offset

  pub put_extent : Txn L → ℕ → Extent → Txn L
  put_extent t offset e = record t { extents = L.extents.put t.extents offset e }

  unfoldable pub delete_extent : Txn L → ℕ → Txn L
  delete_extent t offset = record t { extents = L.extents.del t.extents offset }

  -- Put a free extent on the heap and into the database.
  pub insert_free : Txn L → ℕ → ℕ → Txn L
  unfolding heap_insert put_extent
  insert_free t offset len =
      let (t', node) = heap_insert L t len offset in
      put_extent t' offset (record { length = len; status = free; pq_node = node })

  unfoldable pub initialize_extents : Txn L → ℕ → Txn L
  unfolding load_extent insert_free
  initialize_extents t blocks = elim (load_extent t 0) [
    | none ↦ insert_free t 0 blocks
    | some _ ↦ t
  ]

  -- The free extent behind `last_extent` is taken off the heap and out of the database.
  pub absorb_next : Txn L → FileExtent → ℕ → Extent → Result (Txn L × Option Candidate)
  unfolding heap_delete delete_extent load_extent
  absorb_next t last next_offset next = do
    t' ← asserted (heap_delete L t next.pq_node)
    let t'' = delete_extent t' next_offset
    e ← deref (load_extent t'' last.offset)
    ok (
      t'',
      some (record {
        offset = last.offset;
        extent = e;
        append_length = next.length;
        original_length = e.length;
      }),
    )

  -- "Check if we can extend it"
  pub grow_last : Txn L → FileExtent → Result (Txn L × Option Candidate)
  unfolding load_extent absorb_next
  grow_last t last =
      let next_offset = add64 last.offset last.length in
      elim (load_extent t next_offset) [
        | none ↦ ok (t, none)
        | some next ↦
            if is_free next.status then absorb_next t last next_offset next else ok (t, none)
      ]

  -- The greatest free extent; `none` when the heap is empty.
  pub pop_extent : Txn L → Result (Txn L × Option Candidate)
  unfolding heap_extract_max load_extent
  pop_extent t = elim (heap_extract_max L t) [
    | ok (t', o) ↦ do
      e ← deref (load_extent t' o)
      ok (t', some (record { offset = o; extent = e; append_length = 0; original_length = 0 }))
    | err _ ↦ ok (t, none)
    | fault ↦ fault
  ]

  -- "Split up if necessary", and write the extent back.
  unfoldable pub place : Txn L → Candidate → ℕ → Bool → Txn L × FileExtent
  unfolding insert_free put_extent
  place t c size commit =
      let extent_length = add64 c.extent.length c.append_length in
      let needed = add64 c.original_length size in
      let status = if commit then committed else reserved in
      if ltb needed extent_length
      then (
        put_extent (insert_free t (add64 c.offset needed) (sub64 extent_length needed)) c.offset
            (record { length = needed; status = status; pq_node = c.extent.pq_node }),
        record { offset = c.offset; length = sub64 needed c.original_length },
      )
      else (
        put_extent t c.offset (record c.extent { status = status }),
        record { offset = c.offset; length = sub64 extent_length c.original_length },
      )

  pub finish_reserve : ℕ → Bool → Txn L × Option Candidate → Result (Txn L × Option FileExtent)
  unfolding place
  finish_reserve size commit (t, none) = ok (t, none)
  finish_reserve size commit (t, some c) = let (t', x) = place t c size commit in ok (t', some x)

  pub pop_unless : Txn L × Option Candidate → Result (Txn L × Option Candidate)
  unfolding pop_extent
  pop_unless (t, none) = pop_extent t
  pop_unless (t, some c) = ok (t, some c)

  -- The blocks that were reserved, or `none` where the C function returns 0 and leaves `offset`
  -- alone. Its length is the function's result.
  unfoldable pub reserve_extent :
      Txn L → ℕ → Option FileExtent → Bool → Result (Txn L × Option FileExtent)
  unfolding grow_last pop_unless finish_reserve
  reserve_extent t size last commit = do
    grown ← elim last [ none ↦ ok (t, none) | some x ↦ grow_last t x ]
    picked ← pop_unless grown
    finish_reserve size commit picked

  -- The extent that `mtl_free_extent` has merged so far.
  abbrev pub Merge : Type 0
  Merge = Txn L × ℕ × ℕ × NodeId

  -- "Check if the following extent is also free"
  pub merge_following : Txn L → ℕ → ℕ → Txn L × ℕ
  unfolding heap_delete delete_extent
  merge_following t offset size = elim (L.extents.next t.extents offset) [
    | none ↦ (t, size)
    | some (o, e) ↦
        if is_free e.status
        then (delete_extent (or_keep (heap_delete L t e.pq_node) t) o, add64 size e.length)
        else (t, size)
  ]

  -- "Check if we can merge with the previous extent": the cursor is moved by `MDB_NEXT` here too.
  pub merge_previous : Txn L → ℕ → ℕ → Merge
  unfolding delete_extent
  merge_previous t offset size = elim (L.extents.next t.extents offset) [
    | none ↦ (t, offset, size, invalid_node)
    | some (o, e) ↦
        if is_free e.status
        then (delete_extent t offset, o, add64 size e.length, e.pq_node)
        else (t, offset, size, invalid_node)
  ]

  -- "Insert resulting extent into heap", and write it.
  pub release : Merge → Txn L
  unfolding heap_increase_key heap_insert put_extent
  release (t, offset, size, node) =
      let (t', node') =
        if is_invalid node
        then heap_insert L t size offset
        else or_keep (heap_increase_key L t node size) (t, node) in
      put_extent t' offset (record { length = size; status = free; pq_node = node' })

  unfoldable pub free_extent : Txn L → ℕ → Result (Txn L)
  unfolding load_extent merge_following merge_previous release
  free_extent t offset = do
    e ← deref (load_extent t offset)
    let (t', size) = merge_following t offset e.length
    ok (release (merge_previous t' offset size))

  unfoldable pub truncate_extent : Txn L → ℕ → ℕ → Result (Txn L)
  unfolding free_extent put_extent load_extent
  truncate_extent t offset len = if len == 0 then free_extent t offset else do
    e ← deref (load_extent t offset)
    let t' = put_extent t offset (record e { status = committed; length = len })
    if ltb len e.length
        then free_extent
            (put_extent t' (add64 offset len)
              (record { length = sub64 e.length len; status = reserved; pq_node = invalid_node }))
            (add64 offset len)
        else ok t'
