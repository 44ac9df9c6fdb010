-- ===== src/Fs/Extent/Free.antt =====
-- `mtl_free_extent` where its two looks at the next extent find what they are meant for.
use metal_fs.Base.{ℕ, ◌+◌, ◌^◌, ◌<◌, ◌≡◌, refl, ap, Bool, true, false, Option, none, some, arith}
use metal_fs.Fs.Types.{add64, invalid_node, is_free, Extent}
use metal_fs.Fs.State.{Databases, Txn, ok}
use metal_fs.Fs.Tiling.{update}
use metal_fs.Fs.Space.{free_at, give_back, give_back_joined}
use metal_fs.Fs.View.{layout, queue, IsValid}
use metal_fs.Fs.Heap.{heap_insert}
use metal_fs.Fs.Extent.{
  load_extent, put_extent, delete_extent, insert_free, merge_following, merge_previous, release,
  free_extent,
}
use metal_fs.Fs.Extent.Effect.{layout-insert_free, popped, heap_delete-ok, effects}

-- The entry that a cursor found is a free extent.
abbrev pub found_free : Option (ℕ × Extent) → Bool
found_free none = false
found_free (some (o, e)) = is_free e.status

module _ (L : Databases) where
  -- The entry behind `o` in the order of the keys.
  abbrev pub behind : Txn L → ℕ → Option (ℕ × Extent)
  behind t o = L.extents.next t.extents o

  pub release-insert_free :
      (t : Txn L) (o size : ℕ) → release L (t, o, size, invalid_node) ≡ insert_free L t o size
  unfolding release insert_free heap_insert put_extent
  release-insert_free t o size = refl

  pub merge_following-none :
      (t : Txn L) (o size : ℕ)
      → found_free (behind t o) ≡ false
      → merge_following L t o size ≡ (t, size)
  unfolding merge_following
  merge_following-none t o size h = ground arith

  pub merge_previous-none :
      (t : Txn L) (o size : ℕ)
      → found_free (behind t o) ≡ false
      → merge_previous L t o size ≡ (t, o, size, invalid_node)
  unfolding merge_previous
  merge_previous-none t o size h = ground arith

  pub merge_following-some :
      (t : Txn L) (o size p : ℕ) (n : Extent)
      → behind t o ≡ some (p, n)
      → is_free n.status ≡ true
      → queue L t n.pq_node ≡ some p
      → merge_following L t o size ≡ (delete_extent L (popped L t n.pq_node) p, add64 size n.length)
  unfolding merge_following
  merge_following-some t o size p n h k q =
      rw (h, merge_following) (rw k (rw (heap_delete-ok L t n.pq_node q)))

  module _ (blocks : ℕ) (t : Txn L) (o : ℕ) (e : Extent) (small : blocks < 2 ^ 64)
      (valid : IsValid L blocks t) (at : layout L t o ≡ some e)
      (used : is_free e.status ≡ false) where
    -- With no free extent behind it, a used extent of a valid allocator becomes free as it is, and
    -- the allocator stays valid.
    free_extent-alone :
        found_free (behind t o) ≡ false
        → (t' : Txn L) × (free_extent L t o ≡ ok t')
          × IsValid L blocks t'
          × (layout L t' ≡ update (layout L t) o (some (free_at e.length o)))
    unfolding free_extent load_extent
    free_extent-alone h = (
      insert_free L t o e.length,
      rw (at, merge_following-none t o e.length h, merge_previous-none t o e.length h)
          (ap ok (release-insert_free t o e.length)),
      simp effects (give_back valid o e at used),
      layout-insert_free L t o e.length,
    )

    module _ (n : Extent) (next : behind t o ≡ some (o + e.length, n))
        (unused : is_free n.status ≡ true) where
      abbrev merged : Txn L
      merged = delete_extent L (popped L t n.pq_node) (o + e.length)

      neighbour : layout L t (o + e.length) ≡ some n
      neighbour = L.extents.get-next t.extents o (o + e.length) n next

      queued_neighbour : queue L t n.pq_node ≡ some (o + e.length)
      queued_neighbour =
          let (whole, listed) = valid.queued (o + e.length) n neighbour unused in
          rw (ap (λ (x : Extent). x.pq_node) whole) listed

      sum : add64 e.length n.length ≡ e.length + n.length
      sum = omega (arith, valid.tiling.inside (o + e.length) n neighbour)

      -- In a valid allocator, where the entry directly behind a used extent in LMDB's order of the
      -- keys is that of a free extent which starts where the used one ends, the two are merged when
      -- the used one is freed, and the allocator stays valid, provided that the entry behind the two
      -- is not free.
      pub free_extent-joined :
          found_free (behind merged o) ≡ false
          → (t' : Txn L) × (free_extent L t o ≡ ok t')
            × IsValid L blocks t'
            × (layout L t'
                ≡ update
                    (update (layout L t) (o + e.length) none)
                    o
                    (some (free_at (e.length + n.length) o)))
      unfolding free_extent load_extent
      free_extent-joined h = (
        insert_free L merged o (e.length + n.length),
        rw
            (
              at,
              merge_following-some t o e.length (o + e.length) n next unused queued_neighbour,
              sum,
              merge_previous-none merged o (e.length + n.length) h,
            )
            (ap ok (release-insert_free merged o (e.length + n.length))),
        simp effects (give_back_joined valid o e at used n neighbour unused),
        simp effects,
      )
