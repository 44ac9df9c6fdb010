-- ===== src/Fs/Extent/Misplaced.antt =====
-- `mtl_free_extent` where the entries behind the freed one are not what it takes them for.
use metal_fs.Base.{
  ℕ, ◌+◌, ◌^◌, ◌<◌, ◌≡◌, refl, ap, ◌∙◌, ◌≢◌, inl, inr, true, false, some, arith, Option-cases, none,
  sym,
}
use metal_fs.Lmdb.Order.{memcmp_irrefl}
use metal_fs.Fs.Types.{add64, u64_bytes, NodeId, is_invalid, free, is_free, Extent}
use metal_fs.Fs.State.{Databases, Txn, ok, or_keep}
use metal_fs.Fs.Tiling.{Layout, update, update_self, update_ne, IsTiling, join_apart, pile_up}
use metal_fs.Fs.Space.{free_at}
use metal_fs.Fs.View.{layout, queue, IsValid}
use metal_fs.Fs.Heap.{heap_insert, heap_delete, heap_increase_key}
use metal_fs.Fs.Extent.{
  load_extent, delete_extent, insert_free, merge_previous, release, free_extent,
}
use metal_fs.Fs.Extent.Effect.{layout-put_extent, popped, effects}
use metal_fs.Fs.Extent.Free.{
  found_free, behind, release-insert_free, merge_previous-none, merge_following-some,
}

module _ (L : Databases) where
  layout-increase_key :
      (t : Txn L) (n : NodeId) (size : ℕ)
      → layout L (or_keep (heap_increase_key L t n size) (t, n)).0 ≡ layout L t
  unfolding heap_increase_key heap_delete heap_insert
  layout-increase_key t n size = elim (Option-cases (L.heap.get t.heap n)) [
    | inl e ↦ rw (e, heap_increase_key, heap_delete)
    | inr (v, e) ↦ rw (e, heap_increase_key, heap_delete)
  ]

  -- What is written where a merge moved to the extent with node `x`.
  abbrev moved : Txn L → ℕ → NodeId → Txn L × NodeId
  moved t size x = or_keep (heap_increase_key L t x size) (t, x)

  layout-release :
      (t : Txn L) (r size : ℕ) (x : NodeId)
      → is_invalid x ≡ false
      → layout L (release L (t, r, size, x))
        ≡ update
            (layout L t)
            r
            (some (record { length = size; status = free; pq_node = (moved t size x).1 }))
  unfolding release
  layout-release t r size x h =
      let whole : Extent = record { length = size; status = free; pq_node = (moved t size x).1 } in
      rw (h, release)
        (layout-put_extent L (moved t size x).0 r whole
          ∙ ap (λ g. update g r (some whole)) (layout-increase_key t x size))

  merge_previous-some :
      (t : Txn L) (o size r : ℕ) (m : Extent)
      → behind L t o ≡ some (r, m)
      → is_free m.status ≡ true
      → merge_previous L t o size ≡ (delete_extent L t o, r, add64 size m.length, m.pq_node)
  unfolding merge_previous
  merge_previous-some t o size r m h k = rw (h, merge_previous) (rw k)

  module _ (blocks : ℕ) (t : Txn L) (o : ℕ) (e : Extent) (p : ℕ) (n : Extent)
      (small : blocks + blocks + blocks < 2 ^ 64) (valid : IsValid L blocks t)
      (at : layout L t o ≡ some e) (next : behind L t o ≡ some (p, n))
      (unused : is_free n.status ≡ true) where
    abbrev merged : Txn L
    merged = delete_extent L (popped L t n.pq_node) p

    neighbour : layout L t p ≡ some n
    neighbour = L.extents.get-next t.extents o p n next

    queued_neighbour : queue L t n.pq_node ≡ some p
    queued_neighbour =
        let (whole, listed) = valid.queued p n neighbour unused in
        rw (ap (λ (x : Extent). x.pq_node) whole) listed

    ne_self : p ≢ o
    ne_self q =
        let ahead = L.extents.next_before t.extents o p n next in
        cc (memcmp_irrefl (u64_bytes o), ahead, q)

    sum : add64 e.length n.length ≡ e.length + n.length
    sum = omega (arith, valid.tiling.inside p n neighbour, valid.tiling.inside o e at)

    -- A free extent that stands behind the freed one in the order of LMDB's keys is merged with it
    -- wherever it starts: in a valid allocator, where it does not start where the freed one ends
    -- and the entry behind the two is not free, the extents no longer tile the storage.
    free_extent_not_adjacent :
        p ≢ o + e.length
        → found_free (behind L merged o) ≡ false
        → (t' : Txn L) × (free_extent L t o ≡ ok t') × (¬ IsTiling blocks (layout L t'))
    unfolding free_extent load_extent
    free_extent_not_adjacent far h = (
      insert_free L merged o (e.length + n.length),
      rw
          (
            at,
            merge_following-some L t o e.length p n next unused queued_neighbour,
            sum,
            merge_previous-none L merged o (e.length + n.length) h,
          )
          (ap ok (release-insert_free L merged o (e.length + n.length))),
      simp effects (
          join_apart valid.tiling o e at p n (free_at (e.length + n.length) o) neighbour ne_self far
            refl),
    )

    found_third :
        (r : ℕ) (m : Extent) → behind L merged o ≡ some (r, m) → p < r → layout L t r ≡ some m
    unfolding delete_extent popped
    found_third r m third lt =
        let there = L.extents.get-next merged.extents o r m third in
        ground (arith, there, L.extents.get-del_ne t.extents p r)

    -- The entries after the three are merged.
    layout-piled :
        (r size : ℕ) (x : NodeId)
        → is_invalid x ≡ false
        → layout L (release L (delete_extent L merged o, r, size, x))
          ≡ update (update (update (layout L t) p none) o none) r (
              some (record {
                length = size;
                status = free;
                pq_node = (moved (delete_extent L merged o) size x).1;
              }))
    layout-piled r size x h =
        layout-release (delete_extent L merged o) r size x h ∙ simp effects refl

    -- In a valid allocator, with two free extents behind the freed one in the order of LMDB's keys,
    -- the second of them further on in the storage than the others, the three are merged to one free
    -- extent at the start of the second, whose entry is the one that stays, and the extents no longer
    -- tile the storage.
    pub free_extent_pile_up :
        (r : ℕ) (m : Extent)
        → behind L merged o ≡ some (r, m)
        → is_free m.status ≡ true
        → o < r
        → p < r
        → (t' : Txn L) × (x : NodeId) × (free_extent L t o ≡ ok t')
          × (layout L t' r
              ≡ some
                  (record { length = e.length + n.length + m.length; status = free; pq_node = x }))
          × (layout L t' o ≡ none)
          × (layout L t' p ≡ none)
          × (¬ IsTiling blocks (layout L t'))
    unfolding free_extent load_extent
    free_extent_pile_up r m third unused' lt lt' =
        let found : layout L t r ≡ some m = found_third r m third lt' in
        let total : add64 (e.length + n.length) m.length ≡ e.length + n.length + m.length = omega (
          arith,
          valid.tiling.inside o e at,
          valid.tiling.inside p n neighbour,
          valid.tiling.inside r m found,
        ) in
        let valid_node : is_invalid m.pq_node ≡ false =
          ground (arith, valid.queued r m found unused', valid.tiling.inside r m found) in
        let whole : Extent = record {
          length = e.length + n.length + m.length;
          status = free;
          pq_node = (moved (delete_extent L merged o) (e.length + n.length + m.length) m.pq_node).1;
        } in
        let after = layout-piled r (e.length + n.length + m.length) m.pq_node valid_node in
        let without = update (update (layout L t) p none) o none in
        let earlier = update (layout L t) p none in
        (
          release L (delete_extent L merged o, r, e.length + n.length + m.length, m.pq_node),
          whole.pq_node,
          rw (
            at,
            merge_following-some L t o e.length p n next unused queued_neighbour,
            sum,
            merge_previous-some merged o (e.length + n.length) r m third unused',
            total,
          ),
          ap (λ (g : Layout). g r) after ∙ update_self without r (some whole),
          ap (λ (g : Layout). g o) after
              ∙ update_ne without r o (some whole) (omega arith)
              ∙ update_self earlier o none,
          ap (λ (g : Layout). g p) after
              ∙ update_ne without r p (some whole) (omega arith)
              ∙ update_ne earlier o p none (λ q. ne_self (sym q))
              ∙ update_self (layout L t) p none,
          rw after (pile_up valid.tiling o e at p r n m whole neighbour found lt lt' refl),
        )
