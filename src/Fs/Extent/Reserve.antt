-- ===== src/Fs/Extent/Reserve.antt =====
-- `mtl_reserve_extent` without a last extent.
use metal_fs.Base.{
  ℕ, ◌+◌, ◌-◌, ◌^◌, ◌≤◌, ◌<◌, min, ◌≡◌, refl, inl, inr, Bool, true, false, Option, none, some,
  arith, ltb, if◌then◌else◌, Bool-cases, Option-cases,
}
use metal_fs.Fs.Types.{add64, sub64, NodeId, reserved, committed, is_free, Extent, FileExtent}
use metal_fs.Fs.State.{Databases, Txn, ok}
use metal_fs.Fs.Space.{node, free_at, take_whole, take_part}
use metal_fs.Fs.View.{layout, queue, IsValid}
use metal_fs.Fs.Heap.{heap_insert, heap_delete, heap_extract_max}
use metal_fs.Fs.Extent.Effect.{popped, effects}
use metal_fs.Fs.Extent.{
  Candidate, load_extent, put_extent, insert_free, pop_extent, place, finish_reserve, pop_unless,
  reserve_extent,
}

module _ (L : Databases) where
  abbrev candidate : ℕ → Extent → Candidate
  candidate o e = record { offset = o; extent = e; append_length = 0; original_length = 0 }

  pop_extent-some :
      (t : Txn L) (n : NodeId) (o : ℕ) (e : Extent)
      → L.heap.last t.heap ≡ some (n, o)
      → layout L t o ≡ some e
      → pop_extent L t ≡ ok (popped L t n, some (candidate o e))
  unfolding pop_extent heap_extract_max heap_delete load_extent popped
  pop_extent-some t n o e h k = ground (arith, L.heap.get-last t.heap n o)

  pop_extent-none : (t : Txn L) → L.heap.last t.heap ≡ none → pop_extent L t ≡ ok (t, none)
  unfolding pop_extent heap_extract_max
  pop_extent-none t h = ground arith

  abbrev used : Bool → ℕ → NodeId → Extent
  used commit len n = record {
    length = len;
    status = if commit then committed else reserved;
    pq_node = n;
  }

  used_not_free : (commit : Bool) → is_free (if commit then committed else reserved) ≡ false
  used_not_free true = refl
  used_not_free false = refl

  module _ (blocks : ℕ) (t : Txn L) (size : ℕ) (commit : Bool) (n : NodeId) (o : ℕ)
      (small : size + blocks < 2 ^ 64) (valid : IsValid L blocks t)
      (top : L.heap.last t.heap ≡ some (n, o)) where
    head_of : queue L t n ≡ some o
    head_of = L.heap.get-last t.heap n o top

    found : layout L t o ≡ some (free_at n.k o)
    found = (valid.listed n o head_of).1

    fits : (0 < n.k) × (o + n.k ≤ blocks)
    fits = valid.tiling.inside o (free_at n.k o) found

    abbrev taken : ℕ → Extent
    taken len = used commit len (node n.k o)

    reserve-some :
        (t' : Txn L) (x : FileExtent)
        → place L (popped L t n) (candidate o (free_at n.k o)) size commit ≡ (t', x)
        → reserve_extent L t size none commit ≡ ok (t', some x)
    unfolding reserve_extent pop_unless finish_reserve
    reserve-some t' x h = rw (pop_extent-some t n o (free_at n.k o) top found, h)

    place-whole :
        n.k ≤ size
        → place L (popped L t n) (candidate o (free_at n.k o)) size commit
          ≡ (put_extent L (popped L t n) o (taken n.k), record { offset = o; length = n.k })
    unfolding place
    place-whole le =
        let test : ltb (add64 0 size) (add64 n.k 0) ≡ false = ground (arith, fits) in
        let len : sub64 (add64 n.k 0) 0 ≡ n.k = omega (arith, fits) in rw (test, len)

    place-whole-IsValid : IsValid L blocks (put_extent L (popped L t n) o (taken n.k))
    place-whole-IsValid =
        simp effects (take_whole valid o n (taken n.k) head_of (used_not_free commit) refl)

    place-part :
        size < n.k
        → place L (popped L t n) (candidate o (free_at n.k o)) size commit ≡ (
          put_extent L (insert_free L (popped L t n) (o + size) (n.k - size)) o (taken size),
          record { offset = o; length = size },
        )
    unfolding place
    place-part lt =
        let test : ltb (add64 0 size) (add64 n.k 0) ≡ true = ground (arith, fits) in
        let front : add64 0 size ≡ size = omega arith in
        let behind : add64 o size ≡ o + size = omega (arith, fits) in
        let rest : sub64 (add64 n.k 0) size ≡ n.k - size = omega (arith, fits) in
        let len : sub64 size 0 ≡ size = omega arith in rw test (rw front (rw (behind, rest, len)))

    place-part-IsValid :
        0 < size
        → size < n.k
        → IsValid L blocks
            (put_extent L (insert_free L (popped L t n) (o + size) (n.k - size)) o (taken size))
    place-part-IsValid pos lt = simp effects (
        take_part valid o n (taken size) (n.k - size) head_of (used_not_free commit) pos
          (omega arith) (omega arith))

  -- What a reservation of `size` blocks gives: the extent of the heap's last node, which was free,
  -- is used from its start on, and holds as many blocks as it had and were wanted.
  abbrev pub Allocated : Txn L → ℕ → Bool → Txn L → Option FileExtent → Type 0
  Allocated t size commit t' none = L.heap.last t.heap ≡ none
  Allocated t size commit t' (some x) =
      (n : NodeId) × (L.heap.last t.heap ≡ some (n, x.offset))
      × (layout L t x.offset ≡ some (free_at n.k x.offset))
      × (x.length ≡ min size n.k)
      × (layout L t' x.offset ≡ some (used commit x.length (node n.k x.offset)))

  layout-put_self : (t : Txn L) (o : ℕ) (e : Extent) → layout L (put_extent L t o e) o ≡ some e
  unfolding put_extent
  layout-put_self t o e = L.extents.get-put_self t.extents o e

  -- For a wanted size above 0 that does not wrap, and a valid allocator, `mtl_reserve_extent`
  -- without a last extent returns (no assertion fails), keeps the allocator valid and the inodes as
  -- they are, and gives the first blocks of the free extent at the end of the heap, all of them or
  -- as many as are wanted; it gives none only when the heap is empty.
  pub reserve_extent-Allocated :
      (blocks : ℕ) (t : Txn L) (size : ℕ) (commit : Bool)
      → size + blocks < 2 ^ 64
      → 0 < size
      → IsValid L blocks t
      → (t' : Txn L) × (r : Option FileExtent) × (reserve_extent L t size none commit ≡ ok (t', r))
        × IsValid L blocks t'
        × Allocated t size commit t' r
        × (t'.inodes ≡ t.inodes)
  unfolding reserve_extent pop_unless finish_reserve put_extent insert_free popped heap_insert
  reserve_extent-Allocated blocks t size commit small pos valid =
      elim (Option-cases (L.heap.last t.heap)) [
        | inl e ↦ (t, none, rw (pop_extent-none t e), valid, e, refl)
        | inr ((n, o), e) ↦ elim (Bool-cases (ltb size n.k)) [
          | inl lt ↦ (
            put_extent L (insert_free L (popped L t n) (o + size) (n.k - size)) o
                (used commit size (node n.k o)),
            some (record { offset = o; length = size }),
            reserve-some blocks t size commit n o small valid e _ _
                (place-part blocks t size commit n o small valid e (ground arith)),
            place-part-IsValid blocks t size commit n o small valid e pos (ground arith),
            (
              n,
              e,
              found blocks t size commit n o small valid e,
              ground arith,
              layout-put_self (insert_free L (popped L t n) (o + size) (n.k - size)) o _,
            ),
            refl,
          )
          | inr ge ↦ (
            put_extent L (popped L t n) o (used commit n.k (node n.k o)),
            some (record { offset = o; length = n.k }),
            reserve-some blocks t size commit n o small valid e _ _
                (place-whole blocks t size commit n o small valid e (ground arith)),
            place-whole-IsValid blocks t size commit n o small valid e,
            (
              n,
              e,
              found blocks t size commit n o small valid e,
              ground arith,
              layout-put_self (popped L t n) o _,
            ),
            refl,
          )
        ]
      ]
