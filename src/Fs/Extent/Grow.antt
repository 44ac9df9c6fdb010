-- ===== src/Fs/Extent/Grow.antt =====
-- `mtl_reserve_extent` with a last extent that is followed by a free one.
use metal_fs.Base.{
  ℕ, ◌+◌, ◌-◌, ◌^◌, ◌≤◌, ◌<◌, ◌≡◌, refl, ap, ◌∙◌, Bool, true, false, none, some, arith, ltb,
  if◌then◌else◌,
}
use metal_fs.Fs.Types.{add64, sub64, reserved, committed, is_free, Extent, FileExtent}
use metal_fs.Fs.State.{Databases, Txn, ok}
use metal_fs.Fs.Tiling.{Layout, update, update_self, update_ne, IsTiling}
use metal_fs.Fs.View.{layout, queue, IsValid}
use metal_fs.Fs.Extent.{
  Candidate, load_extent, put_extent, delete_extent, insert_free, absorb_next, grow_last, place,
  finish_reserve, pop_unless, reserve_extent,
}
use metal_fs.Fs.Extent.Effect.{popped, heap_delete-ok, effects}
use metal_fs.Fs.Heap.{heap_delete}
use metal_fs.Fs.Space.{take_front}

-- An extent whose free neighbour is gone, without being longer itself.
gap :
    {blocks : ℕ} {g : Layout}
    → IsTiling blocks g
    → (o : ℕ) (e e' n : Extent) → g o ≡ some e
    → g (o + e.length) ≡ some n
    → e'.length ≡ e.length
    → ¬ IsTiling blocks (update (update g (o + e.length) none) o (some e'))
unfolding update
gap t o e e' n at next same u =
    ground (arith, u.follow o e', t.inside (o + e.length) n, t.inside o e, same)

module _ (L : Databases) (t : Txn L) (last : FileExtent) (p : ℕ) (n : Extent) where
  absorb_next-some :
      (t1 : Txn L) (e : Extent)
      → heap_delete L t n.pq_node ≡ ok t1
      → load_extent L (delete_extent L t1 p) last.offset ≡ some e
      → absorb_next L t last p n
        ≡ ok (
          delete_extent L t1 p,
          some (record {
            offset = last.offset;
            extent = e;
            append_length = n.length;
            original_length = e.length;
          }),
        )
  unfolding absorb_next
  absorb_next-some t1 e h k = rw h (rw k)

  grow_last-absorb_next :
      add64 last.offset last.length ≡ p
      → load_extent L t p ≡ some n
      → is_free n.status ≡ true
      → grow_last L t last ≡ absorb_next L t last p n
  unfolding grow_last
  grow_last-absorb_next a h k = rw (a, h, grow_last) (rw k (rw a))

module _ (L : Databases) (blocks : ℕ) (t : Txn L) (o : ℕ) (e n : Extent) (size : ℕ) (commit : Bool)
    (small : blocks + size < 2 ^ 64) (valid : IsValid L blocks t) (at : layout L t o ≡ some e)
    (next : layout L t (o + e.length) ≡ some n) (unused : is_free n.status ≡ true) where
  abbrev last : FileExtent
  last = record { offset = o; length = e.length }

  abbrev absorbed : Txn L
  absorbed = delete_extent L (popped L t n.pq_node) (o + e.length)

  abbrev grown : Candidate
  grown = record { offset = o; extent = e; append_length = n.length; original_length = e.length }

  queued_next : queue L t n.pq_node ≡ some (o + e.length)
  queued_next =
      let (whole, listed) = valid.queued (o + e.length) n next unused in
      rw (ap (λ (x : Extent). x.pq_node) whole) listed

  kept : layout L absorbed o ≡ some e
  unfolding delete_extent popped
  kept =
      ground
        (arith, L.extents.get-del_ne t.extents (o + e.length) o, valid.tiling.inside o e at, at)

  grow_last-grown : grow_last L t last ≡ ok (absorbed, some grown)
  unfolding load_extent
  grow_last-grown =
      let behind : add64 o e.length ≡ o + e.length = omega (arith, valid.tiling.inside o e at) in
      grow_last-absorb_next L t last (o + e.length) n behind next unused
      ∙ absorb_next-some L t last (o + e.length) n (popped L t n.pq_node) e
          (heap_delete-ok L t n.pq_node queued_next) kept

  layout-taken :
      (entry : Extent)
      → layout L (put_extent L absorbed o entry)
        ≡ update (update (layout L t) (o + e.length) none) o (some entry)
  layout-taken entry = simp effects refl

  entry_taken : (entry : Extent) → layout L (put_extent L absorbed o entry) o ≡ some entry
  entry_taken entry =
      ap (λ (g : Layout). g o) (layout-taken entry)
      ∙ update_self (update (layout L t) (o + e.length) none) o (some entry)

  behind_taken : (entry : Extent) → layout L (put_extent L absorbed o entry) (o + e.length) ≡ none
  behind_taken entry =
      ap (λ (g : Layout). g (o + e.length)) (layout-taken entry)
      ∙ update_ne (update (layout L t) (o + e.length) none) o (o + e.length) (some entry)
          (omega (arith, valid.tiling.inside o e at))
      ∙ update_self (layout L t) (o + e.length) none

  -- In a valid allocator, where the wanted blocks take up the whole free extent behind a last
  -- extent, they are given to the file and the free extent's entry goes, but the last extent's entry
  -- keeps its length: the extents no longer tile the storage.
  pub reserve_extent_gap :
      n.length ≤ size
      → (t' : Txn L) × (reserve_extent L t size
            (some (record { offset = o; length = e.length }))
            commit
          ≡ ok (t', some (record { offset = o; length = n.length })))
        × (layout L t' o ≡ some (record e { status = if commit then committed else reserved }))
        × (layout L t' (o + e.length) ≡ none)
        × (¬ IsTiling blocks (layout L t'))
  unfolding reserve_extent pop_unless finish_reserve place
  reserve_extent_gap whole =
      let inside = valid.tiling.inside (o + e.length) n next in
      let no_split : ltb (add64 e.length size) (add64 e.length n.length) ≡ false =
        ground (arith, inside) in
      let given : sub64 (add64 e.length n.length) e.length ≡ n.length = omega (arith, inside) in
      let entry : Extent = record e { status = if commit then committed else reserved } in
      (
        put_extent L absorbed o entry,
        rw grow_last-grown (rw no_split (rw given)),
        entry_taken entry,
        behind_taken entry,
        simp effects (gap valid.tiling o e entry n at next refl),
      )

  -- The last extent after it has taken `size` blocks of the free one behind it.
  abbrev pub longer : Extent
  longer = record {
    length = e.length + size;
    status = if commit then committed else reserved;
    pq_node = e.pq_node;
  }

  abbrev extended : Txn L
  extended =
      put_extent L (insert_free L absorbed (o + (e.length + size)) (n.length - size)) o longer

  place-extended :
      size < n.length
      → place L absorbed grown size commit ≡ (extended, record { offset = o; length = size })
  unfolding place
  place-extended part =
      let inside = valid.tiling.inside (o + e.length) n next in
      let needed : add64 e.length size ≡ e.length + size = omega (arith, inside) in
      let all : add64 e.length n.length ≡ e.length + n.length = omega (arith, inside) in
      let test : ltb (e.length + size) (e.length + n.length) ≡ true = ground arith in
      let behind : add64 o (e.length + size) ≡ o + (e.length + size) = omega (arith, inside) in
      let rest : sub64 (e.length + n.length) (e.length + size) ≡ n.length - size =
        omega (arith, inside) in
      let given : sub64 (e.length + size) e.length ≡ size = omega (arith, inside) in
      rw (needed, all) (rw test (rw (behind, rest, given)))

  -- In a valid allocator, where fewer blocks are wanted than the free extent behind a used last
  -- extent has, they are given to the file, the last extent gets longer by them, and the allocator
  -- stays valid.
  pub reserve_extent-extended :
      size < n.length
      → is_free e.status ≡ false
      → (t' : Txn L) × (reserve_extent L t size
            (some (record { offset = o; length = e.length }))
            commit
          ≡ ok (t', some (record { offset = o; length = size })))
        × IsValid L blocks t'
        × (layout L t' o ≡ some longer)
  unfolding reserve_extent pop_unless finish_reserve put_extent
  reserve_extent-extended part used =
      let inside = valid.tiling.inside o e at in
      (
        extended,
        rw grow_last-grown (rw (place-extended part)),
        simp effects (
            take_front valid o e at used n longer (n.length - size) next unused (ground arith)
              (omega (arith, inside)) (omega arith) (omega arith)),
        L.extents.get-put_self _ o longer,
      )
