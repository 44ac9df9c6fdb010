-- ===== src/Fs/FileData/Grow.antt =====
-- `mtl_expand_inode` on a file that has no extents yet.
use native.Mathlib.Nat.{div-add-mod', mod-lt}
use metal_fs.Base.{
  ℕ, zero, suc, ◌+◌, ◌-◌, ◌*◌, ◌^◌, ◌≤◌, ◌<◌, ◌≡◌, ap, ◌∙◌, subst, inl, inr, true, false, Option,
  none, some, List, [], ◌∷◌, arith, ltb, ◌==◌,
}
use native.Mathlib.Decide.{ℕ_discrete}
use metal_fs.Fs.Directory.Entries.{OthersSame}
use metal_fs.Fs.Types.{add64, sub64, NodeId, FileExtent, Inode}
use metal_fs.Fs.State.{Databases, Txn, ok, ◌>>=◌}
use metal_fs.Fs.View.{IsValid}
use metal_fs.Fs.FileData.{
  blocks_of, total_blocks, no_extent, last_extent, capped, assign_blocks, expand_round, expand_loop,
  expand_inode,
}
use metal_fs.Fs.FileData.Write.{IsFile, load_file-IsFile, expand_loop-enough}
use metal_fs.Fs.Inode.{put_inode, store_extents, add_extent_to_file}
use metal_fs.Fs.Extent.{reserve_extent}
use metal_fs.Fs.Extent.Reserve.{Allocated, reserve_extent-Allocated}

-- The blocks hold the bytes.
pub bytes-le-blocks : (bs bytes : ℕ) → 0 < bs → bytes ≤ blocks_of bs bytes * bs
bytes-le-blocks bs bytes h = grind (arith, div-add-mod' bytes bs, mod-lt bytes h)

pub blocks_of_pos : (bs bytes : ℕ) → 0 < bs → 0 < bytes → 0 < blocks_of bs bytes
blocks_of_pos bs bytes h k = grind (arith, div-add-mod' bytes bs, mod-lt bytes h)

module _ (L : Databases) (bs : ℕ) where
  expand_loop-step :
      (fuel : ℕ) (t : Txn L) (id : ℕ) (last : FileExtent) (current end_blocks end_bytes : ℕ)
      → 0 < fuel
      → current < end_blocks
      → expand_loop L bs fuel t id last current end_blocks end_bytes ≡ (
          expand_round L bs t id last current end_blocks end_bytes >>= λ r.
          expand_loop L bs (fuel - 1) r.0 id r.1 r.2 end_blocks end_bytes)
  unfolding expand_loop
  expand_loop-step zero t id last current end_blocks end_bytes h k = absurd (omega arith)
  expand_loop-step (suc fuel) t id last current end_blocks end_bytes h k =
      let test : ltb current end_blocks ≡ true = ground arith in
      let less : suc fuel - 1 ≡ fuel = omega arith in rw (test, less)

  -- A round that gives all the blocks is the last.
  expand_loop-once :
      (fuel : ℕ) (t t' : Txn L) (id : ℕ) (last last' : FileExtent)
      (current end_blocks end_bytes : ℕ)
      → 0 < fuel
      → current < end_blocks
      → expand_round L bs t id last current end_blocks end_bytes ≡ ok (t', last', end_blocks)
      → expand_loop L bs fuel t id last current end_blocks end_bytes ≡ ok t'
  expand_loop-once fuel t t' id last last' current end_blocks end_bytes h k e =
      expand_loop-step fuel t id last current end_blocks end_bytes h k
      ∙ ap (λ q. q >>= λ r. expand_loop L bs (fuel - 1) r.0 id r.1 r.2 end_blocks end_bytes) e
      ∙ expand_loop-enough L bs (fuel - 1) t' id last' end_blocks end_blocks end_bytes (omega arith)

  store_extents-IsValid :
      (blocks : ℕ) (t : Txn L) (id : ℕ) (inode : Inode) (len : ℕ) (xs : List FileExtent)
      → IsValid L blocks t
      → IsValid L blocks (store_extents L t id inode len xs)
  unfolding store_extents put_inode
  store_extents-IsValid blocks t id inode len xs v = v

  store_extents-IsFile :
      (t : Txn L) (id : ℕ) (inode : Inode) (len : ℕ) (xs : List FileExtent)
      → IsFile L (store_extents L t id inode len xs) id (record inode { length = len }) xs
  unfolding store_extents put_inode
  store_extents-IsFile t id inode len xs = record { stored = L.inodes.get-put_self t.inodes id _ }

  store_extents-OthersSame :
      (t : Txn L) (id : ℕ) (inode : Inode) (len : ℕ) (xs : List FileExtent)
      → OthersSame L id t (store_extents L t id inode len xs)
  unfolding store_extents put_inode
  store_extents-OthersSame t id inode len xs k = elim (ℕ_discrete id k) [
    | yes e ↦ inl e
    | no ne ↦ inr (L.inodes.get-put_ne t.inodes id k _ ne)
  ]

  -- A round that reserves `x` for a file without extents makes it the file's extent.
  expand_round-first :
      (t t1 : Txn L) (id : ℕ) (inode : Inode) (x : FileExtent) (end_blocks end_bytes : ℕ)
      → IsFile L t1 id inode []
      → end_blocks < 2 ^ 64
      → reserve_extent L t end_blocks none true ≡ ok (t1, some x)
      → x.length ≡ end_blocks
      → 0 < end_blocks
      → end_blocks * bs < 2 ^ 64
      → end_bytes ≤ end_blocks * bs
      → expand_round L bs t id no_extent 0 end_blocks end_bytes
        ≡ ok (store_extents L t1 id inode end_bytes (x ∷ []), x, end_blocks)
  unfolding expand_round assign_blocks add_extent_to_file
  expand_round-first t t1 id inode x end_blocks end_bytes f small got len pos wrap hold =
      let whole : sub64 end_blocks 0 ≡ end_blocks = omega arith in
      let current : add64 0 x.length ≡ end_blocks = omega arith in
      let not_zero : (x.length == 0) ≡ false = ground arith in
      let cap : capped bs end_bytes end_blocks ≡ end_bytes = ground arith in
      rw (whole, got) (rw not_zero (rw current (rw (load_file-IsFile L f, cap))))

module _ (L : Databases) (bs blocks : ℕ) (t : Txn L) (id : ℕ) (inode : Inode) (size : ℕ)
    (n : NodeId) (o : ℕ) (pos : 0 < bs) (some_bytes : 0 < size)
    (no_wrap : blocks_of bs size * bs < 2 ^ 64) (small : blocks_of bs size + blocks < 2 ^ 64)
    (valid : IsValid L blocks t) (f : IsFile L t id inode [])
    (top : L.heap.last t.heap ≡ some (n, o)) (room : blocks_of bs size ≤ n.k) where
  abbrev wanted : ℕ
  wanted = blocks_of bs size

  -- What the expansion leaves.
  abbrev Grown : Type 0
  Grown =
      (t' : Txn L) × (expand_inode L bs t id [] size ≡ ok t')
      × IsValid L blocks t'
      × IsFile L t' id (record inode { length = size })
          (record { offset = o; length = blocks_of bs size } ∷ [])
      × OthersSame L id t t'

  from_reserved :
      (t1 : Txn L) (r : Option FileExtent)
      → reserve_extent L t wanted none true ≡ ok (t1, r)
      → IsValid L blocks t1
      → Allocated L t wanted true t1 r
      → t1.inodes ≡ t.inodes
      → Grown
  unfolding expand_inode total_blocks last_extent
  from_reserved t1 none e v al same = cc (top, al)
  from_reserved t1 (some x) e v (m, top', was, len, now) same =
      let at : x.offset ≡ o = cc (top, top') in
      let node : m ≡ n = cc (top, top') in
      let all : x.length ≡ wanted = ground (arith, len, node) in
      let f1 : IsFile L t1 id inode [] = record {
        stored = ap (λ d. L.inodes.get d id) same ∙ f.stored;
      } in
      let whole : x ≡ record { offset = o; length = wanted } = ground (arith, at, all) in
      let first =
        expand_round-first L bs t t1 id inode x wanted size f1 (omega arith) e all
          (blocks_of_pos bs size pos some_bytes) no_wrap (bytes-le-blocks bs size pos) in
      let grown = store_extents L t1 id inode size (x ∷ []) in
      (
        grown,
        expand_loop-once L bs wanted t grown id no_extent x 0 wanted size
            (blocks_of_pos bs size pos some_bytes) (blocks_of_pos bs size pos some_bytes) first,
        store_extents-IsValid L bs blocks t1 id inode size (x ∷ []) v,
        subst (λ y. IsFile L grown id (record inode { length = size }) (y ∷ [])) whole
            (store_extents-IsFile L bs t1 id inode size (x ∷ [])),
        subst (λ d. OthersSame L id (record t { inodes = d }) grown) same
            (store_extents-OthersSame L bs t1 id inode size (x ∷ [])),
      )

  -- In a valid allocator, a file without extents that is expanded to `size` bytes, above 0 and with
  -- no number wrapping, where the extent at the end of the heap has enough blocks, gets one extent
  -- there of just the blocks that the bytes need, its length is `size`, the allocator stays valid,
  -- and the other inodes stay.
  pub expand_inode-fresh : Grown
  expand_inode-fresh =
      let (t1, r, e, v, al, same) =
        reserve_extent-Allocated L blocks t wanted true small (blocks_of_pos bs size pos some_bytes)
          valid in
      from_reserved t1 r e v al same
