-- ===== src/Fs/Extent/Start.antt =====
-- `mtl_initialize_extents` on empty databases.
use metal_fs.Base.{ℕ, ◌<◌, ◌≡◌, refl, none, some, arith}
use metal_fs.Fs.Types.{NodeId}
use metal_fs.Fs.State.{Databases, Txn}
use metal_fs.Fs.Tiling.{Layout, update}
use metal_fs.Fs.Space.{Queue, enqueue, node, free_at, IsConsistent}
use metal_fs.Fs.View.{layout, queue, IsValid}
use metal_fs.Fs.Extent.{load_extent, insert_free, initialize_extents}
use metal_fs.Fs.Extent.Effect.{layout-insert_free, effects}

one_free :
    (blocks : ℕ) (g : Layout) (q : Queue)
    → ((o : ℕ) → g o ≡ none)
    → ((n : NodeId) → q n ≡ none)
    → 0 < blocks
    → IsConsistent blocks
        (update g 0 (some (free_at blocks 0)))
        (enqueue q (node blocks 0) (some 0))
unfolding update enqueue
one_free blocks g q no_extents no_nodes pos = record {
  tiling = record {
    start = refl;
    inside = λ o e h. ground (arith, no_extents o);
    follow = λ o e h. ground (arith, no_extents o);
    apart = λ o e p f h k lt. ground (arith, no_extents o, no_extents p);
  };
  queued = λ o e h k. ground (arith, no_extents o);
  listed = λ n o h. ground (arith, no_nodes n);
}

initialize-insert_free :
    (L : Databases) (t : Txn L) (blocks : ℕ)
    → layout L t 0 ≡ none
    → initialize_extents L t blocks ≡ insert_free L t 0 blocks
unfolding initialize_extents load_extent
initialize-insert_free L t blocks h = rw (h, initialize_extents)

-- On databases without extents and heap nodes, `mtl_initialize_extents` makes a valid allocator,
-- with all the blocks in one free extent.
pub initialize_extents-IsValid :
    (L : Databases) (t : Txn L) (blocks : ℕ)
    → ((o : ℕ) → layout L t o ≡ none)
    → ((n : NodeId) → queue L t n ≡ none)
    → 0 < blocks
    → IsValid L blocks (initialize_extents L t blocks)
      × (layout L (initialize_extents L t blocks) 0 ≡ some (free_at blocks 0))
initialize_extents-IsValid L t blocks no_extents no_nodes pos =
    rw (initialize-insert_free L t blocks (no_extents 0)) (
      simp effects (one_free blocks (layout L t) (queue L t) no_extents no_nodes pos),
      rw (layout-insert_free L t 0 blocks) (unfold update in refl),
    )
