-- ===== src/Tests/Allocator.antt =====
-- The allocator on a storage of 16 blocks.
use metal_fs.Base.{ℕ, ◌+◌, ◌≡◌, refl, true, Option, none, some, [], ◌∷◌, arith}
use metal_fs.Fs.Extent.{delete_extent, initialize_extents, reserve_extent, free_extent}
use metal_fs.Fs.Extent.Start.{initialize_extents-IsValid}
use metal_fs.Fs.Types.{NodeId, invalid_node, ExtentStatus, free, committed, Extent, FileExtent}
use metal_fs.Fs.Space.{node, free_at}
use metal_fs.Fs.Extent.Effect.{popped}
use metal_fs.Fs.Extent.Free.{behind, free_extent-joined}
use metal_fs.Fs.Extent.Misplaced.{free_extent_pile_up}
use metal_fs.Fs.Tiling.{update, IsTiling}
use metal_fs.Fs.View.{layout, IsValid}
use metal_fs.Fs.State.{Txn, ok}
use metal_fs.Lmdb.Assoc.{get, get-empty, del, keep_first, next}
use metal_fs.Tests.{number, node_key, memory, fresh}
use metal_fs.Fs.Extent.Grow.{reserve_extent_gap, reserve_extent-extended}
use metal_fs.Fs.Extent.Reserve.{Allocated, reserve_extent-Allocated}
use metal_fs.Lmdb.Order.{memcmp_lt, le_bytes}

abbrev formatted : Txn memory
formatted = initialize_extents memory fresh 16

formatted-IsValid : IsValid memory 16 formatted
formatted-IsValid =
    (initialize_extents-IsValid memory fresh 16 (λ o. get-empty number o)
      (λ n. get-empty node_key n) (omega arith)).0

-- Five blocks of a formatted storage.
reserve_extent-Allocated_example :
    (t' : Txn memory) × (r : Option FileExtent) × (reserve_extent memory formatted 5 none true
      ≡ ok (t', r))
    × IsValid memory 16 t'
    × Allocated memory formatted 5 true t' r
    × (t'.inodes ≡ formatted.inodes)
reserve_extent-Allocated_example =
    reserve_extent-Allocated memory 16 formatted 5 true (omega arith) (omega arith)
      formatted-IsValid

abbrev blocks_at : ℕ → ExtentStatus → Extent
blocks_at len status = record { length = len; status = status; pq_node = invalid_node }

-- A used extent in front of two free ones.
abbrev front : Txn memory
front = record {
  extents = (0, blocks_at 4 committed) ∷ (4, free_at 4 4) ∷ (8, free_at 8 8) ∷ [];
  heap = (node 4 4, 4) ∷ (node 8 8, 8) ∷ [];
  inodes = [];
  next_inode = none;
}

front-IsValid : IsValid memory 16 front
unfolding get
front-IsValid = record {
  tiling = record {
    start = refl;
    inside = λ o e h. ground arith;
    follow = λ o e h. ground arith;
    apart = λ o e p f h k lt. ground arith;
  };
  queued = λ o e h k. ground arith;
  listed = λ n o h. ground arith;
}

front_next : behind memory front 0 ≡ some (4, free_at 4 4)
unfolding next keep_first memcmp_lt le_bytes
front_next = refl

free_extent_pile_up_example :
    (t' : Txn memory) × (x : NodeId) × (free_extent memory front 0 ≡ ok t')
    × (layout memory t' 8 ≡ some (record { length = 4 + 4 + 8; status = free; pq_node = x }))
    × (layout memory t' 0 ≡ none)
    × (layout memory t' 4 ≡ none)
    × (¬ IsTiling 16 (layout memory t'))
unfolding get del next keep_first memcmp_lt le_bytes delete_extent popped
free_extent_pile_up_example =
    free_extent_pile_up memory 16 front 0 (blocks_at 4 committed) 4 (free_at 4 4) (omega arith)
      front-IsValid refl refl refl 8 (free_at 8 8) refl refl (omega arith) (omega arith)

-- A used extent in front of a free one.
abbrev two : Txn memory
two = record {
  extents = (0, blocks_at 4 committed) ∷ (4, free_at 12 4) ∷ [];
  heap = (node 12 4, 4) ∷ [];
  inodes = [];
  next_inode = none;
}

two-IsValid : IsValid memory 16 two
unfolding get
two-IsValid = record {
  tiling = record {
    start = refl;
    inside = λ o e h. ground arith;
    follow = λ o e h. ground arith;
    apart = λ o e p f h k lt. ground arith;
  };
  queued = λ o e h k. ground arith;
  listed = λ n o h. ground arith;
}

free_extent-joined_example :
    (t' : Txn memory) × (free_extent memory two 0 ≡ ok t')
    × IsValid memory 16 t'
    × (layout memory t' ≡ update (update (layout memory two) 4 none) 0 (some (free_at 16 0)))
unfolding get del next keep_first memcmp_lt le_bytes delete_extent popped
free_extent-joined_example =
    free_extent-joined memory 16 two 0 (blocks_at 4 committed) (omega arith) two-IsValid refl refl
      (free_at 12 4) refl refl refl

-- A storage of 300 blocks, whose entry behind 0 in the order of the keys is 256.
abbrev wide : Txn memory
wide = record {
  extents = (0, blocks_at 1 committed) ∷ (1, blocks_at 255 committed) ∷ (256, free_at 44 256) ∷ [];
  heap = (node 44 256, 256) ∷ [];
  inodes = [];
  next_inode = none;
}

wide-IsValid : IsValid memory 300 wide
unfolding get
wide-IsValid = record {
  tiling = record {
    start = refl;
    inside = λ o e h. ground arith;
    follow = λ o e h. ground arith;
    apart = λ o e p f h k lt. ground arith;
  };
  queued = λ o e h k. ground arith;
  listed = λ n o h. ground arith;
}

initialize_extents-IsValid_example :
    IsValid memory 16 formatted × (layout memory formatted 0 ≡ some (free_at 16 0))
initialize_extents-IsValid_example =
    initialize_extents-IsValid memory fresh 16 (λ o. get-empty number o) (λ n. get-empty node_key n)
      (omega arith)

-- The first extent takes up the whole free one behind it.
reserve_extent_gap_example :
    (t' : Txn memory) × (reserve_extent memory two 20
        (some (record { offset = 0; length = 4 }))
        true
      ≡ ok (t', some (record { offset = 0; length = 12 })))
    × (layout memory t' 0 ≡ some (blocks_at 4 committed))
    × (layout memory t' (0 + 4) ≡ none)
    × (¬ IsTiling 16 (layout memory t'))
unfolding get
reserve_extent_gap_example =
    reserve_extent_gap memory 16 two 0 (blocks_at 4 committed) (free_at 12 4) 20 true (omega arith)
      two-IsValid refl refl refl (omega arith)

-- Three more blocks for the first extent.
reserve_extent-extended_example :
    (t' : Txn memory) × (reserve_extent memory two 3 (some (record { offset = 0; length = 4 })) true
      ≡ ok (t', some (record { offset = 0; length = 3 })))
    × IsValid memory 16 t'
    × (layout memory t' 0 ≡ some (blocks_at 7 committed))
unfolding get
reserve_extent-extended_example =
    reserve_extent-extended memory 16 two 0 (blocks_at 4 committed) (free_at 12 4) 3 true
      (omega arith) two-IsValid refl refl refl (omega arith) refl
