-- ===== src/Tests/Mounts.antt =====
-- Two handlers, under `/f` and `/fg`.
use metal_fs.Base.{ℕ, ◌≡◌, refl, some, [], ◌∷◌, ◌++◌}
use metal_fs.Lmdb.Order.{memcmp_lt}
use metal_fs.Driver.Combined.{Text, starts_with, Handlers, resolve_handler, fuse_rename}
use metal_fs.Driver.Combined.Dispatch.{
  Below, IsSorted, find, IsShortest, resolve_handler-IsShortest, fuse_rename-split,
}

abbrev mounts : Handlers ℕ
mounts = (47 ∷ 102 ∷ [], 1) ∷ (47 ∷ 102 ∷ 103 ∷ [], 2) ∷ []

mounts-IsSorted : IsSorted mounts
unfolding IsSorted Below memcmp_lt
mounts-IsSorted = ((refl, tt), (tt, tt))

-- `/fg/x`
abbrev path_fg : Text
path_fg = 47 ∷ 102 ∷ 103 ∷ 47 ∷ 120 ∷ []

abbrev rest_fg : Text
rest_fg = 103 ∷ 47 ∷ 120 ∷ []

resolve_handler-IsShortest_example : IsShortest mounts path_fg (resolve_handler mounts path_fg)
resolve_handler-IsShortest_example = resolve_handler-IsShortest mounts path_fg mounts-IsSorted

fuse_rename-split_example :
    (p : Text) × (find mounts p ≡ some 1) × (path_fg ≡ p ++ rest_fg) × (path_fg ≡ p ++ rest_fg)
unfolding fuse_rename resolve_handler starts_with
fuse_rename-split_example =
    fuse_rename-split mounts path_fg path_fg rest_fg rest_fg 1 mounts-IsSorted refl
