-- ===== src/Tests/Operators.antt =====
-- A directory with the operator `x`, whose program has five bytes.
use metal_fs.Base.{ℕ, ◌≡◌, refl, true, List, [], ◌∷◌, arith}
use metal_fs.Fs.Directory.Listing.{eq_bytes}
use metal_fs.Driver.Combined.{Text}
use metal_fs.Driver.Operators.{is_operator, program_stat}
use metal_fs.Driver.Operators.Reads.{IsReadAt, fuse_read-IsReadAt}

abbrev five_bytes : List ℕ
five_bytes = 127 ∷ 69 ∷ 76 ∷ 70 ∷ 2 ∷ []

abbrev one_operator : List Text
one_operator = (120 ∷ []) ∷ []

x_listed : is_operator one_operator (120 ∷ []) ≡ true
unfolding is_operator eq_bytes
x_listed = refl

fuse_read-IsReadAt_example : IsReadAt five_bytes one_operator 120 [] 4096 2 (program_stat 0)
fuse_read-IsReadAt_example =
    fuse_read-IsReadAt five_bytes one_operator 120 [] 4096 2 (program_stat 0) x_listed (omega arith)
      (omega arith) (omega arith)
