-- ===== src/Tests/Storage.antt =====
-- The in-memory storage at a range over two extents.
use metal_fs.Base.{ℕ, ◌%◌, ◌<◌, ◌≡◌, inr, some, List, [], ◌∷◌, arith}
use metal_fs.Fs.Types.{FileExtent}
use metal_fs.Fs.Storage.{Bytes, storage_write, storage_read}
use metal_fs.Fs.Storage.Copies.{AreInside}
use metal_fs.Fs.Storage.RoundTrip.{ShareNone, AreApart, storage_read-storage_write}

abbrev apart : List FileExtent
apart = record { offset = 7; length = 1 } ∷ record { offset = 3; length = 2 } ∷ []

apart-AreApart : AreApart apart
unfolding AreApart ShareNone
apart-AreApart = ((inr (omega arith), tt), (tt, tt))

apart-AreInside : AreInside apart
apart-AreInside = (omega arith, (omega arith, tt))

abbrev nothing : Bytes
nothing i = 0

abbrev counting : Bytes
counting i = i % 256

storage_read-storage_write_example :
    (storage' : Bytes) × (storage_write apart nothing 4000 5000 counting ≡ some storage')
    × (out' : Bytes) × (storage_read apart storage' 4000 5000 nothing ≡ some out')
    × ((i : ℕ) → i < 5000 → out' i ≡ counting i)
storage_read-storage_write_example =
    storage_read-storage_write apart nothing 4000 5000 counting nothing apart-AreInside
      apart-AreApart (omega arith) (omega arith) (omega arith)
