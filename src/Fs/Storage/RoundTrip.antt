-- ===== src/Fs/Storage/RoundTrip.antt =====
-- What a read of the storage gives after a write.
use metal_fs.Base.{
  ℕ, ◌+◌, ◌-◌, ◌*◌, ◌^◌, ◌≤◌, ◌<◌, ◌≡◌, subst, ◌⊎◌, inl, inr, true, some, List, [], ◌∷◌, arith, ltb,
  leb, ◌==◌, if◌then◌else◌, Bool-cases, length,
}
use metal_fs.Fs.Types.{FileExtent}
use metal_fs.Fs.Storage.{num_blocks, storage_block, Bytes, in_storage, storage_write, storage_read}
use metal_fs.Fs.Storage.Copies.{bytes_in, pieces, copies, AreInside, Reaches}
use metal_fs.Fs.Storage.Walk.{walk-copies}
use metal_fs.Fs.Storage.Buffers.{
  Avoids, AreDisjoint, total_count, IsCopied, writing, reading, writes-IsCopied, reads-IsCopied,
  total_count-pieces,
}

-- The extents share no block with an extent.
unfoldable pub ShareNone : FileExtent → List FileExtent → Type 0
ShareNone x [] = Unit {0}
ShareNone x (y ∷ ys) =
    ((x.offset + x.length ≤ y.offset) ⊎ (y.offset + y.length ≤ x.offset)) × ShareNone x ys

-- No two of the extents share a block.
unfoldable pub AreApart : List FileExtent → Type 0
AreApart [] = Unit {0}
AreApart (x ∷ xs) = ShareNone x xs × AreApart xs

-- An address in an extent is in no piece of extents that share no block with it.
pieces-Avoids :
    (x : FileExtent) (a : ℕ) (xs : List FileExtent) (position rest : ℕ)
    → x.offset * storage_block ≤ a
    → a < (x.offset + x.length) * storage_block
    → ShareNone x xs
    → Avoids a (pieces xs position rest)
unfolding Avoids pieces ShareNone
pieces-Avoids x a [] position rest low high h = tt
pieces-Avoids x a (y ∷ ys) position rest low high (apart, h) =
    elim (Bool-cases (leb (y.length * storage_block) position)) [
      | inl b ↦ rw b (pieces-Avoids x a ys (position - y.length * storage_block) rest low high h)
      | inr b ↦ elim (Bool-cases (rest == 0)) [
        | inl z ↦ rw (b, z) tt
        | inr z ↦
            let count =
              if ltb rest (y.length * storage_block - position)
              then rest
              else y.length * storage_block - position in
            let most : position + count ≤ y.length * storage_block = ground (arith, b) in
            rw (b, z)
              (
                elim apart [
                  | inl before ↦ inl (omega (arith, before, high))
                  | inr behind ↦ inr (omega (arith, behind, low, most))
                ],
                pieces-Avoids x a ys 0 (rest - count) low high h,
              )
      ]
    ]

pieces-AreDisjoint :
    (xs : List FileExtent) (position rest : ℕ) → AreApart xs → AreDisjoint (pieces xs position rest)
unfolding AreDisjoint pieces AreApart
pieces-AreDisjoint [] position rest h = tt
pieces-AreDisjoint (x ∷ xs) position rest (share, h) =
    elim (Bool-cases (leb (x.length * storage_block) position)) [
      | inl b ↦ rw b (pieces-AreDisjoint xs (position - x.length * storage_block) rest h)
      | inr b ↦ elim (Bool-cases (rest == 0)) [
        | inl z ↦ rw (b, z) tt
        | inr z ↦
            let count =
              if ltb rest (x.length * storage_block - position)
              then rest
              else x.length * storage_block - position in
            let most : position + count ≤ x.length * storage_block = ground (arith, b) in
            rw (b, z)
              (
                λ j lt.
                    pieces-Avoids x (x.offset * storage_block + position + j) xs 0 (rest - count)
                      (omega arith) (omega (arith, lt, most)) share,
                pieces-AreDisjoint xs 0 (rest - count) h,
              )
      ]
    ]

-- For extents in the storage of which no two share a block, and a range within them and within the
-- storage, `mtl_storage_write` and a `mtl_storage_read` after it return (no assertion fails), and the
-- read gives every byte of the range as it was written.
pub storage_read-storage_write :
    (xs : List FileExtent) (storage : Bytes) (offset len : ℕ) (buffer out : Bytes)
    → AreInside xs
    → AreApart xs
    → bytes_in xs < 2 ^ 64
    → offset + len ≤ bytes_in xs
    → offset + len < num_blocks * storage_block
    → (storage' : Bytes) × (storage_write xs storage offset len buffer ≡ some storage')
      × (out' : Bytes) × (storage_read xs storage' offset len out ≡ some out')
      × ((i : ℕ) → i < len → out' i ≡ buffer i)
unfolding storage_write storage_read
storage_read-storage_write xs storage offset len buffer out inside apart small fits room =
    let allowed : in_storage offset len ≡ true = ground (arith, room) in
    let ps = pieces xs (offset - 0) len in
    let index : offset - offset ≡ 0 = omega arith in
    let reach : Reaches (writing buffer) xs (length xs) 0 offset offset len =
      (omega arith, omega arith, omega arith, omega (arith, fits), omega (arith, small)) in
    let storage' = copies (writing buffer) (offset - offset) ps storage in
    let copied : IsCopied (offset - offset) ps storage' buffer =
      writes-IsCopied buffer (offset - offset) ps storage
        (pieces-AreDisjoint xs (offset - 0) len apart) in
    let whole : total_count ps ≡ len =
      total_count-pieces xs (offset - 0) len (omega (arith, fits)) in
    (
      storage',
      rw allowed
          (walk-copies (writing buffer) xs (length xs) 0 offset offset len storage inside reach),
      copies (reading storage') (offset - offset) ps out,
      rw allowed
          (walk-copies (reading storage') xs (length xs) 0 offset offset len out inside reach),
      λ i lt.
          let at : offset - offset + i ≡ i = omega arith in
          subst (λ k. copies (reading storage') (offset - offset) ps out k ≡ buffer k) at
            (reads-IsCopied storage' buffer (offset - offset) ps out i copied
              (omega (arith, whole, lt))),
    )
