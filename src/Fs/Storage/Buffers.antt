-- ===== src/Fs/Storage/Buffers.antt =====
-- What copies of pieces leave in the storage and in the buffer.
use metal_fs.Base.{
  ℕ, ◌+◌, ◌-◌, ◌*◌, ◌≤◌, ◌<◌, ◌≡◌, refl, ap, ◌∙◌, subst, ◌⊎◌, inl, inr, true, false, ◌&&◌, List, [],
  ◌∷◌, arith, ltb, leb, ◌==◌, Bool-cases,
}
use metal_fs.Fs.Types.{FileExtent}
use metal_fs.Fs.Storage.{storage_block, Bytes, memcpy}
use metal_fs.Fs.Storage.Copies.{bytes_in, Piece, pieces, copies}

-- No piece covers the address.
unfoldable pub Avoids : ℕ → List Piece → Type 0
Avoids a [] = Unit {0}
Avoids a (p ∷ ps) = ((a < p.place) ⊎ (p.place + p.count ≤ a)) × Avoids a ps

-- No byte of a piece is covered by a later one.
unfoldable pub AreDisjoint : List Piece → Type 0
AreDisjoint [] = Unit {0}
AreDisjoint (p ∷ ps) = ((j : ℕ) → j < p.count → Avoids (p.place + j) ps) × AreDisjoint ps

pub total_count : List Piece → ℕ
total_count [] = 0
total_count (p ∷ ps) = p.count + total_count ps

-- The storage holds in the pieces what stands in the buffer from `index` on.
unfoldable pub IsCopied : (index : ℕ) → List Piece → (storage buffer : Bytes) → Type 0
IsCopied index [] storage buffer = Unit {0}
IsCopied index (p ∷ ps) storage buffer =
    ((j : ℕ) → j < p.count → storage (p.place + j) ≡ buffer (index + j))
    × IsCopied (index + p.count) ps storage buffer

abbrev pub writing : Bytes → (index place count : ℕ) → Bytes → Bytes
writing buffer index place count to = memcpy place to index buffer count

abbrev pub reading : Bytes → (index place count : ℕ) → Bytes → Bytes
reading storage index place count to = memcpy index to place storage count

memcpy_inside :
    (target : ℕ) (to : Bytes) (source : ℕ) (from : Bytes) (count j : ℕ)
    → j < count
    → memcpy target to source from count (target + j) ≡ from (source + j)
memcpy_inside target to source from count j lt =
    let inside : (leb target (target + j) && ltb (target + j) (target + count)) ≡ true =
      ground arith in
    let same : source + (target + j - target) ≡ source + j = omega arith in rw inside (ap from same)

memcpy_outside :
    (target : ℕ) (to : Bytes) (source : ℕ) (from : Bytes) (count i : ℕ)
    → (i < target) ⊎ (target + count ≤ i)
    → memcpy target to source from count i ≡ to i
memcpy_outside target to source from count i out =
    let outside : (leb target i && ltb i (target + count)) ≡ false = ground arith in rw outside refl

writes-Avoids :
    (buffer : Bytes) (index : ℕ) (ps : List Piece) (storage : Bytes) (a : ℕ)
    → Avoids a ps
    → copies (writing buffer) index ps storage a ≡ storage a
unfolding copies Avoids
writes-Avoids buffer index [] storage a h = refl
writes-Avoids buffer index (p ∷ ps) storage a (out, h) =
    writes-Avoids buffer (index + p.count) ps (memcpy p.place storage index buffer p.count) a h
    ∙ memcpy_outside p.place storage index buffer p.count a out

pub writes-IsCopied :
    (buffer : Bytes) (index : ℕ) (ps : List Piece) (storage : Bytes)
    → AreDisjoint ps
    → IsCopied index ps (copies (writing buffer) index ps storage) buffer
unfolding copies AreDisjoint IsCopied
writes-IsCopied buffer index [] storage h = tt
writes-IsCopied buffer index (p ∷ ps) storage (apart, h) = (
  λ j lt.
      writes-Avoids buffer (index + p.count) ps (memcpy p.place storage index buffer p.count)
        (p.place + j) (apart j lt)
      ∙ memcpy_inside p.place storage index buffer p.count j lt,
  writes-IsCopied buffer (index + p.count) ps (memcpy p.place storage index buffer p.count) h,
)

reads_before :
    (storage : Bytes) (index : ℕ) (ps : List Piece) (out : Bytes) (i : ℕ)
    → i < index
    → copies (reading storage) index ps out i ≡ out i
unfolding copies
reads_before storage index [] out i h = refl
reads_before storage index (p ∷ ps) out i h =
    reads_before storage (index + p.count) ps (memcpy index out p.place storage p.count) i
      (omega arith)
    ∙ memcpy_outside index out p.place storage p.count i (inl h)

pub reads-IsCopied :
    (storage buffer : Bytes) (index : ℕ) (ps : List Piece) (out : Bytes) (j : ℕ)
    → IsCopied index ps storage buffer
    → j < total_count ps
    → copies (reading storage) index ps out (index + j) ≡ buffer (index + j)
unfolding copies IsCopied total_count
reads-IsCopied storage buffer index [] out j h lt = absurd (omega arith)
reads-IsCopied storage buffer index (p ∷ ps) out j (here, h) lt =
    elim (Bool-cases (ltb j p.count)) [
      | inl b ↦
          let first : j < p.count = ground arith in
          reads_before storage (index + p.count) ps (memcpy index out p.place storage p.count)
            (index + j) (omega (arith, first))
          ∙ memcpy_inside index out p.place storage p.count j first
          ∙ here j first
      | inr b ↦
          let at : index + p.count + (j - p.count) ≡ index + j = ground (arith, b) in
          subst
            (λ k.
              copies (reading storage) (index + p.count) ps
                (memcpy index out p.place storage p.count) k
              ≡ buffer k)
            at
            (reads-IsCopied storage buffer (index + p.count) ps
              (memcpy index out p.place storage p.count) (j - p.count) h (ground (arith, b, lt)))
    ]

pub total_count-pieces :
    (xs : List FileExtent) (position rest : ℕ)
    → position + rest ≤ bytes_in xs
    → total_count (pieces xs position rest) ≡ rest
unfolding total_count pieces
total_count-pieces [] position rest h = omega (arith, h)
total_count-pieces (x ∷ xs) position rest h =
    elim (Bool-cases (leb (x.length * storage_block) position)) [
      | inl b ↦
          rw b (
            total_count-pieces xs (position - x.length * storage_block) rest (ground (arith, b, h)))
      | inr b ↦ elim (Bool-cases (rest == 0)) [
        | inl z ↦ rw (b, z) (ground arith)
        | inr z ↦ elim (Bool-cases (ltb rest (x.length * storage_block - position))) [
          | inl c ↦
              rw (b, z) (rw c (omega (arith, total_count-pieces xs 0 (rest - rest) (omega arith))))
          | inr c ↦
              let fits : 0 + (rest - (x.length * storage_block - position)) ≤ bytes_in xs =
                ground (arith, b, c, h) in
              let later =
                total_count-pieces xs 0 (rest - (x.length * storage_block - position)) fits in
              rw (b, z) (rw c (ground (arith, later, b, c)))
        ]
      ]
    ]
