-- ===== src/Fs/Storage/Copies.antt =====
-- What the walk over the extents copies.
use metal_fs.Base.{
  ℕ, zero, suc, ◌+◌, ◌-◌, ◌*◌, ◌^◌, ◌≤◌, ◌<◌, ◌≡◌, refl, inl, inr, true, false, some, List, [], ◌∷◌,
  ltb, leb, ◌==◌, if◌then◌else◌, Bool-cases, length,
}
use metal_fs.Fs.Types.{add64, sub64, mul64, FileExtent}
use metal_fs.Fs.Storage.{num_blocks, storage_block, find_extent, walk}

-- The number of bytes of extents.
abbrev pub bytes_in : List FileExtent → ℕ
bytes_in [] = 0
bytes_in (x ∷ xs) = x.length * storage_block + bytes_in xs

-- A part of the range: its place in the storage, and its number of bytes.
pub record Piece : Type 0 where
  pub place : ℕ
  pub count : ℕ

-- The parts of the `rest` bytes from `position` of the extents on.
unfoldable pub pieces : List FileExtent → (position rest : ℕ) → List Piece
pieces [] position rest = []
pieces (x ∷ xs) position rest =
    let room = x.length * storage_block - position in
    let count = if ltb rest room then rest else room in
    let later = pieces xs (position - x.length * storage_block) rest in
    let next = pieces xs 0 (rest - count) in
    if leb (x.length * storage_block) position
    then later
    else if rest == 0
    then []
    else record { place = x.offset * storage_block + position; count = count } ∷ next

-- The copies of pieces, the first from `index` of the buffer on.
unfoldable pub copies :
    {S : Type 0} → ((index place count : ℕ) → S → S) → (index : ℕ) → List Piece → S → S
copies copy index [] s = s
copies copy index (p ∷ ps) s = copies copy (index + p.count) ps (copy index p.place p.count s)

-- The extents lie in the storage, whose size is far from the end of the numbers.
abbrev pub AreInside : List FileExtent → Type 0
AreInside [] = Unit {0}
AreInside (x ∷ xs) = (x.offset + x.length ≤ num_blocks) × AreInside xs

module _ {S : Type 0} (copy : (index place count : ℕ) → S → S) where
  pub walk_end :
      (rounds : ℕ) (xs : List FileExtent) (start offset current : ℕ) (s : S)
      → walk copy rounds xs start offset current 0 s ≡ some s
  unfolding walk
  walk_end zero xs start offset current s = refl
  walk_end (suc n) xs start offset current s = refl

  pub walk_skip :
      (rounds : ℕ) (x : FileExtent) (xs : List FileExtent) (start offset current rest : ℕ) (s : S)
      → leb (add64 start (mul64 x.length storage_block)) current ≡ true
      → walk copy rounds (x ∷ xs) start offset current rest s
        ≡ walk copy rounds xs (add64 start (mul64 x.length storage_block)) offset current rest s
  unfolding walk find_extent
  walk_skip zero x xs start offset current rest s e = refl
  walk_skip (suc n) x xs start offset current rest s e = rw e refl

  pub walk_round :
      (n : ℕ) (x : FileExtent) (xs : List FileExtent)
      (start offset current rest position count index place : ℕ) (s : S)
      → leb (add64 start (mul64 x.length storage_block)) current ≡ false
      → (rest == 0) ≡ false
      → sub64 current start ≡ position
      → (if ltb rest (sub64 (mul64 x.length storage_block) position)
          then rest
          else sub64 (mul64 x.length storage_block) position)
        ≡ count
      → sub64 current offset ≡ index
      → add64 (mul64 x.offset storage_block) position ≡ place
      → walk copy (suc n) (x ∷ xs) start offset current rest s
        ≡ walk copy n
            (x ∷ xs)
            start
            offset
            (add64 current count)
            (sub64 rest count)
            (copy index place count s)
  unfolding walk find_extent
  walk_round n x xs start offset current rest position count index place s e r p c i a =
      rw r (rw e (rw p (rw (c, i, a) refl)))

  pub copies_none :
      (xs : List FileExtent) (position index : ℕ) (s : S)
      → copies copy index (pieces xs position 0) s ≡ s
  unfolding copies pieces
  copies_none [] position index s = refl
  copies_none (x ∷ xs) position index s =
      elim (Bool-cases (leb (x.length * storage_block) position)) [
        | inl b ↦ rw b (copies_none xs (position - x.length * storage_block) index s)
        | inr b ↦ rw b refl
      ]

  -- What is needed of the extents, the range in them, and the rounds.
  abbrev pub Reaches : List FileExtent → (rounds start offset current rest : ℕ) → Type 0
  Reaches xs rounds start offset current rest =
      (length xs ≤ rounds)
      × (start ≤ current)
      × (offset ≤ current)
      × (current - start + rest ≤ bytes_in xs)
      × (start + bytes_in xs < 2 ^ 64)

  pub pieces_skip :
      (x : FileExtent) (xs : List FileExtent) (position rest : ℕ)
      → leb (x.length * storage_block) position ≡ true
      → pieces (x ∷ xs) position rest ≡ pieces xs (position - x.length * storage_block) rest
  unfolding pieces
  pieces_skip x xs position rest b = rw b refl

  pub pieces_here :
      (x : FileExtent) (xs : List FileExtent) (position rest count : ℕ)
      → leb (x.length * storage_block) position ≡ false
      → (rest == 0) ≡ false
      → (if ltb rest (x.length * storage_block - position)
          then rest
          else x.length * storage_block - position)
        ≡ count
      → pieces (x ∷ xs) position rest
        ≡ record { place = x.offset * storage_block + position; count = count }
          ∷ pieces xs 0 (rest - count)
  unfolding pieces
  pieces_here x xs position rest count b r c = rw (b, r) (rw c refl)
