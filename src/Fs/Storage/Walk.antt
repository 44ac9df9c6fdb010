-- ===== src/Fs/Storage/Walk.antt =====
-- The walk over the extents copies the pieces of the range.
use metal_fs.Base.{
  ℕ, zero, suc, ◌+◌, ◌-◌, ◌*◌, ◌^◌, ◌≤◌, ◌<◌, ◌≡◌, refl, sym, ap, ◌∙◌, subst, inl, inr, true, false,
  some, List, [], ◌∷◌, arith, ltb, leb, ◌==◌, if◌then◌else◌, Bool-cases,
}
use metal_fs.Fs.Types.{add64, sub64, mul64, FileExtent}
use metal_fs.Fs.Storage.{num_blocks, storage_block, walk}
use metal_fs.Fs.Storage.Copies.{
  bytes_in, pieces, copies, AreInside, walk_end, walk_skip, walk_round, copies_none, Reaches,
  pieces_skip, pieces_here,
}

module _ {S : Type 0} (copy : (index place count : ℕ) → S → S) where
  -- A round that copies `count` bytes, and then a walk whose result is known.
  round-copies :
      (n : ℕ) (x : FileExtent) (xs : List FileExtent) (start offset current rest count : ℕ) (s : S)
      → x.offset + x.length ≤ num_blocks
      → (start ≤ current) × (offset ≤ current) × (start + x.length * storage_block < 2 ^ 64)
      → leb (x.length * storage_block) (current - start) ≡ false
      → (rest == 0) ≡ false
      → (if ltb rest (x.length * storage_block - (current - start))
          then rest
          else x.length * storage_block - (current - start))
        ≡ count
      → rest < 2 ^ 64
      → walk copy n
          (x ∷ xs)
          start
          offset
          (current + count)
          (rest - count)
          (copy (current - offset) (x.offset * storage_block + (current - start)) count s)
        ≡ some (
            copies copy
              (current - offset + count)
              (pieces xs 0 (rest - count))
              (copy (current - offset) (x.offset * storage_block + (current - start)) count s))
      → walk copy (suc n) (x ∷ xs) start offset current rest s
        ≡ some (copies copy (current - offset) (pieces (x ∷ xs) (current - start) rest) s)
  unfolding copies
  round-copies n x xs start offset current rest count s here (le, after, small) b r c word later =
      let whole : mul64 x.length storage_block ≡ x.length * storage_block = omega (arith, small) in
      let base : mul64 x.offset storage_block ≡ x.offset * storage_block = omega (arith, here) in
      let end : add64 start (mul64 x.length storage_block) ≡ start + x.length * storage_block =
        omega (arith, small, whole) in
      let inside : leb (add64 start (mul64 x.length storage_block)) current ≡ false =
        ground (arith, end, b, le) in
      let position : sub64 current start ≡ current - start = ground (arith, b, le, small) in
      let room : sub64 (mul64 x.length storage_block) (current - start)
          ≡ x.length * storage_block - (current - start) =
        ground (arith, whole, b, small) in
      let index : sub64 current offset ≡ current - offset = ground (arith, b, le, after, small) in
      let place : add64 (mul64 x.offset storage_block) (current - start)
          ≡ x.offset * storage_block + (current - start) =
        ground (arith, base, b, here) in
      let most : count ≤ rest = ground (arith, c) in
      let part : count ≤ x.length * storage_block - (current - start) = ground (arith, c) in
      let further : add64 current count ≡ current + count = ground (arith, b, le, small, part) in
      let left : sub64 rest count ≡ rest - count = omega (arith, most, word) in
      walk_round copy n x xs start offset current rest (current - start) count (current - offset)
        (x.offset * storage_block + (current - start)) s inside r position (rw room c) index place
      ∙ rw (further, left) later
      ∙ ap (λ ps. some (copies copy (current - offset) ps s))
          (sym (pieces_here copy x xs (current - start) rest count b r c))

  -- The part of the range in an extent is the last one.
  last-copies :
      (n : ℕ) (xs ys : List FileExtent) (start offset current rest index : ℕ) (s : S)
      → walk copy n ys start offset current (rest - rest) s
        ≡ some (copies copy index (pieces xs 0 (rest - rest)) s)
  last-copies n xs ys start offset current rest index s =
      let none_left : 0 ≡ rest - rest = omega arith in
      subst
        (λ k. walk copy n ys start offset current k s ≡ some (copies copy index (pieces xs 0 k) s))
        none_left
        (walk_end copy n ys start offset current s ∙ ap some (sym (copies_none copy xs 0 index s)))

  -- The walk goes on at the start of the extents behind.
  next-copies :
      (n : ℕ) (x : FileExtent) (xs : List FileExtent) (start offset current room rest : ℕ) (s : S)
      → (start ≤ current) × (offset ≤ current) × (start + x.length * storage_block < 2 ^ 64)
      → current + room ≡ start + x.length * storage_block
      → walk copy n xs (start + x.length * storage_block) offset (current + room) rest s
        ≡ some (
            copies copy
              (current + room - offset)
              (pieces xs (current + room - (start + x.length * storage_block)) rest)
              s)
      → walk copy n (x ∷ xs) start offset (current + room) rest s
        ≡ some (copies copy (current - offset + room) (pieces xs 0 rest) s)
  next-copies n x xs start offset current room rest s (le, after, small) ends later =
      let whole : mul64 x.length storage_block ≡ x.length * storage_block = omega (arith, small) in
      let end : add64 start (mul64 x.length storage_block) ≡ start + x.length * storage_block =
        omega (arith, small, whole) in
      let skips : leb (add64 start (mul64 x.length storage_block)) (current + room) ≡ true =
        ground (arith, end, ends) in
      let position : current + room - (start + x.length * storage_block) ≡ 0 =
        omega (arith, ends) in
      let index : current + room - offset ≡ current - offset + room = omega (arith, after) in
      walk_skip copy n x xs start offset (current + room) rest s skips
      ∙ ap (λ k. walk copy n xs k offset (current + room) rest s) end
      ∙ later
      ∙ ap
          (λ k. some (
            copies copy k (pieces xs (current + room - (start + x.length * storage_block)) rest) s))
          index
      ∙ ap (λ p. some (copies copy (current - offset + room) (pieces xs p rest) s)) position

  pub walk-copies :
      (xs : List FileExtent) (rounds start offset current rest : ℕ) (s : S)
      → AreInside xs
      → Reaches copy xs rounds start offset current rest
      → walk copy rounds xs start offset current rest s
        ≡ some (copies copy (current - offset) (pieces xs (current - start) rest) s)
  walk-copies [] rounds start offset current rest s inside (few, le, after, fits, small) =
      let done : 0 ≡ rest = omega (arith, fits) in
      subst
        (λ k.
          walk copy rounds [] start offset current k s
          ≡ some (copies copy (current - offset) (pieces [] (current - start) k) s))
        done
        (walk_end copy rounds [] start offset current s
          ∙ ap some (sym (copies_none copy [] (current - start) (current - offset) s)))
  walk-copies (x ∷ xs) zero start offset current rest s inside (few, le, after, fits, small) =
      absurd (omega (arith, few))
  walk-copies (x ∷ xs) (suc n) start offset current rest s (here, inside)
        (few, le, after, fits, small) =
      let size : x.length * storage_block ≤ bytes_in (x ∷ xs) = omega arith in
      let whole : mul64 x.length storage_block ≡ x.length * storage_block = omega (arith, small) in
      let end : add64 start (mul64 x.length storage_block) ≡ start + x.length * storage_block =
        omega (arith, small, whole) in
      elim (Bool-cases (leb (x.length * storage_block) (current - start))) [
        | inl b ↦
            let skips : leb (add64 start (mul64 x.length storage_block)) current ≡ true =
              ground (arith, end, b, le) in
            let position : current - (start + x.length * storage_block)
                ≡ current - start - x.length * storage_block =
              omega arith in
            walk_skip copy (suc n) x xs start offset current rest s skips
            ∙ ap (λ k. walk copy (suc n) xs k offset current rest s) end
            ∙ walk-copies xs (suc n) (start + x.length * storage_block) offset current rest s inside
                (
                  omega (arith, few),
                  ground (arith, b, le),
                  after,
                  ground (arith, b, le, fits),
                  omega (arith, small),
                )
            ∙ ap (λ ps. some (copies copy (current - offset) ps s))
                (ap (λ p. pieces xs p rest) position
                  ∙ sym (pieces_skip copy x xs (current - start) rest b))
        | inr b ↦ elim (Bool-cases (rest == 0)) [
          | inl z ↦
              let done : 0 ≡ rest = ground arith in
              subst
                (λ k.
                  walk copy (suc n) (x ∷ xs) start offset current k s
                  ≡ some (copies copy (current - offset) (pieces (x ∷ xs) (current - start) k) s))
                done
                (walk_end copy (suc n) (x ∷ xs) start offset current s
                  ∙ ap some
                      (sym (copies_none copy (x ∷ xs) (current - start) (current - offset) s)))
          | inr r ↦
              let sizes : (start ≤ current)
                  × (offset ≤ current)
                  × (start + x.length * storage_block < 2 ^ 64) =
                (le, after, omega (arith, small)) in
              let room = x.length * storage_block - (current - start) in
              elim (Bool-cases (ltb rest room)) [
                | inl c ↦
                    round-copies n x xs start offset current rest rest s here sizes b r (rw c refl)
                      (omega (arith, fits, small))
                      (last-copies n xs (x ∷ xs) start offset (current + rest) rest
                        (current - offset + rest) _)
                | inr c ↦
                    let ends : current + room ≡ start + x.length * storage_block =
                      ground (arith, b, le) in
                    round-copies n x xs start offset current rest room s here sizes b r (rw c refl)
                      (omega (arith, fits, small))
                      (next-copies n x xs start offset current room (rest - room) _ sizes ends (
                        walk-copies xs n (start + x.length * storage_block) offset (current + room)
                          (rest - room) _ inside
                          (
                            omega (arith, few),
                            omega (arith, ends),
                            omega (arith, after),
                            ground (arith, ends, fits, b, c, le),
                            omega (arith, small),
                          )))
              ]
        ]
      ]
