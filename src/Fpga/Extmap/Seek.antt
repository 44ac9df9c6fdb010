-- ===== src/Fpga/Extmap/Seek.antt =====
-- `mtl_extmap_seek` and `mtl_extmap_next` against the extents as a list of runs of blocks.
use metal_fs.Base.{
  ℕ, zero, suc, ◌+◌, ◌-◌, ◌^◌, ◌≤◌, ◌<◌, ◌≡◌, refl, sym, ap, ◌∙◌, subst, ◌≢◌, inl, inr, Bool, true,
  false, ◌&&◌, Option, none, some, List, [], ◌∷◌, arith, ltb, leb, if◌then◌else◌, Bool-cases,
  Option-cases, get_or,
}
use metal_fs.Fs.Types.{add64, sub64}
use metal_fs.Fpga.Extmap.{
  Slot, Extmap, no_slot, seek_slots, extmap_seek, extmap_next, load_slots, extmap_load,
}

-- The physical block of a logical block: the extents hold the logical blocks one after the other.
unfoldable pub physical : List Slot → ℕ → Option ℕ
physical [] l = none
physical (s ∷ ss) l = if ltb l s.count then some (add64 s.begin l) else physical ss (l - s.count)

-- Each slot says at which logical block the next starts, if the first starts at `first`.
unfoldable pub IsSummed : ℕ → List Slot → Type 0
IsSummed first [] = Unit {0}
IsSummed first (s ∷ ss) =
    (s.next_lblock ≡ first + s.count) × (first + s.count < 2 ^ 64) × IsSummed (first + s.count) ss

abbrev pub block_of : Option (ℕ × ℕ) → Option ℕ
block_of none = none
block_of (some (i, p)) = some p

seek_slots-physical :
    (ss : List Slot) (i first l : ℕ)
    → IsSummed first ss
    → first ≤ l
    → l < 2 ^ 64
    → block_of (seek_slots ss i first l) ≡ physical ss (l - first)
unfolding seek_slots physical IsSummed
seek_slots-physical [] i first l h le small = refl
seek_slots-physical (s ∷ ss) i first l (next, fits, rest) le small =
    elim (Bool-cases (ltb l s.next_lblock)) [
      | inl e ↦
          let here : leb first l ≡ true = ground arith in
          let inside : ltb (l - first) s.count ≡ true = ground (arith, next) in
          let offset : sub64 l first ≡ l - first = omega arith in rw (here, e) (rw (inside, offset))
      | inr e ↦
          let here : leb first l ≡ true = ground arith in
          let outside : ltb (l - first) s.count ≡ false = ground (arith, next) in
          let less : l - first - s.count ≡ l - (first + s.count) = omega arith in
          rw (here, e)
            (rw (outside, less, next)
              (seek_slots-physical ss (i + 1) (first + s.count) l rest (ground (arith, next))
                small))
    ]

-- A seek finds exactly the logical blocks of the extents, moves to the physical block where it
-- finds one, and otherwise leaves the map as it is.
abbrev pub Sought : Extmap → Option ℕ → Extmap × Bool → Type 0
Sought m none (m', found) = (m' ≡ m) × (found ≡ false)
Sought m (some p) (m', found) = (m'.current_pblock ≡ p) × (m'.slots ≡ m.slots) × (found ≡ true)

-- With right sums of the extents, `mtl_extmap_seek` finds the blocks that the extents hold and no
-- others: it moves to the physical block of a logical block, and where there is none it leaves the
-- map as it is.
pub extmap_seek-physical :
    (m : Extmap) (l : ℕ)
    → IsSummed 0 m.slots
    → l < 2 ^ 64
    → Sought m (physical m.slots l) (extmap_seek m l)
unfolding extmap_seek
extmap_seek-physical m l h small =
    let whole : l - 0 ≡ l = omega arith in
    let same : block_of (seek_slots m.slots 0 0 l) ≡ physical m.slots l =
      seek_slots-physical m.slots 0 0 l h (omega arith) small ∙ ap (physical m.slots) whole in
    elim (Option-cases (seek_slots m.slots 0 0 l)) [
      | inl e ↦
          let missing : physical m.slots l ≡ none = sym same ∙ ap block_of e in
          rw (missing, extmap_seek, e) (refl, refl)
      | inr ((i, p), e) ↦
          let found : physical m.slots l ≡ some p = sym same ∙ ap block_of e in
          rw (found, extmap_seek, e) (refl, refl, refl)
    ]

-- What a slot that was found says of the block.
abbrev Inside : Slot → ℕ → ℕ → Type 0
Inside s l p =
    (first : ℕ) × (first ≤ l)
    × (l < first + s.count)
    × (p ≡ add64 s.begin (l - first))
    × (s.next_lblock ≡ first + s.count)

seek_slots-Inside :
    (ss : List Slot) (i first l j p : ℕ)
    → IsSummed first ss
    → l < 2 ^ 64
    → seek_slots ss i first l ≡ some (j, p)
    → (i ≤ j) × Inside (get_or ss (j - i) no_slot) l p
unfolding seek_slots IsSummed
seek_slots-Inside [] i first l j p h small e = ground arith
seek_slots-Inside (s ∷ ss) i first l j p (next, fits, rest) small e =
    elim (Bool-cases (leb first l && ltb l s.next_lblock)) [
      | inl b ↦
          let index : j - i ≡ 0 = ground (arith, e, b) in
          let at : p ≡ add64 s.begin (l - first) = ground (arith, e, b) in
          (
            ground (arith, e, b),
            subst (λ k. Inside (get_or (s ∷ ss) k no_slot) l p) (sym index)
                (first, ground (arith, b), ground (arith, b, next), at, next),
          )
      | inr b ↦
          let later : seek_slots ss (i + 1) (first + s.count) l ≡ some (j, p) =
            ground (arith, e, b, next) in
          let (le, inside) =
            seek_slots-Inside ss (i + 1) (first + s.count) l j p rest small later in
          let index : j - i ≡ suc (j - (i + 1)) = omega (arith, le) in
          (
            omega (arith, le),
            subst (λ k. Inside (get_or (s ∷ ss) k no_slot) l p) (sym index) inside,
          )
    ]

-- The test of `mtl_extmap_next` holds for every block that a seek finds.
in_extent :
    (m : Extmap) (l i p : ℕ)
    → IsSummed 0 m.slots
    → l < 2 ^ 64
    → seek_slots m.slots 0 0 l ≡ some (i, p)
    → ltb (sub64 p (get_or m.slots i no_slot).begin) (get_or m.slots i no_slot).count ≡ true
in_extent m l i p h small e =
    let (le, at) = seek_slots-Inside m.slots 0 0 l i p h small e in
    let index : i - 0 ≡ i = omega arith in
    let (first, low, high, place, next) =
      subst (λ k. Inside (get_or m.slots k no_slot) l p) index at in
    ground (arith, low, high, place, next)

found_twice :
    (m : Extmap) (l i p q : ℕ)
    → IsSummed 0 m.slots
    → l + 1 < 2 ^ 64
    → seek_slots m.slots 0 0 l ≡ some (i, p)
    → seek_slots m.slots 0 0 (l + 1) ≡ some (i, q)
    → (ltb (sub64 p (get_or m.slots i no_slot).begin) (get_or m.slots i no_slot).count ≡ true)
      × (add64 p 1 ≡ q)
found_twice m l i p q h small here there =
    let (le, at) = seek_slots-Inside m.slots 0 0 l i p h (omega arith) here in
    let (le', at') = seek_slots-Inside m.slots 0 0 (l + 1) i q h small there in
    let index : i - 0 ≡ i = omega arith in
    let (first, low, high, place, next) =
      subst (λ k. Inside (get_or m.slots k no_slot) l p) index at in
    let (first', low', high', place', next') =
      subst (λ k. Inside (get_or m.slots k no_slot) (l + 1) q) index at' in
    (
      in_extent m l i p h (omega arith) here,
      omega (arith, low, high, place, next, low', high', place', next'),
    )

-- With right sums of the extents, where a logical block and the next one are in the same extent,
-- `mtl_extmap_next` after a seek for the first moves to where a seek for the second does.
pub extmap_next-seek :
    (m : Extmap) (l i p q : ℕ)
    → IsSummed 0 m.slots
    → l + 1 < 2 ^ 64
    → seek_slots m.slots 0 0 l ≡ some (i, p)
    → seek_slots m.slots 0 0 (l + 1) ≡ some (i, q)
    → extmap_next (extmap_seek m l).0 ≡ (extmap_seek m (l + 1)).0
unfolding extmap_next extmap_seek
extmap_next-seek m l i p q h small here there =
    let (inside, target) = found_twice m l i p q h small here there in
    rw (here, there, extmap_seek)
      (rw inside (ap (λ k. record m { current_extent = i; current_pblock = k }) target))

-- With right sums of the extents, where a logical block and the next one are in different extents,
-- `mtl_extmap_next` after a seek for the first does not move to where a seek for the second does.
extmap_next_overruns :
    (m : Extmap) (l i p j q : ℕ)
    → IsSummed 0 m.slots
    → l + 1 < 2 ^ 64
    → seek_slots m.slots 0 0 l ≡ some (i, p)
    → seek_slots m.slots 0 0 (l + 1) ≡ some (j, q)
    → i ≢ j
    → extmap_next (extmap_seek m l).0 ≢ (extmap_seek m (l + 1)).0
unfolding extmap_next extmap_seek
extmap_next_overruns m l i p j q h small here there ne same =
    let inside = in_extent m l i p h (omega arith) here in
    let left : (extmap_next (extmap_seek m l).0).current_extent ≡ i =
      rw (here, extmap_seek, inside) in
    let inside = in_extent m l i p h (omega arith) here in
    let right : (extmap_seek m (l + 1)).0.current_extent ≡ j = rw (there, extmap_seek) in
    let inside = in_extent m l i p h (omega arith) here in
    ne (sym left ∙ ap (λ (x : Extmap). x.current_extent) same ∙ right)

-- The blocks of the extents.
unfoldable pub total : List Slot → ℕ
total [] = 0
total (s ∷ ss) = s.count + total ss

-- A slot in front of others, with its sum as `mtl_extmap_load` computes it.
IsSummed-step :
    (last count : ℕ) (ss : List Slot)
    → last + (count + total ss) < 2 ^ 64
    → (add64 last count + total ss < 2 ^ 64 → IsSummed (add64 last count) ss)
    → (add64 last count ≡ last + count) × (last + count < 2 ^ 64) × IsSummed (last + count) ss
IsSummed-step last count ss h later =
    let sum : add64 last count ≡ last + count = omega (arith, h) in
    (sum, omega (arith, h), subst (λ k. IsSummed k ss) sum (later (omega (arith, h, sum))))

load_slots-IsSummed :
    (memory : ℕ → List ℕ) (rest i address : ℕ) (line : List ℕ) (last : ℕ)
    → last + total (load_slots memory rest i address line last) < 2 ^ 64
    → IsSummed last (load_slots memory rest i address line last)
unfolding load_slots total IsSummed
load_slots-IsSummed memory zero i address line last h = tt
load_slots-IsSummed memory (suc rest) i address line last h =
    IsSummed-step last _ _ h (load_slots-IsSummed memory rest (i + 1) _ _ _)

-- If the number of the blocks of the extents does not wrap, `mtl_extmap_load` reads extents with
-- right sums, and a seek after it finds the blocks that they hold and no others.
pub extmap_load-IsSummed :
    (memory : ℕ → List ℕ) (address l : ℕ)
    → total (extmap_load memory address).slots < 2 ^ 64
    → l < 2 ^ 64
    → IsSummed 0 (extmap_load memory address).slots
      × Sought
          (extmap_load memory address)
          (physical (extmap_load memory address).slots l)
          (extmap_seek (extmap_load memory address) l)
unfolding extmap_load
extmap_load-IsSummed memory address l h small =
    let summed = load_slots-IsSummed memory 512 0 address [] 0 (omega (arith, h)) in
    (summed, extmap_seek-physical (extmap_load memory address) l summed small)
