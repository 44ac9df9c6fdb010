-- ===== src/Fpga/Jobs/Mapped.antt =====
-- `mapExtents` on the host and `action_map` on the FPGA together.
use metal_fs.Base.{
  ℕ, zero, suc, ◌+◌, ◌-◌, ◌*◌, ◌/◌, ◌^◌, ◌≤◌, ◌<◌, ◌≡◌, refl, sym, ap, ◌∙◌, subst, ◌⊎◌, inl, inr,
  Bool, true, false, Option, none, some, List, [], ◌∷◌, arith, ltb, ◌==◌, if◌then◌else◌, length,
}
use metal_fs.Fpga.Extmap.{Extmap, extmap_seek, get64be, load_slots, extmap_load}
use metal_fs.Pipeline.MapJob.{map_extents, line_at, job_memory}
use metal_fs.Fs.Types.{add64, FileExtent}
use metal_fs.Fpga.Extmap.Seek.{physical, Sought, total, extmap_load-IsSummed}
use metal_fs.Fpga.Jobs.{
  ExtmapSlot, card_dram_read, card_dram_write, nvme_read, nvme_write, slot_number, slot_of, Extmaps,
  set_map, map_in, action_map,
}
use metal_fs.Fpga.Jobs.Words.{
  get64be-be64, AreWords, slots_of, flat, padded, extent_words-flat, padded-AreWords, length-padded,
  load_slots-slots_of,
}

-- The block of the file that stands at a logical block of its extents.
pub block_at : List FileExtent → ℕ → Option ℕ
block_at [] l = none
block_at (x ∷ xs) l = if ltb l x.length then some (add64 x.offset l) else block_at xs (l - x.length)

physical-slots_of :
    (last l : ℕ) (xs : List FileExtent) → physical (slots_of last xs) l ≡ block_at xs l
unfolding physical slots_of block_at
physical-slots_of last l [] = refl
physical-slots_of last l (x ∷ xs) = rw (physical-slots_of (add64 last x.length) (l - x.length) xs)

block_at-padded :
    (n l : ℕ) (xs : List FileExtent) → length xs ≤ n → block_at (padded n xs) l ≡ block_at xs l
unfolding block_at padded
block_at-padded zero l [] h = refl
block_at-padded zero l (x ∷ xs) h = absurd (omega arith)
block_at-padded (suc n) l [] h = ground (arith, block_at-padded n l [])
block_at-padded (suc n) l (x ∷ xs) h = rw (block_at-padded n (l - x.length) xs (omega arith))

-- The number of the file's blocks.
unfoldable pub blocks_in : List FileExtent → ℕ
blocks_in [] = 0
blocks_in (x ∷ xs) = x.length + blocks_in xs

total-slots_of : (last : ℕ) (xs : List FileExtent) → total (slots_of last xs) ≡ blocks_in xs
unfolding total slots_of blocks_in
total-slots_of last [] = refl
total-slots_of last (x ∷ xs) = omega (arith, total-slots_of (add64 last x.length) xs)

blocks_in-padded :
    (n : ℕ) (xs : List FileExtent) → length xs ≤ n → blocks_in (padded n xs) ≡ blocks_in xs
unfolding blocks_in padded
blocks_in-padded zero [] h = refl
blocks_in-padded zero (x ∷ xs) h = absurd (omega arith)
blocks_in-padded (suc n) [] h = omega (arith, blocks_in-padded n [] (omega arith))
blocks_in-padded (suc n) (x ∷ xs) h = omega (arith, blocks_in-padded n xs (omega arith))

module _ (unset : List ℕ) (first number : ℕ) (xs : List FileExtent) (few : length xs ≤ 512)
    (words : AreWords xs) (room : 64 * (first + 129) < 2 ^ 64) where
  abbrev job : ℕ → List ℕ
  job = job_memory first (map_extents unset number xs)

  job_line : (k : ℕ) → k < 128 → job (64 * first / 64 + 1 + k) ≡ line_at k (flat (padded 512 xs))
  unfolding job_memory map_extents
  job_line k lt =
      let other : (64 * first / 64 + 1 + k) == first ≡ false = ground arith in
      let index : 64 * first / 64 + 1 + k - first - 1 ≡ k = omega arith in
      rw other (rw (index, extent_words-flat 512 xs))

  job_slot : number < 2 ^ 64 → get64be (job (64 * first / 64)) ≡ number
  unfolding job_memory map_extents
  job_slot small =
      let here : (64 * first / 64) == first ≡ true = ground arith in
      rw here (get64be-be64 number unset small)

  loaded_slots : (extmap_load job (add64 (64 * first) 64)).slots ≡ slots_of 0 (padded 512 xs)
  unfolding extmap_load
  loaded_slots =
      let from : (k : ℕ)
          → k < 128
          → job (add64 (64 * first) 64 / 64 + k) ≡ line_at k (flat (padded 512 xs)) =
        λ k lt.
          let at : add64 (64 * first) 64 / 64 + k ≡ 64 * first / 64 + 1 + k = omega (arith, room) in
          ap job at ∙ job_line k lt in
      ap (λ n. load_slots job n 0 (add64 (64 * first) 64) [] 0) (sym (length-padded 512 xs))
      ∙ load_slots-slots_of job 128 0 (add64 (64 * first) 64) 0 [] (padded 512 xs)
          (length-padded 512 xs) refl (omega (arith, room)) (omega (arith, room))
          (padded-AreWords 512 xs words) from

-- What a job for slot `s` does to the extent maps: the map in the slot finds exactly the blocks of
-- the extents, and the others stay as they are.
abbrev pub MapsFile : ExtmapSlot → List FileExtent → Extmaps → Extmaps × Bool → Type 0
MapsFile s xs ms (ms', success) =
    (success ≡ true)
    × ((l : ℕ) → l < 2 ^ 64 → Sought (map_in s ms') (block_at xs l) (extmap_seek (map_in s ms') l))
    × ((other : ExtmapSlot) → (other ≡ s) ⊎ (map_in other ms' ≡ map_in other ms))

slot_of-slot_number : (s : ExtmapSlot) → slot_of (slot_number s) ≡ some s
slot_of-slot_number card_dram_read = refl
slot_of-slot_number card_dram_write = refl
slot_of-slot_number nvme_read = refl
slot_of-slot_number nvme_write = refl

slot_number-small : (s : ExtmapSlot) → slot_number s < 2 ^ 64
slot_number-small card_dram_read = omega arith
slot_number-small card_dram_write = omega arith
slot_number-small nvme_read = omega arith
slot_number-small nvme_write = omega arith

map_in-set_map_self : (s : ExtmapSlot) (m : Extmap) (ms : Extmaps) → map_in s (set_map s m ms) ≡ m
map_in-set_map_self card_dram_read m ms = refl
map_in-set_map_self card_dram_write m ms = refl
map_in-set_map_self nvme_read m ms = refl
map_in-set_map_self nvme_write m ms = refl

map_in-set_map :
    (s other : ExtmapSlot) (m : Extmap) (ms : Extmaps)
    → (other ≡ s) ⊎ (map_in other (set_map s m ms) ≡ map_in other ms)
map_in-set_map card_dram_read card_dram_read m ms = inl refl
map_in-set_map nvme_read nvme_read m ms = inl refl
map_in-set_map card_dram_write card_dram_write m ms = inl refl
map_in-set_map nvme_write nvme_write m ms = inl refl
map_in-set_map card_dram_read card_dram_write m ms = inr refl
map_in-set_map card_dram_read nvme_read m ms = inr refl
map_in-set_map card_dram_read nvme_write m ms = inr refl
map_in-set_map card_dram_write card_dram_read m ms = inr refl
map_in-set_map card_dram_write nvme_read m ms = inr refl
map_in-set_map card_dram_write nvme_write m ms = inr refl
map_in-set_map nvme_read card_dram_read m ms = inr refl
map_in-set_map nvme_read card_dram_write m ms = inr refl
map_in-set_map nvme_read nvme_write m ms = inr refl
map_in-set_map nvme_write card_dram_read m ms = inr refl
map_in-set_map nvme_write card_dram_write m ms = inr refl
map_in-set_map nvme_write nvme_read m ms = inr refl

-- A job that the host lays out for a slot and at most 512 extents of 64-bit words, in a line-aligned
-- place that does not wrap, succeeds on the FPGA; if the number of blocks does not wrap, seeks in the
-- slot's map then find exactly the blocks of the extents, and the other maps are as they were.
pub action_map-map_extents :
    (s : ExtmapSlot) (unset : List ℕ) (first : ℕ) (xs : List FileExtent) (ms : Extmaps)
    → length xs ≤ 512
    → AreWords xs
    → 64 * (first + 129) < 2 ^ 64
    → blocks_in xs < 2 ^ 64
    → MapsFile s xs ms
        (action_map (job_memory first (map_extents unset (slot_number s) xs)) (64 * first) ms)
unfolding action_map
action_map-map_extents s unset first xs ms few words room small =
    let memory = job unset first (slot_number s) xs few words room in
    let m = extmap_load memory (add64 (64 * first) 64) in
    let slots : m.slots ≡ slots_of 0 (padded 512 xs) =
      loaded_slots unset first (slot_number s) xs few words room in
    let blocks : total m.slots ≡ blocks_in xs =
      ap total slots ∙ total-slots_of 0 (padded 512 xs) ∙ blocks_in-padded 512 xs few in
    let same : (l : ℕ) → physical m.slots l ≡ block_at xs l = λ l.
      ap (λ ss. physical ss l) slots
      ∙ physical-slots_of 0 l (padded 512 xs)
      ∙ block_at-padded 512 l xs few in
    let named : slot_of (get64be (memory (64 * first / 64))) ≡ some s =
      ap slot_of (job_slot unset first (slot_number s) xs few words room (slot_number-small s))
      ∙ slot_of-slot_number s in
    let stored : map_in s (set_map s m ms) ≡ m = map_in-set_map_self s m ms in
    rw (named, action_map)
      (
        refl,
        λ l lt.
            subst (λ k. Sought k (block_at xs l) (extmap_seek k l)) (sym stored)
              (subst (λ p. Sought m p (extmap_seek m l)) (same l)
                (extmap_load-IsSummed memory (add64 (64 * first) 64) l
                  (omega (arith, blocks, small)) lt).1),
        λ other. map_in-set_map s other m ms,
      )
