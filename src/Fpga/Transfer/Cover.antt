-- ===== src/Fpga/Transfer/Cover.antt =====
-- `issue_partial_transfers` cuts the range of a transfer at the boundaries of the blocks.
use metal_fs.Base.{ℕ, ◌+◌, ◌-◌, ◌*◌, ◌%◌, ◌^◌, ◌≤◌, ◌<◌, ◌≡◌, some, List, [], ◌∷◌, ◌==◌}
use metal_fs.Fpga.Types.{
  storage_block_size, nvme_dram_read_offset, nvme_dram_write_offset, MapType, unmapped, dram_map,
  nvme_map, dram_and_nvme, reads, writes, Address, Element, TransferType,
}
use metal_fs.Fpga.Transfer.{Maps, Issued, issue_loop}
use metal_fs.Fpga.Extmap.{extmap_next}

-- The elements cover the `remaining` bytes from `at` on, in order and each byte once; each is
-- within a block, and just the final one carries the `last` flag.
unfoldable pub IsCut : (at remaining : ℕ) → List Element → Type 0
IsCut at remaining [] = remaining ≡ 0
IsCut at remaining (e ∷ es) =
    (0 < e.size)
    × (e.size ≤ remaining)
    × (at % storage_block_size + e.size ≤ storage_block_size)
    × (e.last ≡ (e.size == remaining))
    × IsCut (at + e.size) (remaining - e.size) es

-- Where the data mover finds byte `at` of the range: in the place itself, in the block of the map of
-- the card's memory, or in the part of the card's memory for the direction.
abbrev pub place_of : TransferType → MapType → (at : ℕ) → Maps → ℕ
place_of t unmapped at m = at
place_of t dram_map at m =
    (m.dram.current_pblock * storage_block_size + at % storage_block_size) % 2 ^ 64
place_of reads nvme_map at m = nvme_dram_read_offset + at % 2 ^ 31
place_of writes nvme_map at m = nvme_dram_write_offset + at % 2 ^ 31
place_of t dram_and_nvme at m =
    (m.dram.current_pblock * storage_block_size + at % storage_block_size) % 2 ^ 64

-- In front of the addresses for the NVMe controller of the later elements, the one of an element.
abbrev pub IsQueued : MapType → (at : ℕ) → Maps → (xs later : List ℕ) → Type 0
IsQueued unmapped at m xs later = xs ≡ later
IsQueued dram_map at m xs later = xs ≡ later
IsQueued nvme_map at m xs later =
    xs ≡ (m.nvme.current_pblock * storage_block_size + at % storage_block_size) % 2 ^ 64 ∷ later
IsQueued dram_and_nvme at m xs later =
    xs ≡ (m.nvme.current_pblock * storage_block_size + at % storage_block_size) % 2 ^ 64 ∷ later

-- The maps for the next element: one step of `mtl_extmap_next` further on.
abbrev pub one_block_on : MapType → Maps → Maps
one_block_on unmapped m = m
one_block_on dram_map m = record m { dram = extmap_next m.dram }
one_block_on nvme_map m = record m { nvme = extmap_next m.nvme }
one_block_on dram_and_nvme m = record { dram = extmap_next m.dram; nvme = extmap_next m.nvme }

-- The elements from `at` on have the addresses where the data mover finds them, and the others are
-- those where the NVMe controller does, from the blocks on at which the maps stand.
unfoldable pub IsPlaced :
    TransferType → MapType → (at : ℕ) → Maps → List Element → (nvme_transfers : List ℕ) → Type 0
IsPlaced t type at m [] xs = xs ≡ []
IsPlaced t type at m (e ∷ es) xs =
    (e.address ≡ place_of t type at m)
    × ((later : List ℕ) × IsQueued type at m xs later
        × IsPlaced t type (at + e.size) (one_block_on type m) es later)

-- The loop ends with elements that cover the rest of the range.
abbrev Covers : TransferType → Address → ℕ → ℕ → Maps → Type 0
Covers t a n transferred m =
    (r : Issued) × (issue_loop n t a transferred m ≡ some r)
    × IsCut (a.addr + transferred) (a.size - transferred) r.elements
    × IsPlaced t a.map_type (a.addr + transferred) m r.elements r.nvme_transfers
