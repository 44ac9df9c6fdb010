-- ===== src/Fpga/Streams/Load.antt =====
-- A read gives the data mover the whole range.
use metal_fs.Base.{ℕ, ◌+◌, ◌-◌, ◌%◌, ◌^◌, ◌≤◌, ◌<◌, ◌≡◌, some, List, [], ◌∷◌, ◌==◌, length}
use metal_fs.Fpga.Types.{
  AddressType, host, card_dram, nvme, null, random, MapType, dram_base_offset, Element, reads,
}
use metal_fs.Fpga.Streams.{MoverCommand, NvmeRun, load_nvme_data}
use metal_fs.Fpga.Transfer.Cover.{place_of, one_block_on}
use metal_fs.Fpga.Transfer.{Maps}

-- What the data mover calls an address: the card's memory starts at `DRAMBaseOffset`.
abbrev pub seen_by_mover : AddressType → ℕ → ℕ
seen_by_mover host address = address
seen_by_mover card_dram address = (address + dram_base_offset) % 2 ^ 64
seen_by_mover nvme address = (address + dram_base_offset) % 2 ^ 64
seen_by_mover null address = address
seen_by_mover random address = address

-- The commands transfer the `remaining` bytes from `at` on, some with each, in order, from where the
-- data mover finds them, and just the last one ends the frame.
pub IsMoved : AddressType → MapType → (at : ℕ) → Maps → (remaining : ℕ) → List MoverCommand → Type 0
IsMoved type map_type at m remaining [] = remaining ≡ 0
IsMoved type map_type at m remaining (c ∷ cs) =
    (c.effective_address ≡ seen_by_mover type (place_of reads map_type at m))
    × (0 < c.transfer_bytes)
    × (c.transfer_bytes ≤ remaining)
    × (c.end_of_frame ≡ (c.transfer_bytes == remaining))
    × IsMoved type map_type (at + c.transfer_bytes) (one_block_on map_type m)
        (remaining - c.transfer_bytes) cs

-- A stage that passes the elements on, and waits for a response for each of its commands.
abbrev Passes : List Element → List ℕ → Type 0
Passes es queue =
    (r : NvmeRun) × (load_nvme_data es queue ≡ some r)
    × (r.passed ≡ es)
    × (r.responses ≡ length r.commands)
