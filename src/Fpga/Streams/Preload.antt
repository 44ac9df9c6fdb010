-- ===== src/Fpga/Streams/Preload.antt =====
-- `preload_nvme_blocks`: the blocks that a write fills in part are read first.
use metal_fs.Base.{
  ℕ, ◌+◌, ◌/◌, ◌%◌, ◌^◌, ◌≡◌, Bool, not, ◌&&◌, ◌||◌, List, [], ◌∷◌, ◌++◌, arith, ltb, ◌==◌,
  if◌then◌else◌,
}
use metal_fs.Fs.Types.{add64, sub64, mul64}
use metal_fs.Fpga.Types.{
  storage_block_size, pagefile_size, nvme_dram_base_offset, nvme_dram_write_offset, unmapped,
  dram_map, nvme_map, dram_and_nvme, Address, Element, writes,
}
use metal_fs.Fpga.Extmap.{extmap_seek}
use metal_fs.Fpga.Transfer.{Maps, translate}
use metal_fs.Fpga.Streams.{NvmeCommand, nvme_block_transfer_command, nvme_command_of}

abbrev is_odd : ℕ → Bool
is_odd address = not ((address % storage_block_size) == 0)

-- Where in DRAM the block at an address is put, and the map of the page file after it.
unfoldable pub preload_place : Address → (at : ℕ) → Maps → ℕ × Maps
unfolding extmap_seek
preload_place a at m = elim a.map_type [
  | unmapped ↦ (0, m)
  | dram_map ↦ (0, m)
  | nvme_map ↦ (nvme_dram_write_offset + at % 2 ^ 31, m)
  | dram_and_nvme ↦
      let dram = (extmap_seek m.dram ((at % pagefile_size) / storage_block_size)).0 in
      (mul64 dram.current_pblock storage_block_size, record m { dram = dram })
]

-- The command that reads the block at an address.
unfoldable pub preload_block : Address → (at : ℕ) → Maps → NvmeCommand × Maps
unfolding preload_place extmap_seek
preload_block a at m =
    let (dram_address, m') = preload_place a at m in
    let nvme = (extmap_seek m'.nvme (at / storage_block_size)).0 in
    (
      nvme_block_transfer_command (mul64 nvme.current_pblock storage_block_size) dram_address,
      record m' { nvme = nvme },
    )

-- The commands, each waited for before the next.
pub preload_nvme_blocks : Address → Maps → List NvmeCommand × Maps
unfolding preload_block
preload_nvme_blocks a m =
    let end = add64 a.addr a.size in
    let last_byte = sub64 (add64 a.addr (if ltb 0 a.size then a.size else 1)) 1 in
    let other_block = not ((a.addr / storage_block_size) == (last_byte / storage_block_size)) in
    let first = preload_block a a.addr m in
    let m' = if is_odd a.addr then first.1 else m in
    let second = preload_block a end m' in
    let front = if is_odd a.addr then first.0 ∷ [] else [] in
    if is_odd end && (other_block || not (is_odd a.addr))
    then (front ++ (second.0 ∷ []), second.1)
    else (front, m')

-- With extents mapped to the NVMe storage alone, the block that is read before a write is not put
-- where the write takes it from: for any file address, the NVMe controller is told to read the block
-- to a place `NVMeDRAMBaseOffset` below the one that it is later told to write it from.
pub preload_block_misplaced :
    (a : Address) (at x : ℕ) (m : Maps) (e : Element)
    → a.map_type ≡ nvme_map
    → e.address ≡ (translate writes nvme_map at (at % storage_block_size) m).0
    → (nvme_command_of e x).dram_offset
      ≡ (preload_block a at m).0.dram_offset + nvme_dram_base_offset
unfolding preload_block preload_place translate nvme_block_transfer_command
preload_block_misplaced a at x m e mapped place = rw (mapped, place) (omega arith)
