-- ===== src/Fpga/Transfer.antt =====
-- mtl_op_mem.hpp and mtl_op_mem.cpp with NVME_ENABLED: how a transfer of a file range is cut at
-- block boundaries and translated, and the commands for the data mover and the NVMe controller.
pub mod Cover
pub mod Supply
use metal_fs.Base.{
  ℕ, zero, suc, ◌+◌, ◌-◌, ◌/◌, ◌%◌, ◌^◌, Option, none, some, List, [], ◌∷◌, ltb, leb, ◌==◌,
  if◌then◌else◌,
}
use metal_fs.Fs.Types.{add64, sub64, mul64}
use metal_fs.Fpga.Types.{
  storage_block_size, pagefile_size, nvme_dram_read_offset, nvme_dram_write_offset, MapType,
  unmapped, dram_map, nvme_map, dram_and_nvme, Address, Element, TransferType, reads, writes,
}
use metal_fs.Fpga.Extmap.{Extmap, extmap_seek, extmap_next}

-- The two extent maps.
pub record Maps : Type 0 where
  pub dram : Extmap
  pub nvme : Extmap

-- "Perform seek in the extent maps"; whether a block was found is not looked at.
pub seek_maps : Address → Maps → Maps
unfolding extmap_seek
seek_maps a m = elim a.map_type [
  | unmapped ↦ m
  | dram_map ↦ record m { dram = (extmap_seek m.dram (a.addr / storage_block_size)).0 }
  | nvme_map ↦ record m { nvme = (extmap_seek m.nvme (a.addr / storage_block_size)).0 }
  | dram_and_nvme ↦ record m {
    nvme = (extmap_seek m.nvme (a.addr / storage_block_size)).0;
    dram = (extmap_seek m.dram ((a.addr % pagefile_size) / storage_block_size)).0;
  }
]

abbrev pub place_in : Extmap → ℕ → ℕ
place_in m intra = add64 (mul64 m.current_pblock storage_block_size) intra

abbrev pub window : TransferType → ℕ
window reads = nvme_dram_read_offset
window writes = nvme_dram_write_offset

-- "Perform address translation": the address for the data mover, the address for the NVMe
-- controller if there is one, and the maps after it.
unfoldable pub translate :
    TransferType → MapType → (current_address intra : ℕ) → Maps → ℕ × Option ℕ × Maps
unfolding extmap_next
translate t unmapped current_address intra m = (current_address, none, m)
translate t dram_map current_address intra m =
    (place_in m.dram intra, none, record m { dram = extmap_next m.dram })
translate t nvme_map current_address intra m = (
  window t + current_address % 2 ^ 31,
  some (place_in m.nvme intra),
  record m { nvme = extmap_next m.nvme },
)
translate t dram_and_nvme current_address intra m = (
  place_in m.dram intra,
  some (place_in m.nvme intra),
  record { dram = extmap_next m.dram; nvme = extmap_next m.nvme },
)

abbrev pub append_some : Option ℕ → List ℕ → List ℕ
append_some none xs = xs
append_some (some x) xs = x ∷ xs

-- What the loop puts into the two streams, and the maps that it leaves; `none` where the rounds
-- do not suffice.
pub record Issued : Type 0 where
  pub elements : List Element
  pub nvme_transfers : List ℕ
  pub maps : Maps

abbrev pub bytes_this_round : (current_address remaining : ℕ) → ℕ
bytes_this_round current_address remaining =
    let limit = storage_block_size - current_address % storage_block_size in
    if leb remaining limit then remaining else limit

-- The elements in front of those of the later rounds.
abbrev pub prepend : Element → Option ℕ → Option Issued → Option Issued
prepend e x none = none
prepend e x (some r) = some (record {
  elements = e ∷ r.elements;
  nvme_transfers = append_some x r.nvme_transfers;
  maps = r.maps;
})

-- The loop of `issue_partial_transfers`.
pub issue_loop : ℕ → TransferType → Address → (transferred : ℕ) → Maps → Option Issued
unfolding translate
issue_loop zero t a transferred m = none
issue_loop (suc rounds) t a transferred m =
    let remaining = sub64 a.size transferred in
    let current_address = add64 a.addr transferred in
    let intra = current_address % storage_block_size in
    let bytes = bytes_this_round current_address remaining in
    let (address, nvme_address, m') = translate t a.map_type current_address intra m in
    let element : Element = record {
      address = address;
      size = bytes;
      type = a.type;
      last = bytes == remaining;
    } in
    let more = prepend element nvme_address (issue_loop rounds t a (add64 transferred bytes) m') in
    if ltb transferred a.size
    then more
    else some (record { elements = []; nvme_transfers = []; maps = m })

-- A transfer of at most 2 ^ 32 bytes needs no more rounds than blocks, one more at the start, and
-- one that ends the loop.
pub issue_partial_transfers : TransferType → Address → Maps → Option Issued
unfolding issue_loop seek_maps
issue_partial_transfers t a m = issue_loop (a.size / storage_block_size + 3) t a 0 (seek_maps a m)
