-- ===== src/Fpga/Jobs.antt =====
-- mtl_jobs.cpp with NVME_ENABLED: the job that loads an extent map.
pub mod Words
pub mod Mapped
use metal_fs.Base.{ℕ, ◌/◌, Bool, true, false, Option, none, some, List, ◌==◌, if◌then◌else◌}
use metal_fs.Fs.Types.{add64}
use metal_fs.Fpga.Extmap.{Extmap, get64be, extmap_load}

-- `ExtmapSlot`
pub data ExtmapSlot : Type 0 where
  card_dram_read card_dram_write nvme_read nvme_write : ExtmapSlot

abbrev pub slot_number : ExtmapSlot → ℕ
slot_number card_dram_read = 0
slot_number card_dram_write = 1
slot_number nvme_read = 2
slot_number nvme_write = 3

-- The slot that a number names; other numbers run into the `default` branch of `action_map`.
abbrev pub slot_of : ℕ → Option ExtmapSlot
slot_of n =
    if n == 0
    then some card_dram_read
    else if n == 1
    then some card_dram_write
    else if n == 2
    then some nvme_read
    else if n == 3
    then some nvme_write
    else none

-- `dram_read_extmap`, `dram_write_extmap`, `nvme_read_extmap` and `nvme_write_extmap`.
pub record Extmaps : Type 0 where
  pub dram_read : Extmap
  pub dram_write : Extmap
  pub nvme_reading : Extmap
  pub nvme_writing : Extmap

abbrev pub set_map : ExtmapSlot → Extmap → Extmaps → Extmaps
set_map card_dram_read m ms = record ms { dram_read = m }
set_map card_dram_write m ms = record ms { dram_write = m }
set_map nvme_read m ms = record ms { nvme_reading = m }
set_map nvme_write m ms = record ms { nvme_writing = m }

abbrev pub map_in : ExtmapSlot → Extmaps → Extmap
map_in card_dram_read ms = ms.dram_read
map_in card_dram_write ms = ms.dram_write
map_in nvme_read ms = ms.nvme_reading
map_in nvme_write ms = ms.nvme_writing

-- The maps, and whether the result is `SNAP_RETC_SUCCESS`.
unfoldable pub action_map : (memory : ℕ → List ℕ) → (job_address : ℕ) → Extmaps → Extmaps × Bool
action_map memory job_address ms = elim (slot_of (get64be (memory (job_address / 64)))) [
  | some slot ↦ (set_map slot (extmap_load memory (add64 job_address 64)) ms, true)
  | none ↦ (ms, false)
]
