-- ===== src/Fpga/Types.antt =====
-- The constants and types of fpga_interface.hpp and mtl_op_mem.h.
use metal_fs.Base.{ℕ, ◌*◌, ◌^◌, Bool}

abbrev pub storage_block_size : ℕ
storage_block_size = 2 ^ 18

abbrev pub pagefile_size : ℕ
pagefile_size = 128 * 2 ^ 18

abbrev pub max_extents_per_file : ℕ
max_extents_per_file = 512

abbrev pub dram_base_offset : ℕ
dram_base_offset = 0x8000000000000000

abbrev pub nvme_dram_base_offset : ℕ
nvme_dram_base_offset = 0x200000000

abbrev pub nvme_dram_read_offset : ℕ
nvme_dram_read_offset = 0

abbrev pub nvme_dram_write_offset : ℕ
nvme_dram_write_offset = 2 ^ 31

pub data AddressType : Type 0 where
  host card_dram nvme null random : AddressType

-- `MapType::None`, `DRAM`, `NVMe` and `DRAMAndNVMe`.
pub data MapType : Type 0 where
  unmapped dram_map nvme_map dram_and_nvme : MapType

pub record Address : Type 0 where
  pub addr : ℕ
  pub size : ℕ
  pub type : AddressType
  pub map_type : MapType

-- A `Transfer` with the `last` flag of its `TransferElement`.
pub record Element : Type 0 where
  pub address : ℕ
  pub size : ℕ
  pub type : AddressType
  pub last : Bool

pub data TransferType : Type 0 where
  reads writes : TransferType
