-- ===== src/Tests/Transfers.antt =====
-- A file of two extents on the FPGA, and a transfer of three blocks.
use metal_fs.Base.{ℕ, ◌+◌, ◌%◌, ◌^◌, ◌≡◌, refl, Bool, true, false, some, [], ◌∷◌, arith}
use metal_fs.Fpga.Types.{
  storage_block_size, nvme_dram_base_offset, nvme, nvme_map, Address, Element, writes,
}
use metal_fs.Fpga.Extmap.{Extmap, seek_slots, extmap_seek, extmap_next}
use metal_fs.Fpga.Extmap.Seek.{physical, IsSummed, Sought, extmap_seek-physical, extmap_next-seek}
use metal_fs.Fpga.Transfer.{Maps, translate}
use metal_fs.Fpga.Streams.{NvmeRun, nvme_command_of, write_nvme_data}
use metal_fs.Fpga.Streams.Store.{nvme_elements, up_to_last, Lacks, has_last, write_nvme_data-Lacks}
use metal_fs.Fpga.Streams.Preload.{preload_block, preload_block_misplaced}

abbrev two_slots : Extmap
two_slots = record {
  current_extent = 0;
  current_pblock = 10;
  slots =
      record { begin = 10; count = 4; next_lblock = 4 }
      ∷ record { begin = 50; count = 2; next_lblock = 6 }
      ∷ [];
}

two_slots-IsSummed : IsSummed 0 two_slots.slots
unfolding IsSummed
two_slots-IsSummed = (refl, omega arith, (refl, omega arith, tt))

extmap_seek-physical_example :
    Sought two_slots (physical two_slots.slots 5) (extmap_seek two_slots 5)
extmap_seek-physical_example = extmap_seek-physical two_slots 5 two_slots-IsSummed (omega arith)

extmap_next-seek_example : extmap_next (extmap_seek two_slots 2).0 ≡ (extmap_seek two_slots 3).0
unfolding seek_slots
extmap_next-seek_example =
    extmap_next-seek two_slots 2 0 12 13 two_slots-IsSummed (omega arith) refl refl

abbrev three_blocks : Address
three_blocks = record { addr = 262143; size = 524289; type = nvme; map_type = nvme_map }

abbrev both : Maps
both = record { dram = two_slots; nvme = two_slots }

abbrev element : ℕ → Bool → Element
element size last = record { address = 0; size = size; type = nvme; last = last }

abbrev ended_early : NvmeRun
ended_early = record {
  passed = element 9 false ∷ element 0 true ∷ [];
  commands = nvme_command_of (element 9 false) 5 ∷ [];
  responses = 2;
}

ended_early-run :
    write_nvme_data (element 9 false ∷ element 0 true ∷ []) (5 ∷ 6 ∷ []) ≡ some ended_early
unfolding write_nvme_data
ended_early-run = refl

write_nvme_data-Lacks_example :
    (r : NvmeRun) × (write_nvme_data (element 9 false ∷ element 0 true ∷ []) (5 ∷ 6 ∷ []) ≡ some r)
    × Lacks (up_to_last (element 9 false ∷ element 0 true ∷ [])) r
unfolding has_last nvme_elements up_to_last
write_nvme_data-Lacks_example =
    write_nvme_data-Lacks (element 9 false ∷ element 0 true ∷ []) (5 ∷ 6 ∷ []) refl (omega arith)

abbrev written : Element
written = record { address = 2 ^ 31 + 262143; size = 1; type = nvme; last = false }

written-place :
    written.address ≡ (translate writes nvme_map 262143 (262143 % storage_block_size) both).0
unfolding translate
written-place = refl

preload_block_misplaced_example :
    (nvme_command_of written 5).dram_offset
    ≡ (preload_block three_blocks 262143 both).0.dram_offset + nvme_dram_base_offset
preload_block_misplaced_example =
    preload_block_misplaced three_blocks 262143 5 both written refl written-place
