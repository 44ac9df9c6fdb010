-- ===== src/Pipeline/FileSource.antt =====
-- file_data_source_context.cpp: a file as the source of a pipeline.
use metal_fs.Base.{
  ℕ, Bool, true, false, Option, none, some, List, [], ◌∷◌, ltb, leb, ◌==◌, if◌then◌else◌,
}
use metal_fs.Fs.Types.{add64, sub64, FileExtent}
use metal_fs.Fs.State.{Databases}
use metal_fs.Fs.Namespace.{resolve_inode}
use metal_fs.Fpga.Types.{AddressType, MapType, unmapped, dram_map, nvme_map, dram_and_nvme}
use metal_fs.Fpga.Jobs.{ExtmapSlot, card_dram_read, nvme_read, slot_number}
use metal_fs.Pipeline.MapJob.{map_extents}
use metal_fs.Pipeline.Card.{
  load_extents, extents_not_initialized, no_dram_filesystem, no_pagefile, pagefile_extents, Outcome,
  done, throws, ◌>>>◌, or_throw, Job, map_job, World, execute_job, DataPlace, to_address,
}
use metal_fs.Fs.FileData.{load_extent_list}

-- A `FileDataSourceContext`; the file's length is not set in the 'disabled' mode.
pub record FileSource : Type 0 where
  pub inode_id : ℕ
  pub source : DataPlace
  pub file_length : ℕ
  pub extents : List FileExtent

-- `"/.pagefile_read"`
abbrev pub pagefile_read_path : List ℕ
pagefile_read_path =
    0x2f ∷ 0x2e ∷ 0x70 ∷ 0x61 ∷ 0x67 ∷ 0x65 ∷ 0x66 ∷ 0x69 ∷ 0x6c ∷ 0x65 ∷ 0x5f ∷ 0x72 ∷ 0x65 ∷ 0x61
    ∷ 0x64 ∷ []

-- `"/.pagefile_write"`
abbrev pub pagefile_write_path : List ℕ
pagefile_write_path =
    0x2f ∷ 0x2e ∷ 0x70 ∷ 0x61 ∷ 0x67 ∷ 0x65 ∷ 0x66 ∷ 0x69 ∷ 0x6c ∷ 0x65 ∷ 0x5f ∷ 0x77 ∷ 0x72 ∷ 0x69
    ∷ 0x74 ∷ 0x65 ∷ []

-- The size of a source, not larger than the file.
unfoldable pub clamped : (offset size file_length : ℕ) → ℕ
clamped offset size file_length =
    sub64 (if ltb file_length (add64 offset size) then file_length else add64 offset size) offset

abbrev pub advance : DataPlace → ℕ → DataPlace
advance d n = record d { address = add64 d.address n; size = (to_address d).size }

module _ (L : Databases) where
  -- The constructor; `place` is the storage's address and map type.
  pub new_source :
      (unset : ℕ)
      → World L
      → (place : AddressType × MapType) → (inode_id offset size : ℕ) → Outcome FileSource
  unfolding load_extent_list clamped
  new_source unset w (type, map_type) inode_id offset size =
      let place : DataPlace = record {
        address = offset;
        size = size;
        type = type;
        map_type = map_type;
      } in
      if inode_id == 0
      then done (record { inode_id = inode_id; source = place; file_length = unset; extents = [] })
      else or_throw load_extents (load_extent_list L w.metadata inode_id) >>> λ x. done (record {
        inode_id = inode_id;
        source = record place { size = clamped offset size x.1 };
        file_length = x.1;
        extents = x.0;
      })

  -- The extents of a page file of the DRAM file system.
  unfoldable pub pagefile : World L → List ℕ → Outcome (List FileExtent)
  unfolding load_extent_list resolve_inode
  pagefile w path = elim w.dram [
    | none ↦ throws no_dram_filesystem
    | some t ↦ or_throw no_pagefile (resolve_inode L t path) >>> λ id.
        or_throw pagefile_extents (load_extent_list L t id) >>> λ x. done x.0
  ]

module _ (L : Databases) (card : List Job → Option ℕ) (unset : List ℕ) where
  -- `mapExtents`: one job on the card.
  unfoldable pub map_file : World L → ExtmapSlot → List FileExtent → Outcome (World L)
  unfolding execute_job map_extents
  map_file w slot xs =
      execute_job L card w (map_job (map_extents unset (slot_number slot) xs)) >>> λ r. done r.0

  -- The `switch` on the map type, for the slots and the page file of a direction.
  unfoldable pub map_for :
      World L
      → MapType
      → (dram_slot nvme_slot : ExtmapSlot) → (pagefile_path : List ℕ) → List FileExtent
      → Outcome (World L)
  unfolding map_file pagefile
  map_for w unmapped dram_slot nvme_slot path xs = done w
  map_for w dram_map dram_slot nvme_slot path xs = map_file w dram_slot xs
  map_for w nvme_map dram_slot nvme_slot path xs = map_file w nvme_slot xs
  map_for w dram_and_nvme dram_slot nvme_slot path xs =
      pagefile L w path >>> λ pages. map_file w dram_slot pages >>> λ w'. map_file w' nvme_slot xs

  abbrev pub lacks_extents : List FileExtent → Bool
  lacks_extents [] = true
  lacks_extents (x ∷ xs) = false

  pub configure_source : World L → FileSource → Outcome (World L)
  unfolding map_for
  configure_source w s =
      if lacks_extents s.extents
      then throws extents_not_initialized
      else map_for w s.source.map_type card_dram_read nvme_read pagefile_read_path s.extents

-- Advance the offset; the size stays.
unfoldable pub finalize_source : FileSource → FileSource
finalize_source s = record s { source = advance s.source (to_address s.source).size }

unfoldable pub end_of_input : FileSource → Bool
end_of_input s = leb s.file_length (add64 (to_address s.source).addr (to_address s.source).size)
