-- ===== src/Pipeline/FileSink.antt =====
-- file_data_sink_context.cpp: a file as the sink of a pipeline.
use metal_fs.Base.{ℕ, Bool, not, ◌&&◌, Option, List, [], ltb, leb, ◌==◌, if◌then◌else◌}
use metal_fs.Fs.Types.{add64, FileExtent}
use metal_fs.Fs.State.{Databases}
use metal_fs.Fpga.Types.{AddressType, MapType}
use metal_fs.Fpga.Jobs.{card_dram_write, nvme_write}
use metal_fs.Pipeline.Card.{
  load_extents, update_file_length, Outcome, done, ◌>>>◌, or_throw, Job, World, DataPlace,
  to_address,
}
use metal_fs.Pipeline.FileSource.{pagefile_write_path, advance, map_for}
use metal_fs.Fs.FileData.{truncate, load_extent_list}

-- A `FileDataSinkContext`.
pub record FileSink : Type 0 where
  pub inode_id : ℕ
  pub truncate_on_finalize : Bool
  pub sink : DataPlace
  pub cached_total_size : ℕ
  pub extents : List FileExtent

module _ (L : Databases) (block_size : ℕ) where
  unfoldable pub reload_extents : World L → FileSink → Outcome FileSink
  unfolding load_extent_list
  reload_extents w s = or_throw load_extents (load_extent_list L w.metadata s.inode_id) >>> λ x.
      done (record s { extents = x.0; cached_total_size = x.1 })

  -- `mtl_truncate` of the sink's file.
  unfoldable pub set_file_length : World L → FileSink → ℕ → Outcome (World L)
  unfolding truncate
  set_file_length w s size =
      or_throw update_file_length (truncate L block_size w.metadata s.inode_id size) >>> λ t.
      done (record w { metadata = t })

  pub prepare_for_total_size : World L → FileSink → ℕ → Outcome (World L × FileSink)
  unfolding reload_extents set_file_length
  prepare_for_total_size w s size =
      if leb size s.cached_total_size
      then done (w, s)
      else (set_file_length w s size >>> λ w'. reload_extents w' s >>> λ s'. done (w', s'))

  pub new_sink :
      World L
      → (place : AddressType × MapType) → (inode_id offset size : ℕ) → (truncate_on_finalize : Bool)
      → Outcome (World L × FileSink)
  unfolding reload_extents prepare_for_total_size
  new_sink w (type, map_type) inode_id offset size cut =
      let s : FileSink = record {
        inode_id = inode_id;
        truncate_on_finalize = cut;
        sink = record { address = offset; size = size; type = type; map_type = map_type };
        cached_total_size = 0;
        extents = [];
      } in
      if inode_id == 0
      then done (w, s)
      else reload_extents w s >>> λ s'. prepare_for_total_size w s' (add64 offset size)

  pub finalize_sink :
      World L → FileSink → (output_size : ℕ) → (last : Bool) → Outcome (World L × FileSink)
  unfolding set_file_length
  finalize_sink w s output_size last =
      let s' : FileSink = record s { sink = advance s.sink output_size } in
      if last && (not (s.inode_id == 0) && s.truncate_on_finalize)
      then (set_file_length w s' s'.sink.address >>> λ w'. done (w', s'))
      else done (w, s')

module _ (L : Databases) (block_size : ℕ) (card : List Job → Option ℕ) (unset : List ℕ) where
  pub configure_sink : World L → FileSink → (input_size : ℕ) → Outcome (World L × FileSink)
  unfolding prepare_for_total_size map_for
  configure_sink w s input_size =
      let s' : FileSink = record s { sink = record s.sink { size = input_size } } in
      let end = add64 (to_address s'.sink).addr (to_address s'.sink).size in
      (if ltb s.cached_total_size end
        then prepare_for_total_size L block_size w s' end
        else done (w, s'))
      >>> λ (w', s'').
          map_for L card unset w' s''.sink.map_type card_dram_write nvme_write pagefile_write_path
            s''.extents
          >>> λ w''. done (w'', s'')
