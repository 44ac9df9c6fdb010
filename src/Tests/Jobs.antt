-- ===== src/Tests/Jobs.antt =====
-- Jobs on the FPGA and the runs of a pipeline at concrete inputs.
use metal_fs.Base.{
  ℕ, zero, suc, ◌+◌, ◌*◌, ◌^◌, ◌≤◌, ◌<◌, ◌≡◌, refl, ap, ◌≢◌, Option, none, some, List, [], ◌∷◌,
  arith, if◌then◌else◌,
}
use metal_fs.Fs.Types.{FileExtent}
use metal_fs.Fpga.Types.{Address}
use metal_fs.Fpga.Streams.{Status, op_mem_read, op_mem_write}
use metal_fs.Fpga.Extmap.{Extmap}
use metal_fs.Fpga.Jobs.{nvme_read, slot_number, Extmaps, action_map}
use metal_fs.Fpga.Jobs.Words.{AreWords}
use metal_fs.Fpga.Jobs.Mapped.{blocks_in, MapsFile, action_map-map_extents}
use metal_fs.Fpga.Peripherals.{
  last_written, switch_base, get32be, action_configure_streams, get32le, configure_operators,
}
use metal_fs.Fpga.Peripherals.Switch.{
  fed_by, IsNotIn, AreStreams, IsRoute, action_configure_streams-IsRoute,
}
use metal_fs.Fpga.Peripherals.Options.{line_writes, registers_of, configure_operators-line_writes}
use metal_fs.Fpga.Action.{register_of, start_operators, run_mover}
use metal_fs.Fpga.Process.Enabled.{is_among, both_runs, runs_of, start_operators-enable_streams}
use metal_fs.Pipeline.MapJob.{map_extents, job_memory}
use metal_fs.Pipeline.Stages.{io_stream_id, disable, switch_words, switch_line}
use metal_fs.Pipeline.Run.{enable_streams}
use metal_fs.Fpga.Transfer.{Maps}

abbrev two_extents : List FileExtent
two_extents = record { offset = 10; length = 4 } ∷ record { offset = 50; length = 2 } ∷ []

abbrev empty_map : Extmap
empty_map = record { current_extent = 0; current_pblock = 0; slots = [] }

abbrev no_maps : Extmaps
no_maps = record {
  dram_read = empty_map;
  dram_write = empty_map;
  nvme_reading = empty_map;
  nvme_writing = empty_map;
}

two_extents-AreWords : AreWords two_extents
unfolding AreWords
two_extents-AreWords = ((omega arith, omega arith), ((omega arith, omega arith), tt))

two_extents_blocks : blocks_in two_extents < 2 ^ 64
unfolding blocks_in
two_extents_blocks = omega arith

action_map-map_extents_example : MapsFile nvme_read two_extents no_maps (
    action_map (job_memory 4 (map_extents [] (slot_number nvme_read) two_extents)) (64 * 4) no_maps)
action_map-map_extents_example =
    action_map-map_extents nvme_read [] 4 two_extents no_maps (omega arith) two_extents-AreWords
      (omega arith) two_extents_blocks

abbrev two_streams : List ℕ
two_streams = 3 ∷ 1 ∷ []

two_streams-AreStreams : AreStreams two_streams
unfolding AreStreams IsNotIn
two_streams-AreStreams =
    (omega arith, omega arith, (ground arith, tt), (omega arith, omega arith, tt, tt))

abbrev line_of : Option (ℕ → ℕ) → List ℕ
line_of none = []
line_of (some words) = switch_line words []

action_configure_streams-IsRoute_example :
    IsRoute
      (action_configure_streams (λ l. line_of (switch_words two_streams)) 0 [])
      io_stream_id
      two_streams
    × ((i : ℕ)
        → i < 8
        → i ≢ 0
        → IsNotIn i two_streams
        → fed_by (action_configure_streams (λ l. line_of (switch_words two_streams)) 0 []) i
          ≡ some disable)
    × (last_written
          (action_configure_streams (λ l. line_of (switch_words two_streams)) 0 [])
          switch_base
        ≡ some 2)
action_configure_streams-IsRoute_example =
    action_configure_streams-IsRoute two_streams [] (λ l. line_of (switch_words two_streams)) 0 []
      two_streams-AreStreams (λ words e. ap line_of e)

start_operators-enable_streams_example :
    (last_written (start_operators (enable_streams 1 two_streams) 8 []) (register_of 2 0)
      ≡ (if is_among (2 + 1) two_streams then some 1 else last_written [] (register_of 2 0)))
    × ((unset : ℕ) (read_config write_config : Address) (read_maps write_maps : Maps)
          (statuses : List Status)
        → runs_of (
            run_mover unset
              (enable_streams 1 two_streams)
              read_config
              write_config
              read_maps
              write_maps
              statuses
              [])
          ≡ both_runs
              (op_mem_read read_config read_maps [])
              (op_mem_write write_config write_maps statuses))
start_operators-enable_streams_example =
    start_operators-enable_streams two_streams 2 [] two_streams-AreStreams (omega arith)

-- Two words for the registers 8 and 9 of the operator of stream 3.
abbrev zero_bytes : ℕ → List ℕ
zero_bytes zero = []
zero_bytes (suc n) = 0 ∷ zero_bytes n

abbrev option_line : List ℕ
option_line = 0 ∷ 0 ∷ 0 ∷ 8 ∷ 0 ∷ 0 ∷ 0 ∷ 2 ∷ 0 ∷ 0 ∷ 0 ∷ 3 ∷ 0 ∷ 0 ∷ 0 ∷ 1 ∷ 7 ∷ zero_bytes 47

option_few : get32be 4 option_line ≤ 15
unfolding get32be
option_few = omega arith

option_room : get32be 0 option_line + 15 < 2 ^ 32
unfolding get32be
option_room = omega arith

option_stream : (1 ≤ get32be 8 option_line) × (get32be 8 option_line < 2 ^ 32)
unfolding get32be
option_stream = (omega arith, omega arith)

configure_operators-line_writes_example :
    (configure_operators (λ l. option_line) 0 []
      ≡ (registers_of (get32be 8 option_line) + 4, get32be 12 option_line)
        ∷ line_writes option_line
            (registers_of (get32be 8 option_line))
            (get32be 0 option_line)
            (get32be 4 option_line)
            0
            [])
    × ((i : ℕ) → 12 ≤ i → get32le (16 + 4 * i) option_line ≡ 0)
configure_operators-line_writes_example =
    configure_operators-line_writes (λ l. option_line) 0 option_line [] refl refl option_few
      option_room option_stream
