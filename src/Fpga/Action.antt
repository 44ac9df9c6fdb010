-- ===== src/Fpga/Action.antt =====
-- mtl_jobs.cpp and operators.cpp with NVME_ENABLED: the jobs that the host gives the FPGA. What the
-- registers hold when they are read, and the interrupt lines of the operators at each reading, are
-- parameters.
use metal_fs.Base.{
  ℕ, zero, suc, ◌+◌, ◌-◌, ◌*◌, ◌/◌, ◌%◌, ◌^◌, Bool, Option, none, some, List, [], ◌∷◌, leb, ◌==◌,
  if◌then◌else◌,
}
use metal_fs.Fpga.Types.{Address}
use metal_fs.Fpga.Jobs.{Extmaps}
use metal_fs.Fpga.Transfer.{Maps}
use metal_fs.Fpga.Peripherals.{Writes, operator_base, operator_offset}
use metal_fs.Fpga.Streams.{
  NvmeCommand, Status, Stored, ReadRun, generated, loaded, op_mem_read, op_mem_write,
}

abbrev pub bit : (mask i : ℕ) → Bool
bit mask i = (mask / 2 ^ i % 2) == 1

abbrev pub register_of : (operator register : ℕ) → ℕ
register_of operator register = operator_base + operator * operator_offset + register

-- "Wait until operator has taken back the interrupt": the readings after the first without it.
unfoldable pub wait_clear : (i : ℕ) → (readings : List ℕ) → Option (List ℕ)
wait_clear i [] = none
wait_clear i (r ∷ rs) = if bit r i then wait_clear i rs else some rs

-- The loop of `clear_operator_interrupts` from operator `8 - rest` on.
unfoldable pub clear_loop :
    (set_interrupts rest : ℕ) → (readings : List ℕ) → Writes → Option (List ℕ × Writes)
unfolding wait_clear
clear_loop set_interrupts zero rs ws = some (rs, ws)
clear_loop set_interrupts (suc rest) rs ws =
    if bit set_interrupts (7 - rest)
    then elim (wait_clear (7 - rest) rs) [
      | none ↦ none
      | some rs' ↦ clear_loop set_interrupts rest rs' ((register_of (7 - rest) 3, 1) ∷ ws)
    ]
    else clear_loop set_interrupts rest rs ws

unfoldable pub clear_operator_interrupts : (readings : List ℕ) → Writes → Option (List ℕ × Writes)
unfolding clear_loop
clear_operator_interrupts [] ws = none
clear_operator_interrupts (r ∷ rs) ws = clear_loop r 8 rs ws

unfoldable pub wait_for : (lines : ℕ) → (readings : List ℕ) → Option (List ℕ)
wait_for lines [] = none
wait_for lines (r ∷ rs) = if r == lines then some rs else wait_for lines rs

-- The mask has 8 bits here, and the bit of the I/O subsystem has no interrupt line.
unfoldable pub poll_interrupts : (enable_mask : ℕ) → (readings : List ℕ) → Option (List ℕ)
unfolding wait_for
poll_interrupts enable_mask rs =
    let mask = enable_mask % 2 ^ 8 in if leb mask 1 then some rs else wait_for (mask / 2) rs

-- The two loops over the operators, from operator `8 - rest` on.
unfoldable pub start_operators : (enable_mask rest : ℕ) → Writes → Writes
start_operators enable_mask zero ws = ws
start_operators enable_mask (suc rest) ws =
    let i = 7 - rest in
    start_operators enable_mask rest (
      if bit enable_mask (i + 1)
      then (register_of i 2, 1) ∷ (register_of i 1, 1) ∷ (register_of i 0, 1) ∷ ws
      else ws)

unfoldable pub finish_operators : (enable_mask rest : ℕ) → Writes → Writes
finish_operators enable_mask zero ws = ws
finish_operators enable_mask (suc rest) ws =
    let i = 7 - rest in
    finish_operators enable_mask rest
      (if bit enable_mask (i + 1) then (register_of i 4, 0) ∷ ws else ws)

-- The state that the jobs work on.
pub record Device : Type 0 where
  pub maps : Extmaps
  pub writes : Writes
  pub read_config : Address
  pub write_config : Address

-- The commands that a run of the operators gives, in each stream.
pub record Issue : Type 0 where
  pub preloads : List NvmeCommand
  pub read_run : Option ReadRun
  pub write_run : Option Stored

abbrev pub reading_maps : Extmaps → Maps
reading_maps ms = record { dram = ms.dram_read; nvme = ms.nvme_reading }

abbrev pub writing_maps : Extmaps → Maps
writing_maps ms = record { dram = ms.dram_write; nvme = ms.nvme_writing }

abbrev pub maps_after : Maps → Option ReadRun → Maps
maps_after m none = m
maps_after m (some (generated ws)) = m
maps_after m (some (loaded r)) = r.maps

abbrev pub writes_after : Writes → ReadRun → Writes
writes_after ws (generated ws') = ws'
writes_after ws (loaded r) = ws

abbrev pub stored_maps : Maps → Option Stored → Maps
stored_maps m none = m
stored_maps m (some s) = s.maps

abbrev pub stored_size : Option Stored → ℕ
stored_size none = 0
stored_size (some s) = s.size

-- What a run of the data mover leaves: the run of each direction, and the writes to the registers.
pub record Mover : Type 0 where
  pub read_run : Option ReadRun
  pub write_run : Option Stored
  pub bytes_written : ℕ
  pub writes : Writes

-- `do_run_operators`, if the mask enables the I/O subsystem; else `bytes_written` is not set.
unfoldable pub run_mover :
    (unset enable_mask : ℕ)
    → (read_config write_config : Address) → (read_maps write_maps : Maps) → List Status
    → Writes
    → Option Mover
unfolding op_mem_read op_mem_write
run_mover unset enable_mask read_config write_config read_maps write_maps statuses ws =
    if bit enable_mask 0
    then elim (op_mem_read read_config read_maps ws) [
      | none ↦ none
      | some r ↦ elim (op_mem_write write_config write_maps statuses) [
        | none ↦ none
        | some w ↦ some (record {
          read_run = some r;
          write_run = w;
          bytes_written = stored_size w;
          writes = writes_after ws r;
        })
      ]
    ]
    else some (record { read_run = none; write_run = none; bytes_written = unset; writes = ws })

-- The result of a run: the device, the commands, the size, and the readings that are left.
pub record Operated : Type 0 where
  pub device : Device
  pub issue : Issue
  pub bytes_written : ℕ
  pub readings : List ℕ

abbrev pub operated :
    Device → List NvmeCommand → Maps → (enable_mask : ℕ) → (readings : List ℕ) → Mover → Operated
operated d preloads preloaded enable_mask readings m =
    let read_maps = maps_after (reading_maps d.maps) m.read_run in
    let write_maps = stored_maps preloaded m.write_run in
    record {
      device = record d {
        maps = record {
          dram_read = read_maps.dram;
          dram_write = write_maps.dram;
          nvme_reading = read_maps.nvme;
          nvme_writing = write_maps.nvme;
        };
        writes = finish_operators enable_mask 8 m.writes;
      };
      issue = record { preloads = preloads; read_run = m.read_run; write_run = m.write_run };
      bytes_written = m.bytes_written;
      readings = readings;
    }

-- `action_run_operators`: the interrupts are waited for while the operators run.
unfoldable pub action_run_operators :
    (unset : ℕ)
    → Device
    → List NvmeCommand
    → (write_maps : Maps) → (enable_mask : ℕ) → List Status
    → (readings : List ℕ) → Option Operated
unfolding run_mover poll_interrupts start_operators finish_operators
action_run_operators unset d preloads write_maps enable_mask statuses readings =
    elim (poll_interrupts enable_mask readings) [
      | none ↦ none
      | some rest ↦
          elim (run_mover unset enable_mask d.read_config d.write_config (reading_maps d.maps)
            write_maps statuses (start_operators enable_mask 8 d.writes)) [
              | none ↦ none
              | some m ↦ some (operated d preloads write_maps enable_mask rest m)
            ]
    ]
