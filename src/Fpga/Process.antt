-- ===== src/Fpga/Process.antt =====
-- `process_action` of mtl_jobs.cpp with NVME_ENABLED, and the jobs of axi_perfmon.cpp and of the
-- image's description.
pub mod Enabled
use metal_fs.Base.{
  ℕ, zero, suc, ◌+◌, ◌*◌, ◌/◌, ◌%◌, ◌^◌, Bool, true, false, Option, none, some, List, [], ◌∷◌, ◌++◌,
  ltb, ◌==◌, if◌then◌else◌,
}
use metal_fs.Fpga.Types.{Address, writes}
use metal_fs.Fpga.Extmap.{get64be, drop}
use metal_fs.Fpga.Jobs.{action_map}
use metal_fs.Fpga.Transfer.{Maps}
use metal_fs.Fpga.Peripherals.{
  Writes, perfmon_base, action_configure_streams, configure_operators, perfmon_reset,
  perfmon_enable,
}
use metal_fs.Fpga.Streams.{NvmeCommand, is_nvme, Status, op_mem_set_config}
use metal_fs.Fpga.Streams.Preload.{preload_nvme_blocks}
use metal_fs.Fpga.Action.{
  clear_operator_interrupts, Device, Issue, writing_maps, action_run_operators,
}
use metal_fs.Pipeline.MapJob.{be64}
use metal_fs.Pipeline.Stages.{be32}
use Prim.Native.Nat.{bit_or}

-- The `job_type` of a job; other numbers run into the `default` branch.
pub data JobType : Type 0 where
  read_image_info map_job configure_streams configure_perfmon : JobType
  reset_perfmon read_perfmon_counters run_operators configure_operator unknown : JobType

-- The `action_reg`: the job and what it returns in `direct_data[2]`.
pub record ActionReg : Type 0 where
  pub job_type : JobType
  pub job_address : ℕ
  pub source : Address
  pub destination : Address
  pub direct_data0 : ℕ
  pub direct_data1 : ℕ
  pub direct_data2 : ℕ

abbrev pub zeros : ℕ → List ℕ
zeros zero = []
zeros (suc n) = 0 ∷ zeros n

-- A line of 64 bytes of which the first are set.
abbrev pub filled : ℕ → List ℕ → List ℕ
filled zero bytes = []
filled (suc n) [] = zeros (suc n)
filled (suc n) (b ∷ bytes) = b ∷ filled n bytes

abbrev pub le32 : ℕ → List ℕ
le32 w = w % 256 ∷ w / 2 ^ 8 % 256 ∷ w / 2 ^ 16 % 256 ∷ w / 2 ^ 24 % 256 ∷ []

abbrev pub store_line : (ℕ → List ℕ) → ℕ → List ℕ → ℕ → List ℕ
store_line memory line bytes l = if l == line then bytes else memory l

-- The loop over the words of the description from byte `i` on, with the line so far.
unfoldable pub info_loop :
    (info : ℕ → ℕ) → (first_line rest i : ℕ) → (line : List ℕ) → (ℕ → List ℕ) → ℕ → List ℕ
info_loop info first_line zero i line memory =
    if (i % 64) == 0 then memory else store_line memory (first_line + i / 64) (filled 64 line)
info_loop info first_line (suc rest) i line memory =
    let here = line ++ le32 (info ((4096 + i) / 4)) in
    if (i % 64) == 60
    then info_loop info first_line rest (i + 4) [] (store_line memory (first_line + i / 64) here)
    else info_loop info first_line rest (i + 4) here memory

-- The memory with the description, and the length that was read.
unfoldable pub read_info : (info : ℕ → ℕ) → (job_address : ℕ) → (ℕ → List ℕ) → (ℕ → List ℕ) × ℕ
unfolding info_loop
read_info info job_address memory =
    let read_len = if ltb 4096 (info 0) then 4096 else info 0 in
    (info_loop info (job_address / 64) ((read_len + 3) / 4) 0 [] memory, read_len)

-- The stream's bits in a slot of a selection register.
abbrev selected : (metrics slot stream_id : ℕ) → ℕ
selected metrics slot stream_id = bit_or metrics (stream_id * 2 ^ (slot * 8 + 5)) % 2 ^ 32

unfoldable pub action_configure_perfmon : (stream_id0 stream_id1 : ℕ) → Writes → Writes
action_configure_perfmon stream_id0 stream_id1 ws =
    let s0 = stream_id0 % 2 ^ 8 in
    let s1 = stream_id1 % 2 ^ 8 in
    let metrics_0 = selected (selected (selected (selected 0x15121110 0 s0) 1 s0) 2 s0) 3 s0 in
    let metrics_1 = selected (selected (selected (selected 0x12111016 0 s0) 1 s1) 2 s1) 3 s1 in
    let metrics_2 = selected (selected 0x00001615 0 s1) 1 s1 in
    (perfmon_base + 0x4C / 4, metrics_2)
    ∷ (perfmon_base + 0x48 / 4, metrics_1)
    ∷ (perfmon_base + 0x44 / 4, metrics_0)
    ∷ ws

-- The line of counters: the clock, then ten metrics.
unfoldable pub perfmon_line : (registers : ℕ → ℕ) → List ℕ
unfolding be64 be32
perfmon_line registers =
    let metric = λ (k : ℕ). be32 (registers (0x100 / 4 + k * 4)) in
    filled 64 (
      be64 (registers 0 * 2 ^ 32 + registers 1)
      ++ metric 0
      ++ metric 1
      ++ metric 2
      ++ metric 3
      ++ metric 4
      ++ metric 5
      ++ metric 6
      ++ metric 7
      ++ metric 8
      ++ metric 9)

-- What the environment has for a job: the values of the registers of the image's description and of
-- the monitor, the statuses of the data mover, the readings of the interrupt lines, and the size
-- that stands in the variable before it is set.
pub record Environment : Type 0 where
  pub info : ℕ → ℕ
  pub counters : ℕ → ℕ
  pub statuses : List Status
  pub readings : List ℕ
  pub unset : ℕ

-- What a job leaves: the device, the memory, the register, the commands if the operators ran, and
-- whether the result is `SNAP_RETC_SUCCESS`.
pub record Processed : Type 0 where
  pub device : Device
  pub memory : ℕ → List ℕ
  pub reg : ActionReg
  pub issue : Option Issue
  pub success : Bool

abbrev pub with_writes : Device → (ℕ → List ℕ) → ActionReg → Writes → Processed
with_writes d memory reg ws = record {
  device = record d { writes = ws };
  memory = memory;
  reg = reg;
  issue = none;
  success = true;
}

-- Before the operators run: the configurations are set and the interrupts are cleared.
unfoldable pub prepare_run : ActionReg → Environment → Device → Option (List ℕ × Device)
unfolding op_mem_set_config clear_operator_interrupts
prepare_run reg env d =
    let ws = op_mem_set_config reg.destination false (op_mem_set_config reg.source true d.writes) in
    elim (clear_operator_interrupts env.readings ws) [
      | none ↦ none
      | some (rest, ws') ↦ some (
        rest,
        record d { writes = ws'; read_config = reg.source; write_config = reg.destination },
      )
    ]

abbrev pub perfmon_started : ActionReg → Device → Device
perfmon_started reg d =
    if reg.direct_data1 == 1 then record d { writes = perfmon_enable d.writes } else d

abbrev pub perfmon_stopped : ActionReg → Writes → Writes
perfmon_stopped reg ws = if reg.direct_data1 == 1 then (perfmon_base + 0x300 / 4, 0) ∷ ws else ws

abbrev pub preloaded : Address → Maps → List NvmeCommand × Maps
preloaded a m = if is_nvme a.type then preload_nvme_blocks a m else ([], m)

-- The job `RunOperators`.
unfoldable pub run_job : (ℕ → List ℕ) → ActionReg → Environment → Device → Option Processed
unfolding prepare_run action_run_operators
run_job memory reg env d = elim (prepare_run reg env d) [
  | none ↦ none
  | some (readings, d1) ↦
      let (commands, maps) = preloaded d1.write_config (writing_maps d1.maps) in
      elim (action_run_operators env.unset (perfmon_started reg d1) commands maps reg.direct_data0
        env.statuses readings) [
          | none ↦ none
          | some o ↦ some (record {
            device = record o.device { writes = perfmon_stopped reg o.device.writes };
            memory = memory;
            reg = record reg { direct_data2 = o.bytes_written };
            issue = some o.issue;
            success = true;
          })
        ]
]

-- `none` where the job waits for ever.
unfoldable pub process_action : (ℕ → List ℕ) → ActionReg → Environment → Device → Option Processed
unfolding read_info action_map action_configure_streams action_configure_perfmon perfmon_line
    perfmon_reset configure_operators run_job
process_action memory reg env d = elim reg.job_type [
  | read_image_info ↦
      let (memory', len) = read_info env.info reg.job_address memory in
      some (record {
        device = d;
        memory = memory';
        reg = record reg { direct_data2 = len };
        issue = none;
        success = true;
      })
  | map_job ↦
      let (maps, success) = action_map memory reg.job_address d.maps in
      some (record {
        device = record d { maps = maps };
        memory = memory;
        reg = reg;
        issue = none;
        success = success;
      })
  | configure_streams ↦
      some (with_writes d memory reg (action_configure_streams memory reg.job_address d.writes))
  | reset_perfmon ↦ some (with_writes d memory reg (perfmon_reset d.writes))
  | configure_perfmon ↦
      let line = memory (reg.job_address / 64) in
      some (
        with_writes d memory reg
          (action_configure_perfmon (get64be line) (get64be (drop 8 line)) d.writes))
  | read_perfmon_counters ↦ some (
      with_writes d (store_line memory (reg.job_address / 64) (perfmon_line env.counters)) reg
        d.writes)
  | run_operators ↦ run_job memory reg env d
  | configure_operator ↦
      some (with_writes d memory reg (configure_operators memory reg.job_address d.writes))
  | unknown ↦
      some (record { device = d; memory = memory; reg = reg; issue = none; success = false })
]
