-- ===== src/Fpga/Peripherals.antt =====
-- axi_switch.cpp, axi_perfmon.cpp, and the jobs of mtl_jobs.cpp and operators.cpp that write to the
-- registers of the switch, of the performance monitor and of the operators.
pub mod Switch
pub mod Options
use metal_fs.Base.{
  ℕ, zero, suc, ◌+◌, ◌-◌, ◌*◌, ◌/◌, ◌%◌, ◌^◌, Option, none, some, List, [], ◌∷◌, ◌==◌,
  if◌then◌else◌, get_or,
}
use metal_fs.Fpga.Extmap.{drop}

-- What is written to `metal_ctrl`, as an index and a value, the last write first.
abbrev pub Writes : Type 0
Writes = List (ℕ × ℕ)

unfoldable pub last_written : Writes → ℕ → Option ℕ
last_written [] i = none
last_written ((j, v) ∷ ws) i = if j == i then some v else last_written ws i

abbrev pub perfmon_base : ℕ
perfmon_base = 0x44A10000 / 4

abbrev pub switch_base : ℕ
switch_base = 0x44A40000 / 4

abbrev pub operator_base : ℕ
operator_base = 0x44A50000 / 4

abbrev pub operator_offset : ℕ
operator_offset = 0x10000 / 4

-- A big-endian 32-bit word in a memory line of bytes, from byte `lowest` on.
unfoldable pub get32be : (lowest : ℕ) → List ℕ → ℕ
get32be lowest line =
    let b = λ (i : ℕ). get_or line (lowest + i) 0 in b 0 * 2 ^ 24 + b 1 * 2 ^ 16 + b 2 * 2 ^ 8 + b 3

-- `data_out` is the master port, which the slave port `data_in` feeds.
abbrev pub switch_set_mapping : (data_in data_out : ℕ) → Writes → Writes
switch_set_mapping data_in data_out ws = (switch_base + 0x40 / 4 + data_out, data_in) ∷ ws

abbrev pub switch_commit : Writes → Writes
switch_commit ws = (switch_base, 2) ∷ ws

-- The job `ConfigureStreams`; it always succeeds.
unfoldable pub action_configure_streams :
    (memory : ℕ → List ℕ) → (job_address : ℕ) → Writes → Writes
unfolding get32be
action_configure_streams memory job_address w0 =
    let line = memory (job_address / 64) in
    let w1 = switch_set_mapping (get32be 0 line) 0 w0 in
    let w2 = switch_set_mapping (get32be 4 line) 1 w1 in
    let w3 = switch_set_mapping (get32be 8 line) 2 w2 in
    let w4 = switch_set_mapping (get32be 12 line) 3 w3 in
    let w5 = switch_set_mapping (get32be 16 line) 4 w4 in
    let w6 = switch_set_mapping (get32be 20 line) 5 w5 in
    let w7 = switch_set_mapping (get32be 24 line) 6 w6 in
    let w8 = switch_set_mapping (get32be 28 line) 7 w7 in switch_commit w8

-- The low 32 bits of a memory line, from byte `lowest` on.
unfoldable pub get32le : (lowest : ℕ) → List ℕ → ℕ
get32le lowest line =
    let b = λ (i : ℕ). get_or line (lowest + i) 0 in b 0 + b 1 * 2 ^ 8 + b 2 * 2 ^ 16 + b 3 * 2 ^ 24

-- The loop of `configure_operators`. `line_offset` has 8 bits; a shifted line is filled with zeros.
unfoldable pub configure_loop :
    (memory : ℕ → List ℕ)
    → (first_line register : ℕ) → (rest offset line_offset : ℕ) → (line : List ℕ) → Writes
    → Writes
unfolding get32le
configure_loop memory first_line register zero offset line_offset line ws = ws
configure_loop memory first_line register (suc rest) offset line_offset line ws =
    let here = if (line_offset % 64) == 0 then memory (first_line + line_offset / 64) else line in
    configure_loop memory first_line register rest ((offset + 1) % 2 ^ 32)
      ((line_offset + 4) % 2 ^ 8) (drop 4 here) ((register + offset, get32le 0 here) ∷ ws)

-- The job `ConfigureOperator`: the options, then the register that enables a preparation run.
unfoldable pub configure_operators : (memory : ℕ → List ℕ) → (job_address : ℕ) → Writes → Writes
unfolding get32be configure_loop
configure_operators memory job_address ws =
    let line = memory (job_address / 64) in
    let op = (get32be 8 line + 2 ^ 32 - 1) % 2 ^ 32 in
    let register = operator_base + op * operator_offset in
    let ws' =
      configure_loop memory (job_address / 64) register (get32be 4 line) (get32be 0 line) 4
        (drop 16 line) ws in
    (register + 4, get32be 12 line) ∷ ws'

-- The monitor's `stream_id` in the selection of a metric slot.
abbrev metric : (slot stream_id : ℕ) → ℕ
metric slot stream_id = stream_id * 2 ^ (slot * 8 + 5)

unfoldable pub perfmon_reset : Writes → Writes
perfmon_reset ws = (perfmon_base + 0x300 / 4, 0x00020002) ∷ ws

unfoldable pub perfmon_enable : Writes → Writes
perfmon_enable ws = (perfmon_base + 0x300 / 4, 0x00010001) ∷ ws

unfoldable pub perfmon_disable : Writes → Writes
perfmon_disable ws = (perfmon_base + 0x300 / 4, 0) ∷ ws
