-- ===== src/Fpga/Streams.antt =====
-- mtl_op_mem.cpp with NVME_ENABLED: the stages between the elements of a transfer and the commands
-- for the data mover and the NVMe controller. A stage takes what its input streams bring in order
-- and gives what it writes; it is `none` where it waits for ever. How many responses of the NVMe
-- controller a stage waits for is part of the result.
pub mod Load
pub mod Store
pub mod Preload
use metal_fs.Base.{
  ℕ, ◌+◌, ◌-◌, ◌/◌, ◌%◌, ◌^◌, Bool, true, false, Option, none, some, List, [], ◌∷◌, ◌++◌, ltb,
  if◌then◌else◌,
}
use metal_fs.Fs.Types.{add64, mul64}
use metal_fs.Fpga.Types.{
  storage_block_size, dram_base_offset, nvme_dram_base_offset, AddressType, host, card_dram, nvme,
  null, random, Address, Element, reads, writes,
}
use metal_fs.Fpga.Transfer.{Maps, Issued, issue_partial_transfers}
use metal_fs.Fpga.Peripherals.{Writes}

-- `transfer_bytes` has 23 bits; the burst type is always 1.
pub record MoverCommand : Type 0 where
  pub effective_address : ℕ
  pub end_of_frame : Bool
  pub transfer_bytes : ℕ

-- `num_blocks` is always 511 and `drive` 0.
pub record NvmeCommand : Type 0 where
  pub dram_offset : ℕ
  pub nvme_block_offset : ℕ

unfoldable pub block_transfer_command : (transfer_bytes : ℕ) → Bool → (address : ℕ) → MoverCommand
block_transfer_command transfer_bytes end_of_frame address = record {
  effective_address = address;
  end_of_frame = end_of_frame;
  transfer_bytes = transfer_bytes % 2 ^ 23;
}

-- The address in DRAM loses its offset in the block.
unfoldable pub nvme_block_transfer_command : (nvme_address dram_address : ℕ) → NvmeCommand
nvme_block_transfer_command nvme_address dram_address = record {
  dram_offset = dram_address - dram_address % storage_block_size;
  nvme_block_offset = mul64 (nvme_address / storage_block_size) (storage_block_size / 512);
}

abbrev pub is_nvme : AddressType → Bool
is_nvme nvme = true
is_nvme host = false
is_nvme card_dram = false
is_nvme null = false
is_nvme random = false

-- The addresses of the card's memory start at `DRAMBaseOffset` for the data mover.
abbrev pub mover_address : AddressType → ℕ → ℕ
mover_address host address = address
mover_address null address = address
mover_address random address = address
mover_address card_dram address = add64 address dram_base_offset
mover_address nvme address = add64 address dram_base_offset

-- What an NVMe stage passes on, its commands, and the responses that it waits for.
pub record NvmeRun : Type 0 where
  pub passed : List Element
  pub commands : List NvmeCommand
  pub responses : ℕ

abbrev pub nvme_command_of : Element → ℕ → NvmeCommand
nvme_command_of e nvme_address =
    nvme_block_transfer_command nvme_address (add64 nvme_dram_base_offset e.address)

-- An element in front of the run of the later ones, with a command or without.
abbrev pub after_nvme : Element → List NvmeCommand → Option NvmeRun → Option NvmeRun
after_nvme e cs none = none
after_nvme e cs (some r) = some (record {
  passed = e ∷ r.passed;
  commands = cs ++ r.commands;
  responses = if is_nvme e.type then r.responses + 1 else r.responses;
})

abbrev pub nothing_more : NvmeRun
nothing_more = record { passed = []; commands = []; responses = 0 }

-- "There must be an item in the queue": the addresses that `issue_partial_transfers` has written.
unfoldable pub load_nvme_data : List Element → (queue : List ℕ) → Option NvmeRun
load_nvme_data [] queue = none
load_nvme_data (e ∷ es) [] =
    if is_nvme e.type
    then none
    else after_nvme e [] (if e.last then some nothing_more else load_nvme_data es [])
load_nvme_data (e ∷ es) (x ∷ queue) =
    if is_nvme e.type
    then after_nvme e (nvme_command_of e x ∷ [])
        (if e.last then some nothing_more else load_nvme_data es queue)
    else after_nvme e [] (if e.last then some nothing_more else load_nvme_data es (x ∷ queue))

abbrev pub command_of : Element → MoverCommand
command_of e = block_transfer_command e.size e.last (mover_address e.type e.address)

abbrev pub in_front : MoverCommand → Option (List MoverCommand) → Option (List MoverCommand)
in_front c none = none
in_front c (some cs) = some (c ∷ cs)

unfoldable pub transfer_to_stream : List Element → Option (List MoverCommand)
unfolding block_transfer_command
transfer_to_stream [] = none
transfer_to_stream (e ∷ es) =
    in_front (command_of e) (if e.last then some [] else transfer_to_stream es)

-- The commands of a read, and the responses of the NVMe controller that it waits for.
pub record Loaded : Type 0 where
  pub nvme_commands : List NvmeCommand
  pub mover_commands : List MoverCommand
  pub responses : ℕ
  pub maps : Maps

abbrev pub finish_load : Maps → Option NvmeRun → Option Loaded
finish_load maps none = none
finish_load maps (some r) = elim (transfer_to_stream r.passed) [
  | none ↦ none
  | some cs ↦ some (record {
    nvme_commands = r.commands;
    mover_commands = cs;
    responses = r.responses;
    maps = maps;
  })
]

unfoldable pub load_data : Address → Maps → Option Loaded
load_data a maps = elim (issue_partial_transfers reads a maps) [
  | none ↦ none
  | some i ↦ finish_load i.maps (load_nvme_data i.elements i.nvme_transfers)
]

-- A status of the data mover with an indeterminate number of bytes to transfer.
pub record Status : Type 0 where
  pub bytes : ℕ
  pub end_of_packet : Bool

-- What the stage passes on, its commands, and the sum of the bytes of the statuses.
pub record StreamRun : Type 0 where
  pub passed : List Element
  pub commands : List MoverCommand
  pub size : ℕ

abbrev pub after_transfer :
    Element → List MoverCommand → (bytes : ℕ) → Option StreamRun → Option StreamRun
after_transfer e cs bytes none = none
after_transfer e cs bytes (some r) =
    some (record { passed = e ∷ r.passed; commands = cs ++ r.commands; size = add64 bytes r.size })

abbrev pub no_transfer : StreamRun
no_transfer = record { passed = []; commands = []; size = 0 }

abbrev pub emptied : Element → Element
emptied e = record e { size = 0 }

-- The elements behind the end of the packet are passed on without a command and with size 0.
unfoldable pub skip_transfers : List Element → Option StreamRun
skip_transfers [] = none
skip_transfers (e ∷ es) =
    after_transfer (emptied e) [] 0 (if e.last then some no_transfer else skip_transfers es)

unfoldable pub transfer_from_stream : List Element → List Status → Option StreamRun
unfolding skip_transfers
transfer_from_stream [] statuses = none
transfer_from_stream (e ∷ es) [] = none
transfer_from_stream (e ∷ es) (s ∷ statuses) =
    let rest = if s.end_of_packet then skip_transfers es else transfer_from_stream es statuses in
    after_transfer e (command_of e ∷ []) s.bytes (if e.last then some no_transfer else rest)

-- `write_nvme_data`: no command for an element of size 0, but a response is waited for.
abbrev pub write_command : Element → ℕ → List NvmeCommand
write_command e x = if ltb 0 e.size then nvme_command_of e x ∷ [] else []

unfoldable pub write_nvme_data : List Element → (queue : List ℕ) → Option NvmeRun
write_nvme_data [] queue = none
write_nvme_data (e ∷ es) [] =
    if is_nvme e.type
    then none
    else after_nvme e [] (if e.last then some nothing_more else write_nvme_data es [])
write_nvme_data (e ∷ es) (x ∷ queue) =
    if is_nvme e.type
    then after_nvme e (write_command e x)
        (if e.last then some nothing_more else write_nvme_data es queue)
    else after_nvme e [] (if e.last then some nothing_more else write_nvme_data es (x ∷ queue))

-- The commands of a write, the responses that it waits for, and the size that it reports.
pub record Stored : Type 0 where
  pub nvme_commands : List NvmeCommand
  pub mover_commands : List MoverCommand
  pub responses : ℕ
  pub size : ℕ
  pub maps : Maps

abbrev pub finish_store : Issued → Option StreamRun → Option Stored
finish_store i none = none
finish_store i (some s) = elim (write_nvme_data s.passed i.nvme_transfers) [
  | none ↦ none
  | some r ↦ some (record {
    nvme_commands = r.commands;
    mover_commands = s.commands;
    responses = r.responses;
    size = s.size;
    maps = i.maps;
  })
]

unfoldable pub write_data : Address → Maps → List Status → Option Stored
write_data a maps statuses = elim (issue_partial_transfers writes a maps) [
  | none ↦ none
  | some i ↦ finish_store i (transfer_from_stream i.elements statuses)
]

-- The two operations on memory as the operators' control runs them: the commands, and what is
-- written to `metal_ctrl`.
abbrev pub random_base : ℕ
random_base = 0x44A30000 / 4

pub data ReadRun : Type 0 where
  generated : Writes → ReadRun
  loaded : Loaded → ReadRun

-- The registers of the generator, or a transfer to the stream.
unfoldable pub op_mem_read : Address → Maps → Writes → Option ReadRun
op_mem_read config maps ws = elim config.type [
  | random ↦ some (generated ((random_base, 1) ∷ (random_base + 0x10 / 4, config.size) ∷ ws))
  | _ ↦ elim (load_data config maps) [ none ↦ none | some r ↦ some (loaded r) ]
]

-- `none` inside: nothing is written, and the size is 0.
unfoldable pub op_mem_write : Address → Maps → List Status → Option (Option Stored)
op_mem_write config maps statuses = elim config.type [
  | null ↦ some none
  | random ↦ some none
  | _ ↦ elim (write_data config maps statuses) [ none ↦ none | some r ↦ some (some r) ]
]

abbrev pub preselect_base : ℕ
preselect_base = 0x44A20000 / 4

abbrev pub preselect : (data_in data_out : ℕ) → Writes → Writes
preselect data_in data_out ws = (preselect_base + 0x40 / 4 + data_out, data_in) ∷ ws

-- `op_mem_set_config`: the writes to the switch in front of the data mover.
unfoldable pub op_mem_set_config : Address → (read : Bool) → Writes → Writes
op_mem_set_config config read ws = (preselect_base, 2) ∷ elim read [
  | true ↦ elim config.type [ random ↦ preselect 1 0 ws | null ↦ ws | _ ↦ preselect 0 0 ws ]
  | false ↦ elim config.type [
    | null ↦ preselect 2 2 (preselect 0x80000000 1 ws)
    | random ↦ ws
    | _ ↦ preselect 0x80000000 2 (preselect 2 1 ws)
  ]
]
