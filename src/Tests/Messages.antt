-- ===== src/Tests/Messages.antt =====
-- The driver, its agents and the program that stands for an operator, at concrete inputs.
use metal_fs.Base.{
  ℕ, ◌+◌, ◌*◌, ◌/◌, ◌^◌, ◌≡◌, refl, Bool, true, false, Option, none, some, List, [], ◌∷◌, arith,
  ◌==◌, if◌then◌else◌,
}
use metal_fs.Fpga.Types.{card_dram, dram_map}
use metal_fs.Pipeline.Card.{Outcome, done, Job, World, DataPlace, Holds}
use metal_fs.Pipeline.FileSource.{FileSource}
use metal_fs.Pipeline.FileSink.{FileSink}
use metal_fs.Pipeline.Runner.{SinkOps, PipelineOps, Ran}
use metal_fs.Driver.AgentSource.{buffer_size, Request, Peers, AgentSource}
use metal_fs.Driver.AgentSource.Datagen.{loop_agent, AllGenerated, run_loop-AllGenerated}
use metal_fs.Driver.AgentSink.Exchange.{only_source, only_sink}
use metal_fs.Driver.AgentSink.Exchange.Answers.{agent_loop, Answered, run_loop-AnswersTo}
use metal_fs.Driver.Placeholder.{run_client, mount_point_of}
use metal_fs.Driver.Placeholder.Mounts.{IsMountPoint, mount_point_of-IsMountPoint}
use metal_fs.Driver.Placeholder.Talk.{Converse, run_client-run_loop}
use metal_fs.Tests.{memory, fresh}

abbrev any_card : List Job → Option ℕ
any_card jobs = some 2

abbrev idle_world : World memory
idle_world = record { metadata = fresh; dram = none; jobs = [] }

abbrev idle_file : FileSource
idle_file = record {
  inode_id = 0;
  source = record { address = 0; size = 0; type = card_dram; map_type = dram_map };
  file_length = 0;
  extents = [];
}

abbrev idle_sink : FileSink
idle_sink = record {
  inode_id = 0;
  truncate_on_finalize = false;
  sink = idle_file.source;
  cached_total_size = 0;
  extents = [];
}

abbrev chunk_of : ℕ → Bool → Request
chunk_of n last = record { size = n; eof = last }

-- Agent 4 sends a full buffer and then five bytes.
abbrev two_chunks : List Request
two_chunks = chunk_of buffer_size false ∷ chunk_of 5 true ∷ []

abbrev peers : Peers memory
peers = record {
  world = idle_world;
  requests = λ b. if b == 4 then two_chunks else [];
  log = λ b. [];
}

-- An operator that keeps every other byte.
abbrev halve : World memory → DataPlace → DataPlace → World memory × ℕ
halve w from to = (w, from.size / 2)

abbrev keep : World memory → World memory
keep w = w

run_loop-AnswersTo_example :
    Answered memory 64 any_card [] keep halve 4 0
      (2 ^ 30)
      0
      idle_file
      idle_sink
      peers
      false
      false
      false
      two_chunks
      []
      (agent_loop memory 64 any_card [] keep halve 4 0
        (2 ^ 30)
        0
        idle_file
        idle_sink
        2
        false
        peers
        (only_source 4 0 false idle_file (chunk_of 0 false) 0)
        (only_sink 4 (2 ^ 30) false false idle_sink))
run_loop-AnswersTo_example =
    run_loop-AnswersTo memory 64 any_card [] keep halve 4 0 (2 ^ 30) 0 idle_file idle_sink 2 false
      peers (chunk_of 0 false) two_chunks [] false false false (refl, refl) (omega arith) refl

run_client-run_loop_example :
    Converse memory 64 any_card [] keep halve 4 0
      (2 ^ 30)
      0
      idle_file
      idle_sink
      peers
      false
      false
      false
      true
      two_chunks
      (agent_loop memory 64 any_card [] keep halve 4 0
        (2 ^ 30)
        0
        idle_file
        idle_sink
        2
        false
        peers
        (only_source 4 0 false idle_file (chunk_of 0 false) 0)
        (only_sink 4 (2 ^ 30) false false idle_sink))
      (run_client true true two_chunks)
run_client-run_loop_example =
    run_client-run_loop memory 64 any_card [] keep halve 4 0 (2 ^ 30) 0 idle_file idle_sink true
      false peers (chunk_of 0 false) (chunk_of buffer_size false) (chunk_of 5 true ∷ []) [] false
      false false 2 (refl, refl) (omega arith) refl refl

-- `datagen` with a buffer and a half to generate.
abbrev generator : AgentSource
generator = record {
  agent = 4;
  input_buffer = none;
  current = false;
  is_datagen = true;
  file = idle_file;
  skip_sending = false;
  remaining = buffer_size + 32 * 1024 * 1024;
  size = 0;
  eof = false;
}

-- A sink that takes everything, as `DefaultDataSinkContext`.
abbrev any_sink : SinkOps (Peers memory) DataPlace
any_sink = record {
  prepare = λ w k total_size. done (w, k);
  accept = λ initial w k input_size. done (w, k);
  data_sink = λ k. done k;
  close = λ w k output_size end_of_input. done (w, k);
}

abbrev keep_peers : Peers memory → Outcome (Peers memory)
keep_peers p = done p

abbrev halve_peers : PipelineOps (Peers memory) AgentSource DataPlace
halve_peers = record {
  pre_run = λ initialize p s k. done p;
  run_pipeline = λ p from to. done (p, from.size / 2);
  post_run = λ finalize p s k. done p;
}

run_loop-AllGenerated_example :
    (o : Outcome (Ran (Peers memory) AgentSource DataPlace)) × (loop_agent memory any_card []
        any_sink keep_peers halve_peers 2 false peers generator idle_file.source
      ≡ some o)
    × Holds (AllGenerated memory any_card [] any_sink keep_peers halve_peers) o
run_loop-AllGenerated_example =
    run_loop-AllGenerated memory any_card [] any_sink keep_peers halve_peers 2 false peers generator
      idle_file.source (refl, refl, omega arith, omega arith, omega arith)

-- `/`, `/m` and `/m/f` are mounted.
abbrev mounts : List (List ℕ)
mounts = (47 ∷ []) ∷ (47 ∷ 109 ∷ 47 ∷ 102 ∷ []) ∷ (47 ∷ 109 ∷ []) ∷ []

abbrev inside : List ℕ
inside = 47 ∷ 109 ∷ 47 ∷ 102 ∷ 47 ∷ 120 ∷ []

mount_point_of-IsMountPoint_example : IsMountPoint inside mounts (mount_point_of inside mounts)
mount_point_of-IsMountPoint_example = mount_point_of-IsMountPoint inside mounts
