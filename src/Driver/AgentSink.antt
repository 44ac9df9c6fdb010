-- ===== src/Driver/AgentSink.antt =====
-- src/metal-driver/agent_data_sink_context.cpp: an agent as the sink of a pipeline.
pub mod Exchange
use metal_fs.Base.{
  ℕ, Bool, true, false, not, ◌&&◌, ◌||◌, Option, none, some, List, ◌==◌, if◌then◌else◌,
}
use metal_fs.Fs.State.{Databases}
use metal_fs.Fpga.Types.{host, null, unmapped}
use metal_fs.Pipeline.Card.{unknown_sink, Outcome, done, throws, ◌>>>◌, Job, World, DataPlace}
use metal_fs.Pipeline.FileSink.{FileSink, prepare_for_total_size, finalize_sink, configure_sink}
use metal_fs.Pipeline.Runner.{SinkOps}
use metal_fs.Driver.AgentSource.{buffer_size, Peers, receive, send, half}

-- An `AgentDataSinkContext` with what it uses of its agent: the agent's number, whether it has an
-- input buffer, where its output buffer is mapped and which half is the current one, and whether its
-- output is `$NULL`.
pub record AgentSink : Type 0 where
  pub agent : ℕ
  pub has_input_buffer : Bool
  pub output_buffer : Option ℕ
  pub current : Bool
  pub is_null_output : Bool
  pub file : FileSink
  pub skip_receiving : Bool
  pub terminated : Bool

pub data SinkKind : Type 0 where
  to_buffer : (buffer : ℕ) → SinkKind
  null_output to_file no_sink : SinkKind

-- What `dataSink` and `finalize` tell apart, in their order.
abbrev pub sink_kind_of : Option ℕ → (is_null : Bool) → (inode_id : ℕ) → SinkKind
sink_kind_of (some b) is_null inode_id = to_buffer b
sink_kind_of none true inode_id = null_output
sink_kind_of none false inode_id = if inode_id == 0 then no_sink else to_file

abbrev pub sink_kind : AgentSink → SinkKind
sink_kind k = sink_kind_of k.output_buffer k.is_null_output k.file.inode_id

abbrev pub has_output_buffer : AgentSink → Bool
has_output_buffer k = elim k.output_buffer [ none ↦ false | some b ↦ true ]

-- `dataSink()`
abbrev pub target_of : AgentSink → SinkKind → Outcome DataPlace
target_of k (to_buffer b) =
    done
      (record { address = half b k.current; size = buffer_size; type = host; map_type = unmapped })
target_of k null_output = done (record { address = 0; size = 0; type = null; map_type = unmapped })
target_of k to_file = done k.file.sink
target_of k no_sink = throws unknown_sink

module _ (L : Databases) (block_size : ℕ) (card : List Job → Option ℕ) (unset : List ℕ) where
  -- What a function of the base class does to the world and the file.
  abbrev pub with_file : Peers L → AgentSink → World L × FileSink → Peers L × AgentSink
  with_file p k (w, f) = (record p { world = w }, record k { file = f })

  pub prepare_agent_sink : Peers L → AgentSink → (total_size : ℕ) → Outcome (Peers L × AgentSink)
  prepare_agent_sink p k total_size =
      if k.file.inode_id == 0
      then done (p, k)
      else (prepare_for_total_size L block_size p.world k.file total_size >>> λ r.
          done (with_file p k r))

  -- The rest of `configure`, after the request.
  abbrev pub configure_file : Peers L → AgentSink → (input_size : ℕ) → Outcome (Peers L × AgentSink)
  configure_file p k input_size =
      if k.file.inode_id == 0
      then done (p, k)
      else (configure_sink L block_size card unset p.world k.file input_size >>> λ r.
          done (with_file p k r))

  unfoldable pub configure_agent_sink :
      (initial : Bool) → Peers L → AgentSink → (input_size : ℕ) → Outcome (Peers L × AgentSink)
  unfolding receive
  configure_agent_sink initial p k input_size =
      (if (initial || has_output_buffer k) && not k.skip_receiving
        then (receive k.agent p >>> λ r. done r.0)
        else done p)
      >>> λ p'. configure_file p' k input_size

  -- The sink after a run, and the size that the response has.
  abbrev pub finished :
      Peers L
      → AgentSink
      → (output_size : ℕ) → (last : Bool) → SinkKind
      → Outcome (Peers L × AgentSink × Option ℕ)
  finished p k output_size last (to_buffer b) =
      done (p, record k { current = not k.current }, some output_size)
  finished p k output_size last null_output = done (p, k, none)
  finished p k output_size last to_file =
      finalize_sink L block_size p.world k.file output_size last >>> λ (w, f).
      done (record p { world = w }, record k { file = f }, none)
  finished p k output_size last no_sink = done (p, k, none)

  -- The response, after which the agent of the last run is terminated.
  abbrev pub respond : Peers L → AgentSink → (size : Option ℕ) → (last : Bool) → Peers L × AgentSink
  respond p k size last =
      if last || (has_output_buffer k || k.has_input_buffer)
      then (
        send k.agent (record { eof = last; size = size }) p,
        (if last then record k { terminated = true } else k),
      )
      else (p, k)

  unfoldable pub finalize_agent_sink :
      Peers L → AgentSink → (output_size : ℕ) → (last : Bool) → Outcome (Peers L × AgentSink)
  finalize_agent_sink p k output_size last =
      finished p k output_size last (sink_kind k) >>> λ (p', k', size).
      done (respond p' k' size last)

  -- The class as the runner sees it.
  abbrev pub agent_sink : SinkOps (Peers L) AgentSink
  agent_sink = record {
    prepare = prepare_agent_sink;
    accept = configure_agent_sink;
    data_sink = λ k. target_of k (sink_kind k);
    close = finalize_agent_sink;
  }
