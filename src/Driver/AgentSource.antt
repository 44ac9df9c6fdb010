-- ===== src/Driver/AgentSource.antt =====
-- src/metal-driver/agent_data_source_context.cpp: an agent as the source of a pipeline. The messages
-- to and from agents are `Peers`; the texts in them (profiling results) are left out.
pub mod Datagen
use metal_fs.Base.{
  ℕ, ◌+◌, ◌*◌, Bool, true, false, not, ◌&&◌, ◌||◌, Option, none, some, List, [], ◌∷◌, ltb, ◌==◌,
  if◌then◌else◌, length,
}
use metal_fs.Fs.Types.{sub64}
use metal_fs.Fs.State.{Databases}
use metal_fs.Fpga.Types.{AddressType, host, random, MapType, unmapped}
use metal_fs.Pipeline.Card.{
  unknown_source, no_request, Outcome, done, throws, ◌>>>◌, Job, World, DataPlace,
}
use metal_fs.Pipeline.FileSource.{
  FileSource, new_source, configure_source, finalize_source, end_of_input,
}
use metal_fs.Pipeline.Runner.{SourceOps}

-- `BufferSize`
abbrev pub buffer_size : ℕ
buffer_size = 64 * 1024 * 1024

-- A `ProcessingRequest` and a `ProcessingResponse`; the size of a response can be unset.
pub record Request : Type 0 where
  pub size : ℕ
  pub eof : Bool

pub record Response : Type 0 where
  pub eof : Bool
  pub size : Option ℕ

pub data Message : Type 0 where
  processing_request : Request → Message
  processing_response : Response → Message

-- The world, and the connections to the agents: by number, the requests that an agent will send, and
-- the messages that the driver has received from it and sent to it, the last one first.
pub record Peers (L : Databases) : Type 0 where
  pub world : World L
  pub requests : ℕ → List Request
  pub log : ℕ → List Message

module _ {L : Databases} where
  -- `receiveProcessingRequest`, which throws when the agent is gone.
  abbrev pub take_request : ℕ → Peers L → List Request → Outcome (Peers L × Request)
  take_request a p [] = throws no_request
  take_request a p (r ∷ rs) = done (
    record p {
      requests = λ b. if b == a then rs else p.requests b;
      log = λ b. if b == a then processing_request r ∷ p.log b else p.log b;
    },
    r,
  )

  unfoldable pub receive : ℕ → Peers L → Outcome (Peers L × Request)
  receive a p = take_request a p (p.requests a)

  -- `sendProcessingResponse`
  unfoldable pub send : ℕ → Response → Peers L → Peers L
  send a r p = record p { log = λ b. if b == a then processing_response r ∷ p.log b else p.log b }

-- An `AgentDataSourceContext` with what it uses of its agent: the agent's number, where its input
-- buffer is mapped and which half is the current one, whether it is `datagen`.
pub record AgentSource : Type 0 where
  pub agent : ℕ
  pub input_buffer : Option ℕ
  pub current : Bool
  pub is_datagen : Bool
  pub file : FileSource
  pub skip_sending : Bool
  pub remaining : ℕ
  pub size : ℕ
  pub eof : Bool

-- What the `if` chains of the class tell apart, in their order.
pub data SourceKind : Type 0 where
  buffered : (buffer : ℕ) → SourceKind
  generated stored no_source : SourceKind

abbrev pub kind_of : Option ℕ → (is_datagen : Bool) → (inode_id : ℕ) → SourceKind
kind_of (some b) is_datagen inode_id = buffered b
kind_of none true inode_id = generated
kind_of none false inode_id = if inode_id == 0 then no_source else stored

abbrev pub source_kind : AgentSource → SourceKind
source_kind s = kind_of s.input_buffer s.is_datagen s.file.inode_id

-- `Buffer::current`
abbrev pub half : (buffer : ℕ) → Bool → ℕ
half buffer true = buffer + buffer_size
half buffer false = buffer

-- The end of the constructor: `s` has what the members were initialised with.
abbrev pub checked_source : (datagen_length : ℕ) → AgentSource → SourceKind → Outcome AgentSource
checked_source length s (buffered b) = done s
checked_source length s generated = done (record s { remaining = length })
checked_source length s stored = done s
checked_source length s no_source = throws unknown_source

module _ (L : Databases) where
  -- The constructor, for a range of `BufferSize` bytes at the start of the agent's input file;
  -- `unset` is what the members hold that are not initialised.
  pub new_agent_source :
      (unset : AgentSource)
      → World L
      → (agent : ℕ) → (input_buffer : Option ℕ) → (current is_datagen : Bool) → (datagen_length : ℕ)
      → (place : AddressType × MapType) → (inode_id : ℕ) → (skip_sending : Bool)
      → Outcome AgentSource
  new_agent_source unset w agent buffer current is_datagen length place inode_id skip =
      new_source L unset.file.file_length w place inode_id 0 buffer_size >>> λ file.
      let s : AgentSource = record unset {
        agent = agent;
        input_buffer = buffer;
        current = current;
        is_datagen = is_datagen;
        file = file;
        skip_sending = skip;
      } in
      checked_source length s (source_kind s)

-- `dataSource()`
abbrev pub place_of : AgentSource → SourceKind → Outcome DataPlace
place_of s (buffered b) =
    done (record { address = half b s.current; size = s.size; type = host; map_type = unmapped })
place_of s generated =
    done (record { address = 0; size = s.size; type = random; map_type = unmapped })
place_of s stored = done s.file.source
place_of s no_source = throws unknown_source

abbrev pub end_of_agent_input : AgentSource → Bool
end_of_agent_input s = if s.file.inode_id == 0 then s.eof else end_of_input s.file

module _ (L : Databases) (card : List Job → Option ℕ) (unset : List ℕ) where
  -- `configure` behind the request, which is empty where none was received.
  abbrev pub set_range :
      Peers L → Request → AgentSource → SourceKind → Outcome (Peers L × AgentSource)
  set_range p r s (buffered b) = done (p, record s { size = r.size; eof = r.eof })
  set_range p r s generated =
      let n = if ltb buffer_size s.remaining then buffer_size else s.remaining in
      done (p, record s { size = n; eof = s.remaining == n })
  set_range p r s stored =
      configure_source L card unset p.world s.file >>> λ w. done (record p { world = w }, s)
  set_range p r s no_source = done (p, s)

  abbrev pub is_buffered : Option ℕ → Bool
  is_buffered none = false
  is_buffered (some b) = true

  abbrev pub no_request_yet : Request
  no_request_yet = record { size = 0; eof = false }

  unfoldable pub configure_agent_source :
      (initial : Bool) → Peers L → AgentSource → Outcome (Peers L × AgentSource)
  unfolding receive
  configure_agent_source initial p s =
      (if initial || is_buffered s.input_buffer
        then receive s.agent p
        else done (p, no_request_yet))
      >>> λ (p', r). set_range p' r s (source_kind s)

  abbrev pub next_range : AgentSource → SourceKind → AgentSource
  next_range s (buffered b) = record s { current = not s.current }
  next_range s generated = record s { remaining = sub64 s.remaining s.size }
  next_range s stored = record s { file = finalize_source s.file }
  next_range s no_source = s

  unfoldable pub finalize_agent_source : Peers L → AgentSource → Peers L × AgentSource
  unfolding send
  finalize_agent_source p s =
      let eof = end_of_agent_input s in
      (
        (if (eof || is_buffered s.input_buffer) && not s.skip_sending
            then send s.agent (record { eof = eof; size = none }) p
            else p),
        next_range s (source_kind s),
      )

  -- The class as the runner sees it: its `reportTotalSize` does not override the base class's.
  abbrev pub agent_source : SourceOps (Peers L) AgentSource
  agent_source = record {
    report_total_size = λ s. 0;
    configure = configure_agent_source;
    data_source = λ s. place_of s (source_kind s);
    at_end = end_of_agent_input;
    finalize = λ p s. done (finalize_agent_source p s);
  }

-- `reportTotalSize`, which a run does not call.
abbrev pub report_agent_size : AgentSource → ℕ
report_agent_size s =
    if s.is_datagen then s.remaining else if s.file.inode_id == 0 then 0 else s.file.file_length
