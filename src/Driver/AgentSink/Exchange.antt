-- ===== src/Driver/AgentSink/Exchange.antt =====
-- The messages between the driver and an agent that is the whole pipeline, with an input and an
-- output buffer.
pub mod Answers
use metal_fs.Base.{
  ℕ, ◌%◌, ◌^◌, ◌≡◌, refl, inl, inr, Bool, true, false, not, ◌||◌, Option, some, List, ◌∷◌, ltb,
  ◌==◌, if◌then◌else◌, Bool-cases,
}
use metal_fs.Fs.Types.{file}
use metal_fs.Fpga.Types.{host, unmapped}
use metal_fs.Fs.State.{Databases}
use metal_fs.Pipeline.Card.{Outcome, done, Job, World, DataPlace}
use metal_fs.Pipeline.FileSource.{FileSource}
use metal_fs.Pipeline.FileSink.{FileSink}
use metal_fs.Pipeline.Runner.{SourceOps, SinkOps, PipelineOps, Ran, first_run, process, run}
use metal_fs.Driver.AgentSource.{
  buffer_size, Request, Response, processing_request, processing_response, Peers, receive, send,
  AgentSource, half, configure_agent_source, finalize_agent_source, agent_source,
}
use metal_fs.Driver.AgentSink.{AgentSink, configure_agent_sink, finalize_agent_sink, agent_sink}

-- The agent as the source: no file and, since it is also the sink, no response as the source.
abbrev pub only_source :
    (agent buffer : ℕ) → (current : Bool) → FileSource → Request → ℕ → AgentSource
only_source agent buffer current f r remaining = record {
  agent = agent;
  input_buffer = some buffer;
  current = current;
  is_datagen = false;
  file = record f { inode_id = 0 };
  skip_sending = true;
  remaining = remaining;
  size = r.size;
  eof = r.eof;
}

-- The agent as the sink, which takes no requests.
abbrev pub only_sink : (agent buffer : ℕ) → (current terminated : Bool) → FileSink → AgentSink
only_sink agent buffer current terminated f = record {
  agent = agent;
  has_input_buffer = true;
  output_buffer = some buffer;
  current = current;
  is_null_output = false;
  file = record f { inode_id = 0 };
  skip_receiving = true;
  terminated = terminated;
}

module _ {L : Databases} where
  -- The pipeline's work does not touch the messages.
  abbrev pub switch_peers : (World L → World L) → Peers L → Outcome (Peers L)
  switch_peers switch p = done (record p { world = switch p.world })

  -- The hooks of `SnapPipelineRunner`, which those of `ProfilingPipelineRunner` are without a part to
  -- profile, do nothing.
  abbrev pub compute_peers :
      (World L → DataPlace → DataPlace → World L × ℕ) → PipelineOps (Peers L) AgentSource AgentSink
  compute_peers compute = record {
    pre_run = λ initialize p s k. done p;
    run_pipeline = λ p from to.
        done (record p { world = (compute p.world from to).0 }, (compute p.world from to).1);
    post_run = λ finalize p s k. done p;
  }

module _ (L : Databases) (block_size : ℕ) (card : List Job → Option ℕ) (unset : List ℕ)
    (switch : World L → World L) (compute : World L → DataPlace → DataPlace → World L × ℕ)
    (a in_buffer out_buffer remaining : ℕ) (f : FileSource) (g : FileSink) where
  abbrev pub agent_run :
      Bool → Peers L → AgentSource → AgentSink → Outcome (Ran (Peers L) AgentSource AgentSink)
  agent_run =
      run (agent_source L card unset) (agent_sink L block_size card unset) (switch_peers switch)
        (compute_peers compute)

  abbrev pub source_at : Bool → Request → AgentSource
  source_at current r = only_source a in_buffer current f r remaining

  abbrev pub sink_at : Bool → Bool → AgentSink
  sink_at current terminated = only_sink a out_buffer current terminated g

  abbrev agents_source : SourceOps (Peers L) AgentSource
  agents_source = agent_source L card unset

  abbrev agents_sink : SinkOps (Peers L) AgentSink
  agents_sink = agent_sink L block_size card unset

  -- The half of a buffer that a run reads, and the one that it writes.
  abbrev origin : Bool → (size : ℕ) → DataPlace
  origin here size = record {
    address = half in_buffer here;
    size = size;
    type = host;
    map_type = unmapped;
  }

  abbrev target : Bool → DataPlace
  target there = record {
    address = half out_buffer there;
    size = buffer_size;
    type = host;
    map_type = unmapped;
  }

  -- The peers after the first request.
  abbrev pub asked : Peers L → Request → List Request → Peers L
  asked p r rs = record p {
    requests = λ b. if b == a then rs else p.requests b;
    log = λ b. if b == a then processing_request r ∷ p.log b else p.log b;
  }

  abbrev pub answered : Peers L → Response → Peers L
  answered p x = record p { log = λ b. if b == a then processing_response x ∷ p.log b else p.log b }

  -- The world at the work on a request: the first run configures the switch.
  abbrev pub started : (initialized : Bool) → World L → World L
  started true w = w
  started false w = switch w

  abbrev computed : Bool → World L → DataPlace → Bool → World L × ℕ
  computed true w from there = compute w from (target there)
  computed false w from there = (w, 0)

  -- What the pipeline makes of the bytes of a request: nothing of no bytes.
  abbrev pub worked : World L → (here there : Bool) → Request → World L × ℕ
  worked w here there r = computed (ltb 0 (r.size % 2 ^ 32)) w (origin here r.size) there

  first_run-started :
      (initialized : Bool) (p : Peers L) (s : AgentSource) (k : AgentSink)
      → first_run agents_source agents_sink
          (switch_peers switch)
          (compute_peers compute)
          initialized
          p
          s
          k
        ≡ done (record p { world = started initialized p.world }, k)
  unfolding first_run
  first_run-started true p s k = refl
  first_run-started false p s k = refl

  configure-asked :
      (initial : Bool) (p : Peers L) (r old : Request) (rs : List Request) (here : Bool)
      → p.requests a ≡ r ∷ rs
      → configure_agent_source L card unset initial p (source_at here old)
        ≡ done (asked p r rs, source_at here r)
  unfolding configure_agent_source receive
  configure-asked true p r old rs here e = rw e
  configure-asked false p r old rs here e = rw e

  accept-same :
      (initial : Bool) (p : Peers L) (there terminated : Bool) (size : ℕ)
      → configure_agent_sink L block_size card unset initial p (sink_at there terminated) size
        ≡ done (p, sink_at there terminated)
  unfolding configure_agent_sink
  accept-same true p there terminated size = refl
  accept-same false p there terminated size = refl

  process-computed :
      (p : Peers L) (size : ℕ) (from : DataPlace) (there terminated : Bool)
      → process agents_source agents_sink
          (switch_peers switch)
          (compute_peers compute)
          p
          size
          from
          (sink_at there terminated)
        ≡ done (
          record p { world = (computed (ltb 0 size) p.world from there).0 },
          (computed (ltb 0 size) p.world from there).1,
        )
  unfolding process
  process-computed p size from there terminated = elim (Bool-cases (ltb 0 size)) [
    | inl e ↦ rw e refl
    | inr e ↦ rw e refl
  ]

  finalize-silent :
      (p : Peers L) (here : Bool) (size : ℕ) (eof : Bool)
      → finalize_agent_source L card unset p (source_at here (record { size = size; eof = eof }))
        ≡ (p, source_at (not here) (record { size = size; eof = eof }))
  unfolding finalize_agent_source
  finalize-silent p here size true = refl
  finalize-silent p here size false = refl

  finalize-answered :
      (p : Peers L) (there terminated : Bool) (out : ℕ) (last : Bool)
      → finalize_agent_sink L block_size card unset p (sink_at there terminated) out last
        ≡ done (
          answered p (record { eof = last; size = some out }),
          sink_at (not there) (last || terminated),
        )
  unfolding finalize_agent_sink send
  finalize-answered p there terminated out true = refl
  finalize-answered p there terminated out false = refl

  -- After the run for a request.
  abbrev pub served :
      World L
      → Peers L
      → (rs : List Request) → Request
      → (out : ℕ) → (here there terminated : Bool) → Ran (Peers L) AgentSource AgentSink
  served w p rs r out here there terminated = record {
    world =
        answered (record (asked p r rs) { world = w }) (record { eof = r.eof; size = some out });
    source = source_at (not here) r;
    sink = sink_at (not there) (r.eof || terminated);
    output_size = out;
    ended = r.eof;
  }

  pub agent_run-served :
      (initialized : Bool) (p : Peers L) (r old : Request) (rs : List Request)
      (here there terminated : Bool)
      → p.requests a ≡ r ∷ rs
      → agent_run initialized p (source_at here old) (sink_at there terminated)
        ≡ done (
            served
              (worked (started initialized p.world) here there r).0
              p
              rs
              r
              (worked (started initialized p.world) here there r).1
              here
              there
              terminated)
  unfolding run
  agent_run-served initialized p r old rs here there terminated e =
      let w1 = started initialized p.world in
      let (w2, out) = worked w1 here there r in
      let first = first_run-started initialized p (source_at here old) (sink_at there terminated) in
      let work =
        process-computed (record (asked p r rs) { world = w1 }) (r.size % 2 ^ 32)
          (origin here r.size) there terminated in
      rw first (
        rw (configure-asked (not initialized) (record p { world = w1 }) r old rs here e) (
          rw
            (accept-same (not initialized) (record (asked p r rs) { world = w1 }) there terminated
              (r.size % 2 ^ 32))
            (rw work (
              rw (finalize-silent (record (asked p r rs) { world = w2 }) here r.size r.eof) (
                rw (
                  finalize-answered (record (asked p r rs) { world = w2 }) there terminated out
                    r.eof))))))
