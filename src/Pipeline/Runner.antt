-- ===== src/Pipeline/Runner.antt =====
-- snap_pipeline_runner.cpp, and the loop of pipeline_loop.cpp that runs it until the input ends.
-- Sources and sinks are interfaces, as the classes DataSourceContext and DataSinkContext are; the
-- pipeline's `configureSwitch` and `run`, and the runner's hooks, are parameters.
pub mod Loop
use metal_fs.Base.{ℕ, zero, suc, Bool, true, false, not, Option, none, some, ltb, if◌then◌else◌}
use metal_fs.Pipeline.Card.{Outcome, done, throws, aborts, ◌>>>◌, DataPlace, to_address}

-- `DataSourceContext`: what its methods do with the world.
pub record SourceOps (W S : Type 0) : Type 0 where
  pub report_total_size : S → ℕ
  pub configure : (initial : Bool) → W → S → Outcome (W × S)
  pub data_source : S → Outcome DataPlace
  pub at_end : S → Bool
  pub finalize : W → S → Outcome (W × S)

-- `DataSinkContext`
pub record SinkOps (W K : Type 0) : Type 0 where
  pub prepare : W → K → (total_size : ℕ) → Outcome (W × K)
  pub accept : (initial : Bool) → W → K → (input_size : ℕ) → Outcome (W × K)
  pub data_sink : K → Outcome DataPlace
  pub close : W → K → (output_size : ℕ) → (end_of_input : Bool) → Outcome (W × K)

-- The pipeline's `run`, and the hooks of the runner around it, with what they do to the world: those of
-- `SnapPipelineRunner` do nothing, `ProfilingPipelineRunner` sets up and reads the monitor in them.
pub record PipelineOps (W S K : Type 0) : Type 0 where
  pub pre_run : (initialize : Bool) → W → S → K → Outcome W
  pub run_pipeline : W → (from to : DataPlace) → Outcome (W × ℕ)
  pub post_run : (finalize : Bool) → W → S → K → Outcome W

-- What a run leaves, and the two results of `run`.
pub record Ran (W S K : Type 0) : Type 0 where
  pub world : W
  pub source : S
  pub sink : K
  pub output_size : ℕ
  pub ended : Bool

module _ {W S K : Type 0} (source : SourceOps W S) (sink : SinkOps W K)
    (configure_switch : W → Outcome W) (pipeline : PipelineOps W S K) where
  -- What the first run does before the others.
  unfoldable pub first_run : (initialized : Bool) → W → S → K → Outcome (W × K)
  first_run true w s k = done (w, k)
  first_run false w s k =
      (if ltb 0 (source.report_total_size s)
        then sink.prepare w k (source.report_total_size s)
        else done (w, k))
      >>> λ (w', k'). configure_switch w' >>> λ w''. done (w'', k')

  -- `_pipeline->run`, which a run of size 0 leaves out.
  unfoldable pub process : W → (size : ℕ) → DataPlace → K → Outcome (W × ℕ)
  process w size from k =
      if ltb 0 size
      then (sink.data_sink k >>> λ to. pipeline.run_pipeline w from to)
      else done (w, 0)

  unfoldable pub run : (initialized : Bool) → W → S → K → Outcome (Ran W S K)
  run initialized w s k = first_run initialized w s k >>> λ (w1, k1).
      source.configure (not initialized) w1 s >>> λ (w2, s2). source.data_source s2 >>> λ from.
      let size = (to_address from).size in
      let last = source.at_end s2 in
      sink.accept (not initialized) w2 k1 size >>> λ (w3, k3).
      pipeline.pre_run (not initialized) w3 s2 k3 >>> λ w4.
      process w4 size from k3 >>> λ (w5, output_size). pipeline.post_run last w5 s2 k3 >>> λ w6.
      source.finalize w6 s2 >>> λ (w7, s7). sink.close w7 k3 output_size last >>> λ (w8, k8).
      done (record { world = w8; source = s7; sink = k8; output_size = output_size; ended = last })

  -- The end of a round of the loop.
  abbrev pub next_round :
      Outcome (Ran W S K)
      → (Ran W S K → Option (Outcome (Ran W S K)))
      → Option (Outcome (Ran W S K))
  next_round (throws e) more = some (throws e)
  next_round aborts more = some aborts
  next_round (done r) more = elim r.ended [ true ↦ some (done r) | false ↦ more r ]

  -- The loop of `PipelineLoop::run`, for at most `rounds` runs.
  unfoldable pub run_loop :
      (rounds : ℕ) → (initialized : Bool) → W → S → K → Option (Outcome (Ran W S K))
  run_loop zero initialized w s k = none
  run_loop (suc rounds) initialized w s k =
      next_round (run initialized w s k) (λ r. run_loop rounds true r.world r.source r.sink)
