-- ===== src/Pipeline/Run.antt =====
-- pipeline.cpp and operator_context.cpp: the jobs with which a pipeline runs.
use metal_fs.Base.{
  ℕ, ◌/◌, ◌%◌, ◌^◌, Bool, true, false, not, ◌&&◌, Option, none, some, List, [], ◌∷◌, ◌++◌, ◌==◌,
  if◌then◌else◌, length,
}
use metal_fs.Fs.State.{Databases}
use metal_fs.Pipeline.Card.{
  Outcome, done, throws, aborts, ◌>>>◌, Job, configure_streams, configure_operator, run_operators,
  no_address, World, execute_job, DataPlace, to_address,
}
use metal_fs.Pipeline.Stages.{be32, switch_words, switch_line}
use Prim.Native.Nat.{bit_or}

-- The value of an operator's option; a buffer as its bytes.
pub data OptionValue : Type 0 where
  uint_value : ℕ → OptionValue
  bool_value : Bool → OptionValue
  buffer_value : List ℕ → OptionValue

-- The offset of the option's definition, and the value if the option has one.
pub record OperatorOption : Type 0 where
  pub offset : ℕ
  pub value : Option OptionValue

pub record OperatorContext : Type 0 where
  pub stream_id : ℕ
  pub prepare_required : Bool
  pub options : List OperatorOption
  pub is_prepared : Bool

abbrev pub bytes32 : ℕ → List ℕ
bytes32 w = w % 256 ∷ w / 2 ^ 8 % 256 ∷ w / 2 ^ 16 % 256 ∷ w / 2 ^ 24 % 256 ∷ []

-- The bytes of a value in the job, and their number in words.
abbrev pub option_bytes : OptionValue → List ℕ × ℕ
option_bytes (uint_value v) = (bytes32 v, 1)
option_bytes (bool_value b) = (bytes32 (if b then 1 else 0), 1)
option_bytes (buffer_value bytes) = (bytes, length bytes / 4)

abbrev pub needs_preparation : OperatorContext → Bool
needs_preparation op = not op.is_prepared && op.prepare_required

-- `job_config` as far as it is written for an option.
unfoldable pub option_job : OperatorContext → (offset : ℕ) → OptionValue → List ℕ
unfolding be32
option_job op offset value =
    let (bytes, words) = option_bytes value in
    be32 (offset / 4)
    ++ be32 words
    ++ be32 op.stream_id
    ++ be32 (if op.prepare_required then 1 else 0)
    ++ bytes

-- The bits of the streams, one after the other.
unfoldable pub enable_streams : (mask : ℕ) → (streams : List ℕ) → ℕ
enable_streams mask [] = mask
enable_streams mask (s ∷ ss) = enable_streams (bit_or mask (2 ^ s)) ss

abbrev pub streams_of : List OperatorContext → List ℕ
streams_of [] = []
streams_of (op ∷ ops) = op.stream_id ∷ streams_of ops

abbrev pub unprepared : List OperatorContext → List ℕ
unprepared [] = []
unprepared (op ∷ ops) =
    if needs_preparation op then op.stream_id ∷ unprepared ops else unprepared ops

-- `set_is_prepared` of each.
abbrev pub prepared : List OperatorContext → List OperatorContext
prepared [] = []
prepared (op ∷ ops) = record op { is_prepared = true } ∷ prepared ops

-- A pipeline and whether its switch configuration is the one that was kept.
pub record Pipeline : Type 0 where
  pub operators : List OperatorContext
  pub cached : Bool

module _ (L : Databases) (card : List Job → Option ℕ) where
  -- "Something went wrong...": the exception of a job that fails is caught.
  abbrev pub caught : World L → Outcome (World L × ℕ) → World L
  caught w (done r) = r.0
  caught w (throws e) = w
  caught w aborts = w

  -- The loop over the options; whether one has a value decides if the operator is prepared again.
  unfoldable pub configure_options :
      World L → OperatorContext → List OperatorOption → World L × OperatorContext
  unfolding execute_job option_job
  configure_options w op [] = (w, op)
  configure_options w op (o ∷ os) = elim o.value [
    | none ↦ configure_options w op os
    | some value ↦
        configure_options
          (caught w (execute_job L card w (configure_operator (option_job op o.offset value))))
          (record op { is_prepared = false }) os
  ]

  unfoldable pub configure_all : World L → List OperatorContext → World L × List OperatorContext
  unfolding configure_options
  configure_all w [] = (w, [])
  configure_all w (op ∷ ops) =
      let (w1, op') = configure_options w op op.options in
      let (w2, ops') = configure_all w1 ops in (w2, op' ∷ ops')

  -- The bytes of the job's words; a stream behind them is a store out of bounds.
  unfoldable pub configure_switch : World L → List ℕ → Outcome (World L)
  unfolding execute_job switch_words switch_line
  configure_switch w streams = elim (switch_words streams) [
    | none ↦ aborts
    | some words ↦ execute_job L card w (configure_streams (switch_line words [])) >>> λ r. done r.0
  ]

  -- The job that prepares operators, if one needs it.
  unfoldable pub preparation_run : World L → List OperatorContext → Outcome (World L)
  unfolding execute_job enable_streams
  preparation_run w ops =
      let mask = enable_streams 0 (unprepared ops) in
      if mask == 0
      then done w
      else (execute_job L card w (run_operators no_address no_address mask 0) >>> λ r. done r.0)

  -- `Pipeline::run`: the pipeline after it, and the size of the output.
  unfoldable pub run_pipeline :
      World L → Pipeline → DataPlace → DataPlace → Outcome (World L × Pipeline × ℕ)
  unfolding configure_all preparation_run configure_switch execute_job enable_streams
  run_pipeline w p source sink =
      let (w1, ops) = configure_all w p.operators in
      preparation_run w1 ops >>> λ w2.
      (if p.cached then done w2 else configure_switch w2 (streams_of ops)) >>> λ w3.
      execute_job L card w3
        (run_operators (to_address source) (to_address sink) (enable_streams 1 (streams_of ops)) 1)
      >>> λ (w4, size). done (w4, record p { operators = prepared ops }, size)
