-- ===== src/Driver/Agent.antt =====
-- operator_agent.cpp: what an agent knows of its program's input and output, and its options.
use metal_fs.Base.{ℕ, Bool, true, not, Option, none, some, List, [], ◌∷◌, ◌++◌, ◌==◌, if◌then◌else◌}
use metal_fs.Fs.State.{Databases, Txn}
use metal_fs.Fs.Namespace.{resolve_inode}
use metal_fs.Pipeline.Card.{
  Failure, bad_arguments, help_wanted, no_input_file, invalid_input, invalid_output, Outcome, done,
  throws, ◌>>>◌, or_throw,
}
use metal_fs.Driver.Combined.{Text, starts_with, substr, Handlers, resolve_handler}

-- An `OperatorAgent`, without what stands in Driver/AgentPool: buffers are there or not, and a file
-- is a pair of an inode's number and whether there is a file system that it is in.
pub record OperatorAgent : Type 0 where
  pub operator_type : Text
  pub cwd : Text
  pub metal_mountpoint : Text
  pub args : List Text
  pub internal_input_filename : Text
  pub internal_output_filename : Text
  pub internal_input_file : ℕ × Bool
  pub internal_output_file : ℕ × Bool
  pub agent_load_file : Text
  pub input_buffer : Bool
  pub output_buffer : Bool

unfoldable pub resolve_path : OperatorAgent → Text → Text
resolve_path a [] = a.cwd
resolve_path a (c ∷ cs) = if c == 47 then c ∷ cs else a.cwd ++ 47 ∷ c ∷ cs

-- The types of the options on the command line, and their values.
pub data ArgumentType : Type 0 where
  flag number text : ArgumentType

pub data Argument : Type 0 where
  flag_argument : Bool → Argument
  number_argument : ℕ → Argument
  text_argument : Text → Argument

pub record CommandOption : Type 0 where
  pub short : Text
  pub key : Text
  pub type : ArgumentType
  pub default : Option Argument

-- A `cxxopts::ParseResult`: what is given, or the default.
abbrev pub ParseResult : Type 0
ParseResult = Text → Option Argument

-- `as<T>()`, which throws for an option that is not there or has another type.
abbrev pub as_flag : Option Argument → Outcome Bool
as_flag (some (flag_argument b)) = done b
as_flag (some (number_argument n)) = throws bad_arguments
as_flag (some (text_argument t)) = throws bad_arguments
as_flag none = throws bad_arguments

abbrev pub as_number : Option Argument → Outcome ℕ
as_number (some (number_argument n)) = done n
as_number (some (flag_argument b)) = throws bad_arguments
as_number (some (text_argument t)) = throws bad_arguments
as_number none = throws bad_arguments

abbrev pub as_text : Option Argument → Outcome Text
as_text (some (text_argument t)) = done t
as_text (some (flag_argument b)) = throws bad_arguments
as_text (some (number_argument n)) = throws bad_arguments
as_text none = throws bad_arguments

abbrev pub help_key : Text
help_key = 104 ∷ 101 ∷ 108 ∷ 112 ∷ []

abbrev pub profile_key : Text
profile_key = 112 ∷ 114 ∷ 111 ∷ 102 ∷ 105 ∷ 108 ∷ 101 ∷ []

abbrev pub input_key : Text
input_key = 105 ∷ 110 ∷ 112 ∷ 117 ∷ 116 ∷ []

-- `parse` is `cxxopts::Options::parse`; it gives nothing where that throws.
unfoldable pub parse_options :
    (parse : List CommandOption → List Text → Option ParseResult)
    → OperatorAgent
    → List CommandOption
    → Outcome ParseResult
parse_options parse a options = elim (parse options a.args) [
  | none ↦ throws bad_arguments
  | some r ↦ as_flag (r help_key) >>> λ help. if help then throws help_wanted else done r
]

abbrev pub create_input_buffer : OperatorAgent → OperatorAgent
create_input_buffer a = record a { input_buffer = true }

abbrev pub create_output_buffer : OperatorAgent → OperatorAgent
create_output_buffer a = record a { output_buffer = true }

-- The mounted handlers, and the file system for pipelines that a handler is for, if it is one.
module _ (L : Databases) {H : Type 0} (handlers : Handlers H)
    (filesystem : H → Option (Txn L)) where
  abbrev pub open_below : Failure → Text → Option (Txn L) → Outcome ℕ
  open_below e path none = throws e
  open_below e path (some t) = or_throw e (resolve_inode L t path)

  unfoldable pub open_internal : Failure → Text → Outcome ℕ
  unfolding resolve_handler
  open_internal e filename = elim (resolve_handler handlers filename) [
    | none ↦ throws e
    | some (prefix, h) ↦ open_below e (substr prefix filename) (filesystem h)
  ]

  abbrev pub set_internal_input_file : OperatorAgent → Text → Outcome OperatorAgent
  set_internal_input_file a filename = open_internal invalid_input filename >>> λ id.
      done (record a { internal_input_file = (id, true) })

  abbrev pub set_internal_output_file : OperatorAgent → Text → Outcome OperatorAgent
  set_internal_output_file a filename = open_internal invalid_output filename >>> λ id.
      done (record a { internal_output_file = (id, true) })

  -- `set_input_file`, for what `realpath` gives.
  abbrev pub set_real_file : OperatorAgent → Option Text → Outcome OperatorAgent
  set_real_file a none = throws no_input_file
  set_real_file a (some real) =
      if starts_with a.metal_mountpoint real
      then set_internal_input_file a (substr a.metal_mountpoint real)
      else done (record a { agent_load_file = real })

  unfoldable pub set_input_file :
      (realpath : Text → Option Text) → OperatorAgent → Text → Outcome OperatorAgent
  set_input_file realpath a filename =
      if not (a.internal_input_file.0 == 0)
      then done a
      else set_real_file a (realpath (resolve_path a filename))
