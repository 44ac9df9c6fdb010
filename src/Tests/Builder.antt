-- ===== src/Tests/Builder.antt =====
-- A pipeline of `datagen` and an operator `x` with a flag `f` and a buffer `b`.
use metal_fs.Base.{ℕ, ◌≡◌, refl, true, false, Option, none, some, List, [], ◌∷◌, if◌then◌else◌}
use metal_fs.Fs.Directory.Listing.{eq_bytes}
use metal_fs.Pipeline.Card.{done, Holds}
use metal_fs.Pipeline.Run.{OptionValue}
use metal_fs.Pipeline.Operator.{
  bool_option, buffer_option, OptionDefinition, Specification, find_key, set_key, no_values,
  new_operator, type_of, set_option,
}
use metal_fs.Driver.Combined.{Text, Handlers}
use metal_fs.Driver.Agent.{
  OperatorAgent, resolve_path, flag_argument, text_argument, CommandOption, ParseResult, input_key,
  parse_options,
}
use metal_fs.Driver.Options.{datagen_id}
use metal_fs.Driver.Builder.{
  resolve_specifications, filled, ConfiguredPipeline, on_back, Acceptance, set_options,
  instantiate_operator, instantiate_all, validated, establish_source, establish_sink, configure,
}
use metal_fs.Driver.Builder.Resolve.{AreOperators, resolve_specifications-AreOperators}
use metal_fs.Driver.Builder.Filled.{Takes, IsOperatorOf, instantiate_operator-AreFilled}
use metal_fs.Driver.Builder.Ready.{IsReady, configure-IsReady}
use metal_fs.Tests.{memory}

abbrev flag_key : Text
flag_key = 102 ∷ []

abbrev buffer_key : Text
buffer_key = 98 ∷ []

abbrev two_options : Specification
two_options = record {
  id = 120 ∷ [];
  stream_id = 2;
  prepare_required = false;
  options =
      (flag_key, record { type = bool_option; short = []; buffer_size = none })
      ∷ (buffer_key, record { type = buffer_option; short = []; buffer_size = some 4 })
      ∷ [];
}

abbrev registered : List (Text × Specification)
registered = (120 ∷ [], two_options) ∷ []

abbrev agent_of : Text → OperatorAgent
agent_of type = record {
  operator_type = type;
  cwd = 47 ∷ [];
  metal_mountpoint = 47 ∷ 109 ∷ [];
  args = [];
  internal_input_filename = [];
  internal_output_filename = [];
  internal_input_file = (0, false);
  internal_output_file = (0, false);
  agent_load_file = [];
  input_buffer = false;
  output_buffer = false;
}

abbrev two_agents : List OperatorAgent
two_agents = agent_of datagen_id ∷ agent_of (120 ∷ []) ∷ []

-- The command line of `x` names a file for the buffer.
abbrev parsed : ParseResult
parsed key =
    if eq_bytes key buffer_key
    then some (text_argument (99 ∷ []))
    else if eq_bytes key input_key
    then some (text_argument [])
    else some (flag_argument false)

abbrev any_line : List CommandOption → List Text → Option ParseResult
any_line options args = some parsed

abbrev any_path : Text → Option Text
any_path path = some path

abbrev two_bytes : Text → Option (List ℕ)
two_bytes path = some (1 ∷ 2 ∷ [])

abbrev no_handlers : Handlers ℕ
no_handlers = []

resolve_specifications-AreOperators_example :
    AreOperators registered two_agents (resolve_specifications registered true [] two_agents)
resolve_specifications-AreOperators_example =
    resolve_specifications-AreOperators registered two_agents

instantiate_operator-AreFilled_example :
    Holds (IsOperatorOf memory no_handlers (λ h. none) any_line any_path two_bytes two_options) (
      instantiate_operator memory no_handlers
        (λ h. none)
        any_line
        any_path
        two_bytes
        two_options
        (agent_of (120 ∷ [])))
    × ((key : Text) (d : OptionDefinition) (value : OptionValue)
        → find_key key two_options.options ≡ some d
        → d.type ≡ type_of value
        → Takes (new_operator two_options) key value)
instantiate_operator-AreFilled_example =
    instantiate_operator-AreFilled memory no_handlers (λ h. none) any_line any_path two_bytes
      two_options (agent_of (120 ∷ []))

-- It does return, with a buffer for the output.
configured :
    (r : ConfiguredPipeline × List Acceptance) × (configure memory no_handlers
        (λ h. none)
        any_line
        any_path
        two_bytes
        registered
        two_agents
      ≡ done r)
unfolding configure resolve_specifications find_key eq_bytes instantiate_all instantiate_operator
    parse_options set_options set_option set_key no_values filled resolve_path validated
    establish_source establish_sink on_back
configured = (_, refl)

configure-IsReady_example :
    Holds
      (IsReady memory no_handlers (λ h. none) any_line any_path two_bytes)
      (configure memory no_handlers (λ h. none) any_line any_path two_bytes registered two_agents)
configure-IsReady_example =
    configure-IsReady memory no_handlers (λ h. none) any_line any_path two_bytes registered
      two_agents
