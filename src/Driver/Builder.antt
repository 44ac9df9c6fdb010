-- ===== src/Driver/Builder.antt =====
-- pipeline_builder.cpp: from the agents of a pipeline to its operators, its source and its sink. The
-- agents are in the order of the pipeline.
pub mod Resolve
pub mod Filled
pub mod Ready
use metal_fs.Base.{
  ℕ, zero, suc, Bool, true, false, not, ◌&&◌, ◌||◌, Option, none, some, List, [], ◌∷◌, ◌++◌, map,
  if◌then◌else◌,
}
use metal_fs.Fs.State.{Databases, Txn}
use metal_fs.Fs.Directory.Listing.{eq_bytes}
use metal_fs.Pipeline.Card.{
  not_at_start, unknown_operator, used_twice, no_buffer_size, cannot_open, cannot_read, Outcome,
  done, throws, aborts, ◌>>>◌,
}
use metal_fs.Pipeline.Run.{OptionValue, uint_value, bool_value, buffer_value}
use metal_fs.Driver.Combined.{Text, is_empty, Handlers}
use metal_fs.Pipeline.Operator.{
  OptionType, uint_option, bool_option, buffer_option, OptionDefinition, Specification, Operator,
  find_key, new_operator, set_option,
}
use metal_fs.Driver.Agent.{
  OperatorAgent, resolve_path, Argument, CommandOption, ParseResult, as_flag, as_number, as_text,
  profile_key, input_key, parse_options, create_input_buffer, create_output_buffer, open_internal,
  set_internal_input_file, set_internal_output_file, set_input_file,
}
use metal_fs.Driver.Options.{
  is_datagen_agent, is_metal_cat_agent, is_null_output, build_operator_options, datagen_options,
  metal_cat_options,
}

abbrev pub is_used : Text → List Text → Bool
is_used t [] = false
is_used t (u ∷ us) = eq_bytes u t || is_used t us

-- What the loop goes on with, behind the tests of one agent.
abbrev pub with_agent :
    Option Specification
    → OperatorAgent
    → Outcome (List (Option Specification × OperatorAgent))
    → Outcome (List (Option Specification × OperatorAgent))
with_agent spec a rest = rest >>> λ xs. done ((spec, a) ∷ xs)

-- The loop of `resolveOperatorSpecifications`. Each key of the registry has a specification of its
-- own, so that those that were used are known by their keys.
unfoldable pub resolve_specifications :
    (registry : List (Text × Specification))
    → (is_first : Bool) → (used : List Text) → List OperatorAgent
    → Outcome (List (Option Specification × OperatorAgent))
unfolding find_key
resolve_specifications registry is_first used [] = done []
resolve_specifications registry is_first used (a ∷ others) =
    let same = resolve_specifications registry false used others in
    let more = resolve_specifications registry false (a.operator_type ∷ used) others in
    if is_datagen_agent a || is_metal_cat_agent a
    then (if is_first then with_agent none a same else throws not_at_start)
    else elim (find_key a.operator_type registry) [
      | none ↦ throws unknown_operator
      | some op ↦
          if is_used a.operator_type used then throws used_twice else with_agent (some op) a more
    ]

-- The buffer that `fread` fills from the start of a file.
unfoldable pub filled : ℕ → List ℕ → List ℕ
filled zero bytes = []
filled (suc n) [] = 0 ∷ filled n []
filled (suc n) (b ∷ bytes) = b ∷ filled n bytes

abbrev pub read_buffer : ℕ → Option (List ℕ) → Outcome OptionValue
read_buffer size none = throws cannot_open
read_buffer zero (some bytes) = throws cannot_read
read_buffer (suc n) (some []) = throws cannot_read
read_buffer (suc n) (some (b ∷ bytes)) = done (buffer_value (filled (suc n) (b ∷ bytes)))

-- A started pipeline: the operators with whether they are profiled, and the agents.
pub record ConfiguredPipeline : Type 0 where
  pub operators : List (Operator × Bool)
  pub agents : List OperatorAgent

abbrev pub or_text : Text → (Text → Outcome OperatorAgent) → OperatorAgent → Outcome OperatorAgent
or_text input f a = if is_empty input then done a else f input

abbrev pub on_front :
    (OperatorAgent → Outcome OperatorAgent) → List OperatorAgent → Outcome (List OperatorAgent)
on_front f [] = aborts
on_front f (a ∷ others) = f a >>> λ b. done (b ∷ others)

unfoldable pub on_back :
    (OperatorAgent → Outcome OperatorAgent) → List OperatorAgent → Outcome (List OperatorAgent)
on_back f [] = aborts
on_back f (a ∷ []) = f a >>> λ b. done (b ∷ [])
on_back f (a ∷ b ∷ others) = on_back f (b ∷ others) >>> λ rest. done (a ∷ rest)

-- A `RegistrationResponse` to an accepted agent: which buffers it is to map, and its input file.
pub record Acceptance : Type 0 where
  pub input_buffer : Bool
  pub output_buffer : Bool
  pub agent_read_filename : Text

abbrev pub acceptance : OperatorAgent → Acceptance
acceptance a = record {
  input_buffer = a.input_buffer;
  output_buffer = a.output_buffer;
  agent_read_filename = a.agent_load_file;
}

-- The parameters: `cxxopts`, `realpath`, the files that can be opened, and the mounted handlers.
module _ (L : Databases) {H : Type 0} (handlers : Handlers H) (filesystem : H → Option (Txn L))
    (parse : List CommandOption → List Text → Option ParseResult) (realpath : Text → Option Text)
    (open_file : Text → Option (List ℕ)) where
  abbrev pub set_input : OperatorAgent → Text → Outcome OperatorAgent
  set_input a input = or_text input (set_input_file L handlers filesystem realpath a) a

  -- The value of an option, by its type.
  abbrev pub value_of :
      OperatorAgent → OptionType → (size : Option ℕ) → Option Argument → Outcome OptionValue
  value_of a uint_option size arg = as_number arg >>> λ n. done (uint_value n)
  value_of a bool_option size arg = as_flag arg >>> λ b. done (bool_value b)
  value_of a buffer_option none arg = throws no_buffer_size
  value_of a buffer_option (some n) arg =
      as_text arg >>> λ path. read_buffer n (open_file (resolve_path a path))

  -- The loop of `instantiateOperator` over the definitions.
  unfoldable pub set_options :
      OperatorAgent → ParseResult → List (Text × OptionDefinition) → Operator → Outcome Operator
  unfolding set_option
  set_options a r [] op = done op
  set_options a r ((key, d) ∷ rest) op = value_of a d.type d.buffer_size (r key) >>> λ value.
      set_option op key value >>> λ op'. set_options a r rest op'

  unfoldable pub instantiate_operator :
      Specification → OperatorAgent → Outcome ((Operator × Bool) × OperatorAgent)
  unfolding set_options parse_options set_input_file
  instantiate_operator spec a = parse_options parse a (build_operator_options spec) >>> λ r.
      set_options a r spec.options (new_operator spec) >>> λ op. as_text (r input_key) >>> λ input.
      set_input a input >>> λ a'. as_flag (r profile_key) >>> λ profile. done ((op, profile), a')

  abbrev pub instantiated :
      Option Specification → OperatorAgent → Outcome (List (Operator × Bool) × OperatorAgent)
  instantiated none a = done ([], a)
  instantiated (some spec) a = instantiate_operator spec a >>> λ (op, a'). done (op ∷ [], a')

  unfoldable pub instantiate_all :
      List (Option Specification × OperatorAgent) → Outcome ConfiguredPipeline
  instantiate_all [] = done (record { operators = []; agents = [] })
  instantiate_all ((spec, a) ∷ rest) = instantiated spec a >>> λ (ops, a').
      instantiate_all rest >>> λ p.
      done (record { operators = ops ++ p.operators; agents = a' ∷ p.agents })

  -- `validate` and `setInputFile` of a pseudo operator, which parse the same options.
  abbrev pub set_pseudo_input : List CommandOption → OperatorAgent → Outcome OperatorAgent
  set_pseudo_input options a =
      parse_options parse a options >>> λ r. as_text (r input_key) >>> λ input. set_input a input

  unfoldable pub validated : OperatorAgent → Outcome OperatorAgent
  unfolding parse_options
  validated a =
      if is_datagen_agent a
      then set_pseudo_input datagen_options a
      else if is_metal_cat_agent a
      then set_pseudo_input metal_cat_options a
      else done a

  -- A file system or a buffer for the source, if there is no file yet.
  unfoldable pub establish_source : OperatorAgent → Outcome OperatorAgent
  unfolding open_internal
  establish_source a =
      if a.internal_input_file.1
      then done a
      else if not (is_empty a.internal_input_filename)
      then set_internal_input_file L handlers filesystem a a.internal_input_filename
      else if not (is_datagen_agent a)
      then done (create_input_buffer a)
      else done a

  unfoldable pub establish_sink : OperatorAgent → Outcome OperatorAgent
  unfolding open_internal
  establish_sink a =
      if not (is_empty a.internal_output_filename) && not (is_null_output a)
      then set_internal_output_file L handlers filesystem a a.internal_output_filename
      else done (create_output_buffer a)

  -- `configure`: the pipeline and the answers to its agents.
  unfoldable pub configure :
      (registry : List (Text × Specification))
      → List OperatorAgent
      → Outcome (ConfiguredPipeline × List Acceptance)
  unfolding resolve_specifications instantiate_all validated establish_source establish_sink on_back
  configure registry agents = resolve_specifications registry true [] agents >>> λ xs.
      instantiate_all xs >>> λ p. on_front validated p.agents >>> λ as1.
      on_front establish_source as1 >>> λ as2.
      on_back establish_sink as2 >>> λ as3. done (record p { agents = as3 }, map acceptance as3)
