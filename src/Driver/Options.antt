-- ===== src/Driver/Options.antt =====
-- The pseudo operators of pseudo_operators.cpp, and the options on an operator's command line.
use metal_fs.Base.{Bool, false, none, some, List, [], ◌∷◌}
use metal_fs.Fs.Directory.Listing.{eq_bytes}
use metal_fs.Driver.Combined.{Text}
use metal_fs.Pipeline.Operator.{
  OptionType, uint_option, bool_option, buffer_option, OptionDefinition, Specification,
}
use metal_fs.Driver.Placeholder.{null_name}
use metal_fs.Driver.Agent.{
  OperatorAgent, flag, number, text, flag_argument, number_argument, text_argument, CommandOption,
  help_key, profile_key, input_key,
}

abbrev pub datagen_id : Text
datagen_id = 100 ∷ 97 ∷ 116 ∷ 97 ∷ 103 ∷ 101 ∷ 110 ∷ []

abbrev pub metal_cat_id : Text
metal_cat_id = 109 ∷ 101 ∷ 116 ∷ 97 ∷ 108 ∷ 45 ∷ 99 ∷ 97 ∷ 116 ∷ []

abbrev pub is_datagen_agent : OperatorAgent → Bool
is_datagen_agent a = eq_bytes a.operator_type datagen_id

abbrev pub is_metal_cat_agent : OperatorAgent → Bool
is_metal_cat_agent a = eq_bytes a.operator_type metal_cat_id

abbrev pub is_null_output : OperatorAgent → Bool
is_null_output a = eq_bytes a.internal_output_filename null_name

abbrev pub flag_option : (short key : Text) → CommandOption
flag_option short key = record {
  short = short;
  key = key;
  type = flag;
  default = some (flag_argument false);
}

abbrev pub help_option : CommandOption
help_option = flag_option (104 ∷ []) help_key

abbrev pub profile_option : CommandOption
profile_option = flag_option (112 ∷ []) profile_key

abbrev pub input_option : CommandOption
input_option = record {
  short = [];
  key = input_key;
  type = text;
  default = some (text_argument []);
}

abbrev pub option_of : Text → OptionDefinition → OptionType → CommandOption
option_of key d bool_option = flag_option d.short key
option_of key d uint_option = record { short = d.short; key = key; type = number; default = none }
option_of key d buffer_option = record { short = d.short; key = key; type = text; default = none }

abbrev pub defined_options : List (Text × OptionDefinition) → List CommandOption
defined_options [] = []
defined_options ((key, d) ∷ rest) = option_of key d d.type ∷ defined_options rest

-- `buildOperatorOptions`
abbrev pub build_operator_options : Specification → List CommandOption
build_operator_options spec =
    help_option ∷ profile_option ∷ input_option ∷ defined_options spec.options

abbrev pub length_key : Text
length_key = 108 ∷ 101 ∷ 110 ∷ 103 ∷ 116 ∷ 104 ∷ []

abbrev pub length_option : CommandOption
length_option = record {
  short = 108 ∷ [];
  key = length_key;
  type = number;
  default = some (number_argument 4096);
}

abbrev pub datagen_options : List CommandOption
datagen_options = help_option ∷ profile_option ∷ length_option ∷ input_option ∷ []

abbrev pub metal_cat_options : List CommandOption
metal_cat_options = help_option ∷ profile_option ∷ input_option ∷ []
