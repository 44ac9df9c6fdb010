-- ===== src/Pipeline/Operator.antt =====
-- operator.cpp and operator_argument.hpp: an operator and the values of its options.
use metal_fs.Base.{ℕ, Bool, true, false, Option, none, some, List, [], ◌∷◌, if◌then◌else◌}
use metal_fs.Fs.Directory.Listing.{eq_bytes}
use metal_fs.Pipeline.Card.{unknown_option, invalid_option, out_of_range, Outcome, done, throws}
use metal_fs.Pipeline.Run.{OptionValue, uint_value, bool_value, buffer_value}
use metal_fs.Driver.Combined.{Text}

pub data OptionType : Type 0 where
  uint_option bool_option buffer_option : OptionType

pub record OptionDefinition : Type 0 where
  pub type : OptionType
  pub short : Text
  pub buffer_size : Option ℕ

-- An `OperatorSpecification`, with the options by their keys.
pub record Specification : Type 0 where
  pub id : Text
  pub stream_id : ℕ
  pub prepare_required : Bool
  pub options : List (Text × OptionDefinition)

-- An `Operator`: the values by the keys of the options.
pub record Operator : Type 0 where
  pub spec : Specification
  pub options : List (Text × Option OptionValue)

-- The first entry of a key, as `find` of a map.
unfoldable pub find_key : {A : Type 0} → Text → List (Text × A) → Option A
find_key key [] = none
find_key key ((k, a) ∷ rest) =
    let later = find_key key rest in if eq_bytes k key then some a else later

-- The value of the entries of a key.
unfoldable pub set_key : {A : Type 0} → Text → A → List (Text × A) → List (Text × A)
set_key key a [] = []
set_key key a ((k, b) ∷ rest) = (k, (if eq_bytes k key then a else b)) ∷ set_key key a rest

unfoldable pub no_values : List (Text × OptionDefinition) → List (Text × Option OptionValue)
no_values [] = []
no_values ((key, d) ∷ rest) = (key, none) ∷ no_values rest

abbrev pub new_operator : Specification → Operator
new_operator spec = record { spec = spec; options = no_values spec.options }

-- `arg.index()`
abbrev pub type_of : OptionValue → OptionType
type_of (uint_value n) = uint_option
type_of (bool_value b) = bool_option
type_of (buffer_value bytes) = buffer_option

abbrev pub same_type : OptionType → OptionType → Bool
same_type uint_option uint_option = true
same_type bool_option bool_option = true
same_type buffer_option buffer_option = true
same_type _ _ = false

-- `_options.at(option) = arg`
abbrev pub put_option :
    Operator → Text → OptionValue → Option (Option OptionValue) → Outcome Operator
put_option op key value none = throws out_of_range
put_option op key value (some old) =
    done (record op { options = set_key key (some value) op.options })

abbrev pub set_found : Operator → Text → OptionValue → Option OptionDefinition → Outcome Operator
set_found op key value none = throws unknown_option
set_found op key value (some d) =
    if same_type d.type (type_of value)
    then put_option op key value (find_key key op.options)
    else throws invalid_option

-- `Operator::setOption`
unfoldable pub set_option : Operator → Text → OptionValue → Outcome Operator
unfolding find_key set_key
set_option op key value = set_found op key value (find_key key op.spec.options)
