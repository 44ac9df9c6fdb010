-- ===== src/Driver/Builder/Filled.antt =====
-- The values of the options of an operator that is set up.
use metal_fs.Base.{
  ℕ, ◌≡◌, refl, sym, ap, ◌∙◌, subst, inl, inr, Bool, true, false, ◌||◌, Option, none, some, List,
  [], ◌∷◌, if◌then◌else◌, Bool-cases,
}
use metal_fs.Fs.Directory.Listing.{eq_bytes, eq_bytes_iff}
use metal_fs.Pipeline.Run.{OptionValue}
use metal_fs.Pipeline.Operator.{
  OptionType, uint_option, bool_option, buffer_option, OptionDefinition, Specification, Operator,
  find_key, set_key, no_values, new_operator, type_of, same_type, put_option, set_found, set_option,
}
use metal_fs.Driver.Combined.{Text, Handlers}
use metal_fs.Pipeline.Card.{invalid_option, Outcome, done, throws, aborts, Holds, >>>-Holds}
use metal_fs.Driver.Builder.Resolve.{eq_bytes_sym}
use metal_fs.Fs.State.{Databases, Txn}
use metal_fs.Driver.Agent.{
  OperatorAgent, CommandOption, ParseResult, as_flag, as_text, profile_key, input_key,
  parse_options,
}
use metal_fs.Driver.Builder.{set_input, value_of, set_options, instantiate_operator}
use metal_fs.Driver.Options.{build_operator_options}

-- The value has the type that the option is defined with.
abbrev pub Fits : Specification → Text → OptionValue → Type 0
Fits spec key v =
    (d : OptionDefinition) × (find_key key spec.options ≡ some d) × (d.type ≡ type_of v)

-- Each of these has a value, of the type of its option.
abbrev pub HaveValues : Specification → List (Text × Option OptionValue) → Type 0
HaveValues spec [] = Unit {0}
HaveValues spec ((key, none) ∷ rest) = ⊥
HaveValues spec ((key, some v) ∷ rest) = Fits spec key v × HaveValues spec rest

abbrev pub keys {ℓ} : {A : Type ℓ} → List (Text × A) → List Text
keys [] = []
keys ((key, a) ∷ rest) = key ∷ keys rest

-- The options of the specification, each with a value of its type.
abbrev pub AreFilled : Specification → List (Text × Option OptionValue) → Type 0
AreFilled spec es = HaveValues spec es × (keys es ≡ keys spec.options)

no_values-keys : (ds : List (Text × OptionDefinition)) → keys (no_values ds) ≡ keys ds
unfolding no_values
no_values-keys [] = refl
no_values-keys ((key, d) ∷ ds) = ap (λ ks. key ∷ ks) (no_values-keys ds)

keys-set_key :
    (key : Text) (o : Option OptionValue) (es : List (Text × Option OptionValue))
    → keys (set_key key o es) ≡ keys es
unfolding set_key
keys-set_key key o [] = refl
keys-set_key key o ((k, x) ∷ es) = ap (λ ks. k ∷ ks) (keys-set_key key o es)

Holds-weaken :
    {A : Type 0} {P Q : A → Type 0} (o : Outcome A) → ((a : A) → P a → Q a) → Holds P o → Holds Q o
Holds-weaken (done a) f h = f a h
Holds-weaken (throws e) f h = tt
Holds-weaken aborts f h = tt

abbrev is_key : Text → List (Text × OptionDefinition) → Bool
is_key t [] = false
is_key t ((key, d) ∷ rest) = eq_bytes key t || is_key t rest

-- As long as some definitions are left, their options may have no value.
abbrev Progress :
    Specification → List (Text × OptionDefinition) → List (Text × Option OptionValue) → Type 0
Progress spec left [] = Unit {0}
Progress spec left ((key, none) ∷ rest) = (is_key key left ≡ true) × Progress spec left rest
Progress spec left ((key, some v) ∷ rest) = Fits spec key v × Progress spec left rest

same_type-eq : (a b : OptionType) → same_type a b ≡ true → a ≡ b
same_type-eq uint_option uint_option h = refl
same_type-eq bool_option bool_option h = refl
same_type-eq buffer_option buffer_option h = refl
same_type-eq uint_option bool_option h = cc h
same_type-eq uint_option buffer_option h = cc h
same_type-eq bool_option uint_option h = cc h
same_type-eq bool_option buffer_option h = cc h
same_type-eq buffer_option uint_option h = cc h
same_type-eq buffer_option bool_option h = cc h

or_right : (a b : Bool) → b ≡ true → (a || b) ≡ true
or_right true b h = refl
or_right false b h = h

or_skip : (a b : Bool) → a ≡ false → (a || b) ≡ true → b ≡ true
or_skip true b e h = cc e
or_skip false b e h = h

module _ (spec : Specification) where
  Progress-more :
      (key : Text) (d : OptionDefinition) (left : List (Text × OptionDefinition))
      (es : List (Text × Option OptionValue))
      → Progress spec left es
      → Progress spec ((key, d) ∷ left) es
  Progress-more key d left [] h = tt
  Progress-more key d left ((k, some v) ∷ es) (fits, h) = (fits, Progress-more key d left es h)
  Progress-more key d left ((k, none) ∷ es) (later, h) =
      (or_right (eq_bytes key k) (is_key k left) later, Progress-more key d left es h)

  no_values-Progress : (left : List (Text × OptionDefinition)) → Progress spec left (no_values left)
  unfolding no_values
  no_values-Progress [] = tt
  no_values-Progress ((key, d) ∷ left) = (
    rw ((eq_bytes_iff key key).1 refl) refl,
    Progress-more key d left (no_values left) (no_values-Progress left),
  )

  Progress-HaveValues :
      (es : List (Text × Option OptionValue)) → Progress spec [] es → HaveValues spec es
  Progress-HaveValues [] h = tt
  Progress-HaveValues ((k, some v) ∷ es) (fits, h) = (fits, Progress-HaveValues es h)
  Progress-HaveValues ((k, none) ∷ es) (later, h) = cc later

  one_entry :
      (b : Bool) (key k : Text) (d : OptionDefinition) (left : List (Text × OptionDefinition))
      (v : OptionValue) (o : Option OptionValue) (es es' : List (Text × Option OptionValue))
      → eq_bytes k key ≡ b
      → Fits spec key v
      → Progress spec ((key, d) ∷ left) ((k, o) ∷ es)
      → Progress spec left es'
      → Progress spec left ((k, (if b then some v else o)) ∷ es')
  one_entry true key k d left v o es es' same fits h rest =
      (subst (λ t. Fits spec t v) (sym ((eq_bytes_iff k key).0 same)) fits, rest)
  one_entry false key k d left v (some w) es es' other fits (old, h) rest = (old, rest)
  one_entry false key k d left v none es es' other fits (later, h) rest =
      (or_skip (eq_bytes key k) (is_key k left) (eq_bytes_sym key k ∙ other) later, rest)

  later_entries :
      (left : List (Text × OptionDefinition)) (k : Text) (o : Option OptionValue)
      (es : List (Text × Option OptionValue))
      → Progress spec left ((k, o) ∷ es)
      → Progress spec left es
  later_entries left k none es (h, rest) = rest
  later_entries left k (some v) es (h, rest) = rest

  set_key-Progress :
      (key : Text) (d : OptionDefinition) (left : List (Text × OptionDefinition)) (v : OptionValue)
      (es : List (Text × Option OptionValue))
      → Fits spec key v
      → Progress spec ((key, d) ∷ left) es
      → Progress spec left (set_key key (some v) es)
  unfolding set_key
  set_key-Progress key d left v [] fits h = tt
  set_key-Progress key d left v ((k, o) ∷ es) fits h =
      one_entry (eq_bytes k key) key k d left v o es (set_key key (some v) es) refl fits h
        (set_key-Progress key d left v es fits (later_entries ((key, d) ∷ left) k o es h))

-- After one definition fewer is left.
abbrev Moved : Operator → List (Text × OptionDefinition) → Operator → Type 0
Moved op left op' =
    Progress op'.spec left op'.options × (op'.spec ≡ op.spec) × (keys op'.options ≡ keys op.options)

put-Moved :
    (op : Operator) (key : Text) (d : OptionDefinition) (left : List (Text × OptionDefinition))
    (value : OptionValue) (old : Option (Option OptionValue))
    → Fits op.spec key value
    → Progress op.spec ((key, d) ∷ left) op.options
    → Holds (Moved op left) (put_option op key value old)
put-Moved op key d left value none fits h = tt
put-Moved op key d left value (some o) fits h = (
  set_key-Progress op.spec key d left value op.options fits h,
  refl,
  keys-set_key key (some value) op.options,
)

found-Moved :
    (op : Operator) (key : Text) (d : OptionDefinition) (left : List (Text × OptionDefinition))
    (value : OptionValue) (found : OptionDefinition) (b : Bool)
    → find_key key op.spec.options ≡ some found
    → same_type found.type (type_of value) ≡ b
    → Progress op.spec ((key, d) ∷ left) op.options
    → Holds
        (Moved op left)
        (if b then put_option op key value (find_key key op.options) else throws invalid_option)
found-Moved op key d left value found false e same h = tt
found-Moved op key d left value found true e same h =
    put-Moved op key d left value (find_key key op.options)
      (found, e, same_type-eq found.type (type_of value) same) h

set_found-Moved :
    (op : Operator) (key : Text) (d : OptionDefinition) (left : List (Text × OptionDefinition))
    (value : OptionValue) (o : Option OptionDefinition)
    → find_key key op.spec.options ≡ o
    → Progress op.spec ((key, d) ∷ left) op.options
    → Holds (Moved op left) (set_found op key value o)
set_found-Moved op key d left value none e h = tt
set_found-Moved op key d left value (some found) e h =
    found-Moved op key d left value found (same_type found.type (type_of value)) e refl h

set_option-Moved :
    (op : Operator) (key : Text) (d : OptionDefinition) (left : List (Text × OptionDefinition))
    (value : OptionValue)
    → Progress op.spec ((key, d) ∷ left) op.options
    → Holds (Moved op left) (set_option op key value)
unfolding set_option
set_option-Moved op key d left value h =
    set_found-Moved op key d left value (find_key key op.spec.options) refl h

find_key-no_values :
    (key : Text) (ds : List (Text × OptionDefinition)) (d : OptionDefinition)
    → find_key key ds ≡ some d
    → find_key key (no_values ds) ≡ some none
unfolding find_key no_values
find_key-no_values key [] d h = cc h
find_key-no_values key ((k, e) ∷ ds) d h = elim (Bool-cases (eq_bytes k key)) [
  | inl b ↦ rw b refl
  | inr b ↦ rw b (find_key-no_values key ds d (rw b at h))
]

find_key-set_key :
    {A : Type 0} (key : Text) (a b : A) (es : List (Text × A))
    → find_key key es ≡ some b
    → find_key key (set_key key a es) ≡ some a
unfolding find_key set_key
find_key-set_key key a b [] h = cc h
find_key-set_key key a b ((k, e) ∷ es) h = elim (Bool-cases (eq_bytes k key)) [
  | inl same ↦ rw same refl
  | inr other ↦ rw other (find_key-set_key key a b es (rw other at h))
]

same_type_self : (t : OptionType) → same_type t t ≡ true
same_type_self uint_option = refl
same_type_self bool_option = refl
same_type_self buffer_option = refl

-- The operator takes the value for an option, which then has it.
abbrev pub Takes : Operator → Text → OptionValue → Type 0
Takes op key value =
    (op' : Operator) × (set_option op key value ≡ done op')
    × (find_key key op'.options ≡ some (some value))

new_operator-Takes :
    (spec : Specification) (key : Text) (d : OptionDefinition) (value : OptionValue)
    → find_key key spec.options ≡ some d
    → d.type ≡ type_of value
    → Takes (new_operator spec) key value
unfolding set_option
new_operator-Takes spec key d value found same =
    let empty = find_key-no_values key spec.options d found in
    (
      record { spec = spec; options = set_key key (some value) (no_values spec.options) },
      rw found (rw same (rw (same_type_self (type_of value)) (rw empty refl))),
      find_key-set_key key (some value) none (no_values spec.options) empty,
    )

module _ (L : Databases) {H : Type 0} (handlers : Handlers H) (filesystem : H → Option (Txn L))
    (parse : List CommandOption → List Text → Option ParseResult) (realpath : Text → Option Text)
    (open_file : Text → Option (List ℕ)) where
  abbrev IsComplete : Operator → Operator → Type 0
  IsComplete op op' =
      HaveValues op'.spec op'.options × (op'.spec ≡ op.spec) × (keys op'.options ≡ keys op.options)

  set_options-IsComplete :
      (a : OperatorAgent) (r : ParseResult) (left : List (Text × OptionDefinition)) (op : Operator)
      → Progress op.spec left op.options
      → Holds
          (IsComplete op)
          (set_options L handlers filesystem parse realpath open_file a r left op)
  unfolding set_options
  set_options-IsComplete a r [] op h = (Progress-HaveValues op.spec op.options h, refl, refl)
  set_options-IsComplete a r ((key, d) ∷ left) op h =
      >>>-Holds (IsComplete op)
        (value_of L handlers filesystem parse realpath open_file a d.type d.buffer_size (r key)) _
        (λ value _. >>>-Holds (IsComplete op) (set_option op key value) _ (λ op' e.
          let (progress, same, listed) =
            subst (Holds (Moved op left)) e (set_option-Moved op key d left value h) in
          Holds-weaken (set_options L handlers filesystem parse realpath open_file a r left op')
            (λ o (whole, as_before, listed'). (whole, as_before ∙ same, listed' ∙ listed))
            (set_options-IsComplete a r left op' progress)))

  abbrev pub IsOperatorOf : Specification → (Operator × Bool) × OperatorAgent → Type 0
  IsOperatorOf spec ((op, profile), a) = AreFilled spec op.options × (op.spec ≡ spec)

  pub instantiate_operator-IsOperatorOf :
      (spec : Specification) (a : OperatorAgent)
      → Holds
          (λ ((op, profile), a'). AreFilled spec op.options × (op.spec ≡ spec))
          (instantiate_operator L handlers filesystem parse realpath open_file spec a)
  unfolding instantiate_operator
  instantiate_operator-IsOperatorOf spec a =
      >>>-Holds (IsOperatorOf spec) (parse_options parse a (build_operator_options spec)) _ (λ r _.
        >>>-Holds (IsOperatorOf spec)
          (set_options L handlers filesystem parse realpath open_file a r spec.options
            (new_operator spec))
          _
          (λ op e.
            let (whole, same, listed) = subst (Holds (IsComplete (new_operator spec))) e (
              set_options-IsComplete a r spec.options (new_operator spec)
                (no_values-Progress spec spec.options)) in
            >>>-Holds (IsOperatorOf spec) (as_text (r input_key)) _ (λ input _.
              >>>-Holds (IsOperatorOf spec)
                (set_input L handlers filesystem parse realpath open_file a input) _
                (λ a' _. >>>-Holds (IsOperatorOf spec) (as_flag (r profile_key)) _ (λ profile _. (
                  (
                    subst (λ s. HaveValues s op.options) same whole,
                    listed ∙ no_values-keys spec.options,
                  ),
                  same,
                ))))))

  -- For any arguments and files: an operator that `instantiateOperator` gives is one of the
  -- specification, its options are those that the specification defines, in their order, and each
  -- of them has a value, which is of the type that the option is defined with. `setOption` takes a
  -- value of the right type for each option of a new operator of the specification.
  pub instantiate_operator-AreFilled :
      (spec : Specification) (a : OperatorAgent)
      → Holds
          (λ ((op, profile), a'). AreFilled spec op.options × (op.spec ≡ spec))
          (instantiate_operator L handlers filesystem parse realpath open_file spec a)
        × ((key : Text) (d : OptionDefinition) (value : OptionValue)
            → find_key key spec.options ≡ some d
            → d.type ≡ type_of value
            → Takes (new_operator spec) key value)
  instantiate_operator-AreFilled spec a =
      (instantiate_operator-IsOperatorOf spec a, new_operator-Takes spec)
