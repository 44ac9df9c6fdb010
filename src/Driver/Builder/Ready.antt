-- ===== src/Driver/Builder/Ready.antt =====
-- What a pipeline has when it is configured.
use metal_fs.Base.{
  ℕ, ◌≡◌, refl, sym, subst, ◌⊎◌, inl, inr, Bool, true, false, not, ◌&&◌, Option, none, some, List,
  [], ◌∷◌, ◌++◌, map, if◌then◌else◌,
}
use metal_fs.Fs.State.{Databases, Txn}
use metal_fs.Pipeline.Card.{invalid_input, invalid_output, Outcome, done, Holds, >>>-Holds}
use metal_fs.Pipeline.Operator.{Specification, Operator}
use metal_fs.Driver.Combined.{Text, is_empty, Handlers}
use metal_fs.Driver.Agent.{
  OperatorAgent, CommandOption, ParseResult, create_input_buffer, create_output_buffer,
  open_internal, set_internal_input_file, set_internal_output_file,
}
use metal_fs.Driver.Options.{is_datagen_agent, is_null_output}
use metal_fs.Driver.Builder.{
  resolve_specifications, filled, ConfiguredPipeline, on_front, on_back, Acceptance, acceptance,
  instantiate_operator, instantiated, instantiate_all, validated, establish_source, establish_sink,
  configure,
}
use metal_fs.Driver.Builder.Filled.{AreFilled, IsOperatorOf, instantiate_operator-IsOperatorOf}
use metal_fs.Driver.Builder.Resolve.{Resolved}

abbrev pub AllFilled : List (Operator × Bool) → Type 0
AllFilled [] = Unit {0}
AllFilled ((op, profile) ∷ ops) = AreFilled op.spec op.options × AllFilled ops

-- A buffer, generated data, or a file in a file system.
abbrev pub HasSource : OperatorAgent → Type 0
HasSource a =
    (a.input_buffer ≡ true) ⊎ ((is_datagen_agent a ≡ true) ⊎ (a.internal_input_file.1 ≡ true))

-- A buffer, or a file in a file system. An agent with the null output has a buffer.
abbrev pub HasSink : OperatorAgent → Type 0
HasSink a =
    (a.output_buffer ≡ true) ⊎ ((a.internal_output_file.1 ≡ true) × (is_null_output a ≡ false))

abbrev pub OnFront : (OperatorAgent → Type 0) → List OperatorAgent → Type 0
OnFront P [] = ⊥
OnFront P (a ∷ others) = P a

abbrev pub OnBack : (OperatorAgent → Type 0) → List OperatorAgent → Type 0
OnBack P [] = ⊥
OnBack P (a ∷ []) = P a
OnBack P (a ∷ b ∷ others) = OnBack P (b ∷ others)

on_front-OnFront :
    (P : OperatorAgent → Type 0) (f : OperatorAgent → Outcome OperatorAgent)
    (agents : List OperatorAgent)
    → ((a : OperatorAgent) → Holds P (f a))
    → Holds (OnFront P) (on_front f agents)
on_front-OnFront P f [] h = tt
on_front-OnFront P f (a ∷ others) h = >>>-Holds (OnFront P) (f a) _ (λ b e. subst (Holds P) e (h a))

-- The back is changed so that it satisfies `P`, and the front keeps `Q`.
abbrev Changed : (P Q : OperatorAgent → Type 0) → List OperatorAgent → List OperatorAgent → Type 0
Changed P Q agents after = OnBack P after × (OnFront Q agents → OnFront Q after)

keep_front :
    (P Q : OperatorAgent → Type 0) (a b : OperatorAgent) (others rest : List OperatorAgent)
    → Changed P Q (b ∷ others) rest
    → Changed P Q (a ∷ b ∷ others) (a ∷ rest)
keep_front P Q a b others [] (back, front) = absurd back
keep_front P Q a b others (c ∷ rest) (back, front) = (back, λ q. q)

on_back-Changed :
    (P Q : OperatorAgent → Type 0) (f : OperatorAgent → Outcome OperatorAgent)
    (agents : List OperatorAgent)
    → ((a : OperatorAgent) → Holds (λ b. P b × (Q a → Q b)) (f a))
    → Holds (Changed P Q agents) (on_back f agents)
unfolding on_back
on_back-Changed P Q f [] h = tt
on_back-Changed P Q f (a ∷ []) h =
    >>>-Holds (Changed P Q (a ∷ [])) (f a) _ (λ b e. subst (Holds (λ c. P c × (Q a → Q c))) e (h a))
on_back-Changed P Q f (a ∷ b ∷ others) h =
    >>>-Holds (Changed P Q (a ∷ b ∷ others)) (on_back f (b ∷ others)) _ (λ rest e.
      keep_front P Q a b others rest
        (subst (Holds (Changed P Q (b ∷ others))) e (on_back-Changed P Q f (b ∷ others) h)))

module _ (L : Databases) {H : Type 0} (handlers : Handlers H) (filesystem : H → Option (Txn L))
    (parse : List CommandOption → List Text → Option ParseResult) (realpath : Text → Option Text)
    (open_file : Text → Option (List ℕ)) where
  source_of :
      (file named datagen : Bool) (a : OperatorAgent)
      → a.internal_input_file.1 ≡ file
      → is_datagen_agent a ≡ datagen
      → Holds HasSource (
          if file
          then done a
          else if not named
          then set_internal_input_file L handlers filesystem a a.internal_input_filename
          else if not datagen
          then done (create_input_buffer a)
          else done a)
  source_of true named datagen a f d = inr (inr f)
  source_of false false datagen a f d =
      >>>-Holds HasSource
        (open_internal L handlers filesystem invalid_input a.internal_input_filename) _
        (λ id _. inr (inr refl))
  source_of false true true a f d = inr (inl d)
  source_of false true false a f d = inl refl

  establish_source-HasSource :
      (a : OperatorAgent)
      → Holds HasSource (establish_source L handlers filesystem parse realpath open_file a)
  unfolding establish_source
  establish_source-HasSource a =
      source_of a.internal_input_file.1 (is_empty a.internal_input_filename) (is_datagen_agent a) a
        refl refl

  sink_of :
      (named null : Bool) (a : OperatorAgent)
      → is_null_output a ≡ null
      → Holds
          (λ b. HasSink b × (HasSource a → HasSource b))
          (if named && not null
            then set_internal_output_file L handlers filesystem a a.internal_output_filename
            else done (create_output_buffer a))
  sink_of false null a e = (inl refl, λ h. h)
  sink_of true true a e = (inl refl, λ h. h)
  sink_of true false a e =
      >>>-Holds (λ b. HasSink b × (HasSource a → HasSource b))
        (open_internal L handlers filesystem invalid_output a.internal_output_filename) _
        (λ id _. (inr (refl, e), λ h. h))

  establish_sink-HasSink :
      (a : OperatorAgent)
      → Holds
          (λ b. HasSink b × (HasSource a → HasSource b))
          (establish_sink L handlers filesystem parse realpath open_file a)
  unfolding establish_sink
  establish_sink-HasSink a =
      sink_of (not (is_empty a.internal_output_filename)) (is_null_output a) a refl

  instantiated-AllFilled :
      (spec : Option Specification) (a : OperatorAgent)
      → Holds
          (λ r. AllFilled r.0)
          (instantiated L handlers filesystem parse realpath open_file spec a)
  instantiated-AllFilled none a = tt
  instantiated-AllFilled (some spec) a =
      >>>-Holds (λ r. AllFilled r.0)
        (instantiate_operator L handlers filesystem parse realpath open_file spec a) _
        (λ x e.
          let (filled, same) =
            subst (Holds (IsOperatorOf L handlers filesystem parse realpath open_file spec)) e (
              instantiate_operator-IsOperatorOf L handlers filesystem parse realpath open_file spec
                a) in
          (subst (λ s. AreFilled s x.0.0.options) (sym same) filled, tt))

  both_filled :
      (xs ys : List (Operator × Bool)) → AllFilled xs → AllFilled ys → AllFilled (xs ++ ys)
  both_filled [] ys h k = k
  both_filled ((op, profile) ∷ xs) ys (filled, h) k = (filled, both_filled xs ys h k)

  instantiate_all-AllFilled :
      (xs : Resolved)
      → Holds
          (λ p. AllFilled p.operators)
          (instantiate_all L handlers filesystem parse realpath open_file xs)
  unfolding instantiate_all
  instantiate_all-AllFilled [] = tt
  instantiate_all-AllFilled ((spec, a) ∷ xs) =
      >>>-Holds (λ (p : ConfiguredPipeline). AllFilled p.operators)
        (instantiated L handlers filesystem parse realpath open_file spec a) _
        (λ x e.
          >>>-Holds (λ (p : ConfiguredPipeline). AllFilled p.operators)
            (instantiate_all L handlers filesystem parse realpath open_file xs) _
            (λ p e'.
              both_filled x.0 p.operators
                (subst (Holds (λ r. AllFilled r.0)) e (instantiated-AllFilled spec a))
                (subst (Holds (λ q. AllFilled q.operators)) e' (instantiate_all-AllFilled xs))))

  -- Each answer tells its agent, in their order, whether it has an input and an output buffer, and
  -- which file it is to read.
  abbrev pub TellsEach : List OperatorAgent → List Acceptance → Type 0
  TellsEach [] [] = Unit {0}
  TellsEach [] (r ∷ rs) = ⊥
  TellsEach (a ∷ others) [] = ⊥
  TellsEach (a ∷ others) (r ∷ rs) =
      (r.input_buffer ≡ a.input_buffer)
      × (r.output_buffer ≡ a.output_buffer)
      × (r.agent_read_filename ≡ a.agent_load_file)
      × TellsEach others rs

  acceptance-TellsEach : (agents : List OperatorAgent) → TellsEach agents (map acceptance agents)
  acceptance-TellsEach [] = tt
  acceptance-TellsEach (a ∷ others) = (refl, refl, refl, acceptance-TellsEach others)

  abbrev pub IsReady : ConfiguredPipeline × List Acceptance → Type 0
  IsReady (p, answers) =
      AllFilled p.operators
      × OnFront HasSource p.agents
      × OnBack HasSink p.agents
      × TellsEach p.agents answers

  -- For any registry, agents, command lines and files, where `configure` returns: each operator has
  -- the options that its specification defines, each with a value of its type; the first agent has
  -- an input buffer, a file in a file system, or is `datagen`; the last agent has an output buffer,
  -- or a file in a file system, and has a buffer if its output is the null file; each agent is told
  -- its buffers and its input file.
  pub configure-IsReady :
      (registry : List (Text × Specification)) (agents : List OperatorAgent)
      → Holds IsReady (configure L handlers filesystem parse realpath open_file registry agents)
  unfolding configure
  configure-IsReady registry agents =
      >>>-Holds IsReady (resolve_specifications registry true [] agents) _ (λ xs _.
        >>>-Holds IsReady (instantiate_all L handlers filesystem parse realpath open_file xs) _
          (λ p e.
            >>>-Holds IsReady
              (on_front (validated L handlers filesystem parse realpath open_file) p.agents) _
              (λ as1 _.
                >>>-Holds IsReady
                  (on_front (establish_source L handlers filesystem parse realpath open_file) as1) _
                  (λ as2 e2.
                    >>>-Holds IsReady
                      (on_back (establish_sink L handlers filesystem parse realpath open_file) as2)
                      _
                      (λ as3 e3.
                        let (back, front) = subst (Holds (Changed HasSink HasSource as2)) e3 (
                          on_back-Changed HasSink HasSource
                            (establish_sink L handlers filesystem parse realpath open_file) as2
                            establish_sink-HasSink) in
                        (
                          subst (Holds (λ q. AllFilled q.operators)) e
                              (instantiate_all-AllFilled xs),
                          front (
                              subst (Holds (OnFront HasSource)) e2 (
                                on_front-OnFront HasSource
                                  (establish_source L handlers filesystem parse realpath open_file)
                                  as1 establish_source-HasSource)),
                          back,
                          acceptance-TellsEach as3,
                        ))))))
