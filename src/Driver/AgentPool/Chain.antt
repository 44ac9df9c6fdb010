-- ===== src/Driver/AgentPool/Chain.antt =====
-- The pipeline that the walk along the links finds.
use metal_fs.Base.{
  ℕ, zero, suc, ◌<◌, ◌≡◌, refl, ap, ◌∙◌, ◌⊎◌, inl, inr, Bool, true, false, none, some, List, [],
  ◌∷◌, arith, if◌then◌else◌, Bool-cases, Option-cases,
}
use metal_fs.Driver.AgentPool.{
  Agent, AgentPool, is_output_agent, find_input, follow, ends_in_output, erase_all, take_pipeline,
  finish_walk, search_from, contains_valid_pipeline,
}

-- From an agent on, each agent's output is the next of the others, and the last one is an output
-- agent or has no output.
unfoldable pub IsChain : (ℕ → Agent) → ℕ → (others : List ℕ) → Type 0
IsChain agents a [] = (is_output_agent (agents a) ≡ true) ⊎ ((agents a).output ≡ none)
IsChain agents a (b ∷ others) =
    (is_output_agent (agents a) ≡ false) × ((agents a).output ≡ some b) × IsChain agents b others

-- The links lead down, so none of them leads around in a circle.
abbrev pub LeadsDown : (ℕ → Agent) → (rank : ℕ → ℕ) → Type 0
LeadsDown agents rank =
    (a b : ℕ) → is_output_agent (agents a) ≡ false → (agents a).output ≡ some b → rank b < rank a

-- The walk returns a chain.
abbrev Follows : (ℕ → Agent) → ℕ → ℕ → Type 0
Follows agents n a =
    (others : List ℕ) × (follow n agents a ≡ some (a ∷ others)) × IsChain agents a others

follow-IsChain :
    (agents : ℕ → Agent) (rank : ℕ → ℕ) (n a : ℕ)
    → LeadsDown agents rank
    → rank a < n
    → Follows agents n a
unfolding follow IsChain
follow-IsChain agents rank zero a down h = absurd (omega arith)
follow-IsChain agents rank (suc n) a down h = elim (Bool-cases (is_output_agent (agents a))) [
  | inl o ↦ ([], rw o refl, inl o)
  | inr o ↦ elim (Option-cases (agents a).output) [
    | inl e ↦ ([], rw o (rw e refl), inr e)
    | inr (b, e) ↦
        let (others, same, chain) =
          follow-IsChain agents rank n b down (omega (arith, down a b o e)) in
        (b ∷ others, rw o (rw e (rw same refl)), (o, e, chain))
  ]
]

-- What `containsValidPipeline` leaves when it looks for a pipeline: a chain from the first input
-- agent to an output agent, whose agents are no longer registered, or the pool as it was, if there
-- is no input agent or the chain from the first one has no output at its end.
abbrev pub IsSearched : AgentPool → AgentPool → Bool → Type 0
IsSearched pool pool' true =
    (a : ℕ) × (others : List ℕ) × (find_input pool.agent pool.registered ≡ some a)
    × (pool'.pipeline ≡ a ∷ others)
    × IsChain pool.agent a others
    × (ends_in_output pool.agent (a ∷ others) ≡ true)
    × (pool'.registered ≡ erase_all pool.registered (a ∷ others))
    × (pool'.agent ≡ pool.agent)
    × (pool'.contains_valid_pipeline_cached ≡ true)
IsSearched pool pool' false =
    (pool' ≡ pool)
    × ((find_input pool.agent pool.registered ≡ none)
        ⊎ ((a : ℕ) × (others : List ℕ) × (find_input pool.agent pool.registered ≡ some a)
            × IsChain pool.agent a others
            × (ends_in_output pool.agent (a ∷ others) ≡ false)))

-- The end of the walk.
take_pipeline-IsSearched :
    (pool : AgentPool) (a : ℕ) (others : List ℕ)
    → find_input pool.agent pool.registered ≡ some a
    → IsChain pool.agent a others
    → IsSearched pool (take_pipeline pool (a ∷ others)).0 (take_pipeline pool (a ∷ others)).1
take_pipeline-IsSearched pool a others first chain =
    elim (Bool-cases (ends_in_output pool.agent (a ∷ others))) [
      | inl e ↦ rw e (a, others, first, refl, chain, e, refl, refl, refl)
      | inr e ↦ rw e (refl, inr (a, others, first, chain, e))
    ]

-- Without a pipeline from before, the search starts.
search_lem :
    (steps : ℕ) (pool : AgentPool)
    → pool.contains_valid_pipeline_cached ≡ false
    → contains_valid_pipeline steps pool
      ≡ search_from steps pool (find_input pool.agent pool.registered)
unfolding contains_valid_pipeline
search_lem steps pool fresh =
    ap
      (λ b.
        if b
        then some (pool, true)
        else search_from steps pool (find_input pool.agent pool.registered))
      fresh

search_from-follow :
    (steps : ℕ) (pool : AgentPool) (a : ℕ) (path : List ℕ)
    → follow steps pool.agent a ≡ some path
    → search_from steps pool (some a) ≡ some (take_pipeline pool path)
unfolding search_from
search_from-follow steps pool a path same = ap (finish_walk pool) same

search_from-none : (steps : ℕ) (pool : AgentPool) → search_from steps pool none ≡ some (pool, false)
unfolding search_from
search_from-none steps pool = refl

-- For links that do not lead around in a circle, and more steps than any of them is high,
-- `containsValidPipeline` ends; if it has no pipeline from before, it takes the chain from the first
-- input agent on, if that ends in an output agent, out of the registered agents, and leaves the pool
-- as it is otherwise.
pub contains_valid_pipeline-IsSearched :
    (steps : ℕ) (pool : AgentPool) (rank : ℕ → ℕ)
    → LeadsDown pool.agent rank
    → ((a : ℕ) → rank a < steps)
    → pool.contains_valid_pipeline_cached ≡ false
    → (pool' : AgentPool) × (found : Bool) × (contains_valid_pipeline steps pool
        ≡ some (pool', found))
      × IsSearched pool pool' found
contains_valid_pipeline-IsSearched steps pool rank down enough fresh =
    elim (Option-cases (find_input pool.agent pool.registered)) [
      | inl e ↦ (
        pool,
        false,
        search_lem steps pool fresh ∙ ap (search_from steps pool) e ∙ search_from-none steps pool,
        (refl, inl e),
      )
      | inr (a, e) ↦
          let (others, same, chain) = follow-IsChain pool.agent rank steps a down (enough a) in
          (
            (take_pipeline pool (a ∷ others)).0,
            (take_pipeline pool (a ∷ others)).1,
            search_lem steps pool fresh
                ∙ ap (search_from steps pool) e
                ∙ search_from-follow steps pool a (a ∷ others) same,
            take_pipeline-IsSearched pool a others e chain,
          )
    ]
