-- ===== src/Tests/Agents.antt =====
-- The agents that wait for a pipeline at concrete inputs.
use metal_fs.Base.{
  ℕ, zero, suc, ◌<◌, ◌≡◌, refl, ap, subst, Bool, true, false, Option, none, some, [], ◌∷◌, arith,
}
use metal_fs.Driver.AgentPool.{Agent, AgentPool, register_agent, contains_valid_pipeline}
use metal_fs.Driver.AgentPool.Chain.{LeadsDown, IsSearched, contains_valid_pipeline-IsSearched}

-- An agent as it registers.
abbrev agent_of : (pid input output : ℕ) → Agent
agent_of pid input output = record {
  pid = pid;
  input_pid = input;
  output_pid = output;
  output = none;
  error = false;
  terminated = false;
}

abbrev no_agents : AgentPool
no_agents = record {
  agent = λ i. agent_of 0 1 1;
  registered = [];
  pipeline = [];
  contains_valid_pipeline_cached = false;
}

-- The last of two agents registers first.
abbrev two_agents : AgentPool
unfolding register_agent
two_agents = register_agent 0 (agent_of 7 0 8) (register_agent 1 (agent_of 8 7 0) no_agents)

abbrev two_rank : ℕ → ℕ
two_rank zero = 1
two_rank (suc n) = 0

-- Both are taken for a pipeline, in order.
search_two :
    contains_valid_pipeline 2 two_agents
    ≡ some (
      record two_agents {
        registered = [];
        pipeline = 0 ∷ 1 ∷ [];
        contains_valid_pipeline_cached = true;
      },
      true,
    )
unfolding contains_valid_pipeline two_agents
search_two = refl

-- Three agents that name each other around, behind an input agent: no number of steps suffices.
abbrev around : AgentPool
unfolding register_agent
around = register_agent 0 (agent_of 6 0 7) (
    register_agent 3 (agent_of 9 8 7)
      (register_agent 2 (agent_of 8 7 9) (register_agent 1 (agent_of 7 9 8) no_agents)))

search_around : contains_valid_pipeline 40 around ≡ none
unfolding contains_valid_pipeline around
search_around = refl

-- Only the first of the two is linked, to the second.
next_of : Option ℕ → ℕ
next_of none = 0
next_of (some b) = b

two-LeadsDown : LeadsDown two_agents.agent two_rank
unfolding two_agents next_of
two-LeadsDown zero b o e = subst (λ x. two_rank x < 1) (ap next_of e) (omega arith)
two-LeadsDown (suc zero) b o e = absurd (ground arith)
two-LeadsDown (suc (suc a)) b o e = absurd (ground arith)

two_rank-2 : (a : ℕ) → two_rank a < 2
two_rank-2 zero = omega arith
two_rank-2 (suc n) = omega arith

contains_valid_pipeline-IsSearched_example :
    (pool' : AgentPool) × (found : Bool) × (contains_valid_pipeline 2 two_agents
      ≡ some (pool', found))
    × IsSearched two_agents pool' found
unfolding two_agents
contains_valid_pipeline-IsSearched_example =
    contains_valid_pipeline-IsSearched 2 two_agents two_rank two-LeadsDown two_rank-2 refl
