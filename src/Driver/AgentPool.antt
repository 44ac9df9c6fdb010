-- ===== src/Driver/AgentPool.antt =====
-- src/metal-driver/agent_pool.cpp: the agents that wait for a pipeline, and how they are linked.
-- What the constructor of OperatorAgent reads from the socket is an argument.
pub mod Chain
use metal_fs.Base.{
  ℕ, zero, suc, Bool, true, false, ◌&&◌, Option, none, some, List, [], ◌∷◌, ◌==◌, if◌then◌else◌,
}

-- An `OperatorAgent`; `output` is the number of the agent that `_outputAgent` points to.
pub record Agent : Type 0 where
  pub pid : ℕ
  pub input_pid : ℕ
  pub output_pid : ℕ
  pub output : Option ℕ
  pub error : Bool
  pub terminated : Bool

-- The agents by number (pointers to them are shared), the numbers of those that are registered, in
-- the order in which the set is gone through, and of those in the pipeline that was found.
pub record AgentPool : Type 0 where
  pub agent : ℕ → Agent
  pub registered : List ℕ
  pub pipeline : List ℕ
  pub contains_valid_pipeline_cached : Bool

abbrev pub set_output : (from to : ℕ) → (ℕ → Agent) → ℕ → Agent
set_output from to agents i = if i == from then record (agents i) { output = some to } else agents i

abbrev pub is_output_connected_to : Agent → Agent → Bool
is_output_connected_to a other = other.pid == a.output_pid

abbrev pub is_input_agent : Agent → Bool
is_input_agent a = a.input_pid == 0

abbrev pub is_output_agent : Agent → Bool
is_output_agent a = a.output_pid == 0

-- The loop of `registerAgent` over the registered agents.
unfoldable pub link : (new : ℕ) → (others : List ℕ) → (ℕ → Agent) → ℕ → Agent
link new [] agents = agents
link new (other ∷ others) agents = link new others (
    if is_output_connected_to (agents other) (agents new)
    then set_output other new agents
    else if is_output_connected_to (agents new) (agents other)
    then set_output new other agents
    else agents)

abbrev pub put_agent : ℕ → Agent → (ℕ → Agent) → ℕ → Agent
put_agent new a agents i = if i == new then a else agents i

-- `registerAgent`, for an agent with a number of its own.
unfoldable pub register_agent : (new : ℕ) → Agent → AgentPool → AgentPool
unfolding link
register_agent new a pool = record pool {
  agent = link new pool.registered (put_agent new a pool.agent);
  registered = new ∷ pool.registered;
  contains_valid_pipeline_cached = false;
}

abbrev pub find_input : (ℕ → Agent) → List ℕ → Option ℕ
find_input agents [] = none
find_input agents (a ∷ more) = if is_input_agent (agents a) then some a else find_input agents more

abbrev pub cons_some : ℕ → Option (List ℕ) → Option (List ℕ)
cons_some a none = none
cons_some a (some more) = some (a ∷ more)

-- The walk along the links until an agent with output_pid == 0, for at most `steps` agents.
unfoldable pub follow : (steps : ℕ) → (ℕ → Agent) → ℕ → Option (List ℕ)
follow zero agents a = none
follow (suc n) agents a =
    if is_output_agent (agents a)
    then some (a ∷ [])
    else elim (agents a).output [ none ↦ some (a ∷ []) | some b ↦ cons_some a (follow n agents b) ]

-- `pipeline_agents.back()->isOutputAgent()`
abbrev pub ends_in_output : (ℕ → Agent) → List ℕ → Bool
ends_in_output agents [] = false
ends_in_output agents (a ∷ []) = is_output_agent (agents a)
ends_in_output agents (a ∷ b ∷ more) = ends_in_output agents (b ∷ more)

abbrev pub erase : List ℕ → ℕ → List ℕ
erase [] a = []
erase (b ∷ bs) a = if b == a then erase bs a else b ∷ erase bs a

abbrev pub erase_all : List ℕ → List ℕ → List ℕ
erase_all bs [] = bs
erase_all bs (a ∷ more) = erase_all (erase bs a) more

abbrev pub take_pipeline : AgentPool → List ℕ → AgentPool × Bool
take_pipeline pool path =
    if ends_in_output pool.agent path
    then (
      record pool {
        registered = erase_all pool.registered path;
        pipeline = path;
        contains_valid_pipeline_cached = true;
      },
      true,
    )
    else (pool, false)

-- The end of `containsValidPipeline`, after the walk.
abbrev pub finish_walk : AgentPool → Option (List ℕ) → Option (AgentPool × Bool)
finish_walk pool none = none
finish_walk pool (some path) = some (take_pipeline pool path)

-- `containsValidPipeline` from the search for an input agent on.
unfoldable pub search_from : (steps : ℕ) → AgentPool → Option ℕ → Option (AgentPool × Bool)
unfolding follow
search_from steps pool none = some (pool, false)
search_from steps pool (some a) = finish_walk pool (follow steps pool.agent a)

-- `containsValidPipeline`; none where the steps do not suffice.
unfoldable pub contains_valid_pipeline : (steps : ℕ) → AgentPool → Option (AgentPool × Bool)
unfolding search_from
contains_valid_pipeline steps pool =
    if pool.contains_valid_pipeline_cached
    then some (pool, true)
    else search_from steps pool (find_input pool.agent pool.registered)

-- `sendRegistrationInvalid`: the agent, and whether the response has the agent's own error message.
abbrev pub reject : Agent → Agent × Bool
reject a = (record a { terminated = true }, a.error)

abbrev pub reject_in : ℕ → (ℕ → Agent) → ℕ → Agent
reject_in n agents i = if i == n then (reject (agents i)).0 else agents i

-- `sendAllAgentsInvalid`, for the agents of a list that are not terminated if they are left out.
unfoldable pub reject_all : (skip_terminated : Bool) → List ℕ → (ℕ → Agent) → ℕ → Agent
reject_all skip_terminated [] agents = agents
reject_all skip_terminated (a ∷ more) agents =
    reject_all skip_terminated more
      (if skip_terminated && (agents a).terminated then agents else reject_in a agents)

unfoldable pub release_unused_agents : AgentPool → AgentPool
unfolding reject_all
release_unused_agents pool = record pool {
  agent = reject_all false pool.registered pool.agent;
  registered = [];
}

unfoldable pub reset : AgentPool → AgentPool
unfolding reject_all
reset pool = record pool {
  agent = reject_all false pool.registered (reject_all true pool.pipeline pool.agent);
  registered = [];
  pipeline = [];
}
