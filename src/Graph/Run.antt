-- ===== src/Graph/Run.antt =====
-- src/graph/builder.py: the wiring of the nodes. LangGraph, which runs the graph, goes from node to
-- node along the edges, at most `recursion_limit` times, and raises if that is not enough.
pub mod Rule
pub mod Outcome
pub mod Termination
use app_generation_microserv.Base.{
  ℕ, zero, suc, String, Bool, true, false, Option, none, some, if◌then◌else◌,
}
use app_generation_microserv.Base.Dict.{Dict}
use app_generation_microserv.Ownership.{Route, fail, repair_ui, repair_logic, packaging}
use app_generation_microserv.Prd.{Prd}
use app_generation_microserv.Graph.State.{BuildState, initial_state}
use app_generation_microserv.Graph.Nodes.{Agents, planning_node, genui_node, logic_node}
use app_generation_microserv.Graph.Qa.{located, qa_node}
use app_generation_microserv.Graph.Packaging.{packaging_node}
use app_generation_microserv.Graph.Router.{route_after_qa, route_after_agent}

pub data Stage : Type 0 where
  plan genui logic qa package_stage : Stage

-- the edges out of "qa"; `none` is END
abbrev pub after_qa : Route → Option Stage
after_qa packaging = some package_stage
after_qa repair_ui = some genui
after_qa repair_logic = some logic
after_qa fail = none

-- the edges out of "genui" and "logic"
abbrev pub go_on : Stage → BuildState → Option Stage
go_on next s = if route_after_agent s then some next else none

-- a node's state goes to the next node
abbrev pub routed :
    {W : Type 0}
    → (BuildState → Option Stage)
    → Option (BuildState × Dict String × W)
    → Option (Option Stage × BuildState × Dict String × W)
routed next none = none
routed next (some (s, disk, w)) = some (next s, s, disk, w)

module _ (A : Agents) where
  open A use {W}

  unfoldable pub step :
      ℕ
      → Stage
      → BuildState
      → Dict String
      → W
      → Option (Option Stage × BuildState × Dict String × W)
  unfolding planning_node genui_node logic_node qa_node packaging_node
  step max_repairs plan s disk w = routed (λ _. some genui) (located disk (planning_node A s w))
  step max_repairs genui s disk w = routed (go_on logic) (located disk (genui_node A s w))
  step max_repairs logic s disk w = routed (go_on qa) (located disk (logic_node A s w))
  step max_repairs qa s disk w =
      routed (λ s'. after_qa (route_after_qa max_repairs s')) (qa_node A s disk w)
  step max_repairs package_stage s disk w = some (none, packaging_node A s w, disk, w)

  pub data Ending : Type 0 where
    raised : Ending
    recursion_error : Ending
    finished : BuildState → Dict String → W → Ending

  -- what follows a node
  abbrev pub ended :
      (Stage → BuildState → Dict String → W → Ending)
      → Option (Option Stage × BuildState × Dict String × W)
      → Ending
  ended continue none = raised
  ended continue (some (none, s, disk, w)) = finished s disk w
  ended continue (some (some next, s, disk, w)) = continue next s disk w

  unfoldable pub run : ℕ → ℕ → Stage → BuildState → Dict String → W → Ending
  unfolding step
  run zero max_repairs stage s disk w = recursion_error
  run (suc limit) max_repairs stage s disk w =
      ended (run limit max_repairs) (step max_repairs stage s disk w)

  -- `app.invoke(initial_state(prd, build_dir))`
  unfoldable pub invoke : ℕ → ℕ → Prd → String → Dict String → W → Ending
  unfolding run
  invoke recursion_limit max_repairs prd build_dir disk w =
      run recursion_limit max_repairs plan (initial_state prd build_dir) disk w
