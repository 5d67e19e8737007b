-- ===== src/Graph/Router.antt =====
-- src/graph/nodes.py: `make_router` and `route_after_agent`.
use app_generation_microserv.Base.{ℕ, Bool, true, false, List, [], ◌∷◌, ltb, if◌then◌else◌}
use app_generation_microserv.Analyzer.{Diagnostic}
use app_generation_microserv.Ownership.{Route, fail, repair_ui, repair_logic, packaging, route_for}
use app_generation_microserv.Graph.State.{BuildState, Phase}

abbrev pub is_failed : Phase → Bool
is_failed Phase.failed = true
is_failed _ = false

-- A stalled batch goes to the agent that does not own it.
abbrev pub swapped : Bool → Route → Route
swapped true repair_ui = repair_logic
swapped true repair_logic = repair_ui
swapped _ r = r

unfoldable pub route_diagnostics : ℕ → BuildState → List Diagnostic → Route
route_diagnostics max_repairs s [] = packaging
route_diagnostics max_repairs s (d ∷ ds) =
    if ltb max_repairs s.repair_attempts then fail else swapped s.stalled (route_for (d ∷ ds))

unfoldable pub route_after_qa : ℕ → BuildState → Route
unfolding route_diagnostics
route_after_qa max_repairs s =
    if is_failed s.phase then fail else route_diagnostics max_repairs s s.diagnostics

-- whether the graph goes on
unfoldable pub route_after_agent : BuildState → Bool
route_after_agent s = if is_failed s.phase then false else true
