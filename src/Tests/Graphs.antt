-- ===== src/Tests/Graphs.antt =====
-- Agents that answer at once, with which a build runs, so that the theorems of Graph hold.
use app_generation_microserv.Base.{
  ℕ, ◌+◌, String, ◌≡◌, refl, false, none, some, [], ◌∷◌, arith, if◌then◌else◌, eqb,
}
use app_generation_microserv.Base.Dict.{Dict}
use app_generation_microserv.Analyzer.{is_fatal, signature_key}
use app_generation_microserv.Ownership.{owner_of, owner_or, owned_by, route_for}
use app_generation_microserv.Payments.Gate.{is_verified}
use app_generation_microserv.Build.Pipeline.{run_build}
use app_generation_microserv.Graph.State.{BuildState, Phase, initial_state, all_files}
use app_generation_microserv.Graph.State
use app_generation_microserv.Graph.Nodes.{
  Agents, found, planned, planning_node, genui_wrote, genui_node, logic_wrote, logic_node,
}
use app_generation_microserv.Graph.Qa.{
  unlink_stale, assemble, materialise, is_stalled, declare_tests, qa_note, judged, with_tests,
  own_diagnostics, after_analysis, analysed, qa_node,
}
use app_generation_microserv.Graph.Packaging.{packaged, packaging_node}
use app_generation_microserv.Graph.Router.{route_diagnostics, route_after_qa, route_after_agent}
use app_generation_microserv.Graph.Run.{Ending, finished, step, run, invoke}
use app_generation_microserv.Graph.Run.Outcome.{invoke-unpaid}
use app_generation_microserv.Graph.Run.Termination.{is_recursion_error, invoke_terminates}
use app_generation_microserv.Tests.Builds.{shop, machine, undefined_name}

-- The world counts the analyses: the first one finds an undefined name, the next ones nothing.
abbrev pub agents : Agents
agents = record {
  W = ℕ;
  plan = λ prd w.
      some (record { design_md = "# Shop"; pubspec = "name: shop"; analysis_options = "" }, w);
  build_ui = λ prd design ds w. some (("lib/ui/home_screen.dart", "class Home {}") ∷ [], w);
  wire_logic = λ prd design ui ds w. some (("lib/main.dart", "main() {}") ∷ [], w);
  analyze = λ disk w. some (found (if eqb w 0 then undefined_name ∷ [] else []), w + 1);
  run_tests = none;
  machine = λ w. machine;
  dry_run = false;
  build_mode = "debug";
  repaired_pubspec = λ p. p;
  with_test_dependencies = λ p. p;
  smoke_tests = λ prd files. [];
  roundtrip_tests = λ prd files. [];
  navigation_test = λ prd files. [];
  conformance = λ prd files. [];
  repr = λ s. s;
}

abbrev pub state_of : Ending agents → BuildState
unfolding initial_state
state_of (finished s disk w) = s
state_of _ = initial_state shop ""

abbrev pub disk_of : Ending agents → Dict String
disk_of (finished s disk w) = disk
disk_of _ = []

abbrev pub world_of : Ending agents → ℕ
world_of (finished s disk w) = w
world_of _ = 0

abbrev ending : Ending agents
ending = invoke agents 11 2 shop "/build" [] 0

ends : ending ≡ finished (state_of ending) (disk_of ending) (world_of ending)
unfolding invoke run step planning_node planned genui_node genui_wrote logic_node logic_wrote
    qa_node assemble materialise analysed after_analysis with_tests judged own_diagnostics
    declare_tests qa_note is_stalled all_files unlink_stale packaging_node packaged run_build
    is_verified route_after_qa route_diagnostics route_after_agent route_for owned_by owner_of
    owner_or is_fatal signature_key initial_state
ends = refl

invoke_terminates_example :
    is_recursion_error agents 2 (invoke agents 11 2 shop "/build" [] 0) ≡ false
invoke_terminates_example = invoke_terminates agents 2 11 shop "/build" [] 0 (omega arith)

invoke-unpaid_example : (state_of ending).apk_path ≡ ""
invoke-unpaid_example =
    invoke-unpaid agents 2 11 shop "/build" [] 0 (state_of ending) (disk_of ending)
      (world_of ending) refl ends
