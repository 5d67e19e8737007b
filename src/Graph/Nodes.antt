-- ===== src/Graph/Nodes.antt =====
-- src/graph/nodes.py: the subagents and the packaging node, each a function from the state to the
-- state with the node's update merged in. What the nodes call in other modules is a field of
-- `Agents`: the generator, the analyzer and the test runner, which answer from an outside world `W`
-- that they may change, the test builders, and the conformance checks.
use Prim.Native.String.{◌++◌, count as char_count}
use app_generation_microserv.Base.{
  String, Bool, true, false, not, ◌&&◌, Option, none, some, List, [], ◌∷◌, if◌then◌else◌, length,
  keep, map,
}
use mathlib.Core.List
use app_generation_microserv.Base.Dict.{Dict, keys, update, select}
use app_generation_microserv.Base.Text.{codes, starts_with, decimal, sorted}
use app_generation_microserv.Analyzer.{Diagnostic}
use app_generation_microserv.Ownership.{Owner, same_owner, owner_of}
use app_generation_microserv.Prd.{Prd}
use app_generation_microserv.Build.Pipeline.{Machine}
use app_generation_microserv.Graph.State.{BuildState, all_files}
use app_generation_microserv.Graph.State

-- generator.plan
pub record Plan : Type 0 where
  pub design_md : String
  pub pubspec : String
  pub analysis_options : String

-- An analysis or a test run: its diagnostics, or `ToolchainUnavailable`.
pub data Analysis : Type 0 where
  found : List Diagnostic → Analysis
  unavailable : String → Analysis

-- `none` where the call raises anything else.
pub record Agents : Type 1 where
  pub W : Type 0
  pub plan : Prd → W → Option (Plan × W)
  pub build_ui : Prd → String → List Diagnostic → W → Option (Dict String × W)
  pub wire_logic : Prd → String → Dict String → List Diagnostic → W → Option (Dict String × W)
  pub analyze : Dict String → W → Option (Analysis × W)
  pub run_tests : Option (Dict String → W → Option (Analysis × W))
  pub machine : W → Machine
  pub dry_run : Bool
  pub build_mode : String
  pub repaired_pubspec : String → String
  pub with_test_dependencies : String → String
  pub smoke_tests : Prd → Dict String → Dict String
  pub roundtrip_tests : Prd → Dict String → Dict String
  pub navigation_test : Prd → Dict String → Dict String
  pub conformance : Prd → Dict String → List Diagnostic
  pub repr : String → String

abbrev pub in_ui : String → Bool
in_ui path = starts_with (codes "lib/ui/") (codes path)

abbrev pub in_logic : String → Bool
in_logic path = starts_with (codes "lib/") (codes path) && not (in_ui path)

-- The files of a node's lane, and the others, by path in order.
abbrev pub lane : (String → Bool) → Dict String → Dict String
lane p files = select (λ path _. p path) files

abbrev pub strays : (String → Bool) → Dict String → List String
strays p files = sorted (keys (select (λ path _. not (p path)) files))

-- `diags if state.get("stalled") else [d for d in diags if owner_of(d) == owner]`
abbrev pub mine : Owner → BuildState → List Diagnostic
mine owner s =
    if s.stalled then s.diagnostics else keep (λ d. same_owner (owner_of d) owner) s.diagnostics

abbrev pub repairing : List Diagnostic → Bool
repairing [] = false
repairing (_ ∷ _) = true

abbrev pub dropped_note : List String → String
dropped_note [] = ""
dropped_note (p ∷ ps) = " (" ++ decimal (length (p ∷ ps)) ++ " out-of-lane file(s) dropped)"

-- The state after a call: with the node's update, or nothing if the call raises.
abbrev pub updated : {X W : Type 0} → (X → BuildState) → Option (X × W) → Option (BuildState × W)
updated f none = none
updated f (some (x, w)) = some (f x, w)

module _ (A : Agents) where
  open A use {
    W, plan, build_ui, wire_logic, analyze, run_tests, machine, dry_run, build_mode,
    repaired_pubspec, with_test_dependencies, smoke_tests, roundtrip_tests, navigation_test,
    conformance, repr,
  }

  unfoldable pub planned : BuildState → Plan → BuildState
  planned s p = record s {
    design_md = p.design_md;
    pubspec = repaired_pubspec p.pubspec;
    analysis_options = p.analysis_options;
    phase = State.genui;
    log = List.◌++◌ s.log (
        ("planning: DESIGN.md ("
          ++ decimal (char_count p.design_md)
          ++ " chars) + pubspec.yaml drafted")
        ∷ []);
  }

  unfoldable pub planning_node : BuildState → W → Option (BuildState × W)
  unfolding planned
  planning_node s w = updated (planned s) (plan s.prd w)

  unfoldable pub genui_violation : String → Diagnostic
  genui_violation path = record {
    severity = "error";
    file = path;
    line = 0;
    code = "genui_lane_violation";
    message =
        "GenUI wrote "
        ++ repr path
        ++ ", which is outside lib/ui/. Everything else under lib/ belongs to the Logic subagent; emit widgets only.";
  }

  unfoldable pub genui_wrote : BuildState → Dict String → BuildState
  unfolding genui_violation
  genui_wrote s files =
      let ds = mine Owner.genui s in
      let kept = lane in_ui files in
      let violations = strays in_ui files in
      let note =
        if repairing ds
        then "genui: repair pass against " ++ decimal (length ds) ++ " UI diagnostic(s)"
        else "genui: " ++ decimal (length kept) ++ " widget file(s) written" in
      record s {
        ui_files = if repairing ds then update s.ui_files kept else kept;
        genui_violations = map genui_violation violations;
        phase = State.logic;
        log = List.◌++◌ s.log ((note ++ dropped_note violations) ∷ []);
      }

  unfoldable pub genui_node : BuildState → W → Option (BuildState × W)
  unfolding genui_wrote
  genui_node s w = updated (genui_wrote s) (build_ui s.prd s.design_md (mine Owner.genui s) w)

  unfoldable pub logic_violation : String → Diagnostic
  logic_violation path = record {
    severity = "error";
    file = path;
    line = 0;
    code = "logic_lane_violation";
    message =
        "Logic wrote "
        ++ repr path
        ++ ". The widget tree under lib/ui/ belongs to the GenUI subagent and has already been written; own state, models and the composition root instead.";
  }

  unfoldable pub logic_wrote : BuildState → Dict String → BuildState
  unfolding logic_violation
  logic_wrote s files =
      let ds = mine Owner.logic s in
      let kept = lane in_logic files in
      let violations = strays in_logic files in
      let note =
        if repairing ds
        then "logic: repair pass against " ++ decimal (length ds) ++ " state diagnostic(s)"
        else "logic: " ++ decimal (length kept) ++ " state file(s) written" in
      record s {
        provider_files = if repairing ds then update s.provider_files kept else kept;
        logic_violations = map logic_violation violations;
        phase = State.qa;
        log = List.◌++◌ s.log ((note ++ dropped_note violations) ∷ []);
      }

  unfoldable pub logic_node : BuildState → W → Option (BuildState × W)
  unfolding logic_wrote
  logic_node s w =
      updated (logic_wrote s) (wire_logic s.prd s.design_md s.ui_files (mine Owner.logic s) w)
