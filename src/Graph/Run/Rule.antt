-- ===== src/Graph/Run/Rule.antt =====
-- A rule for invariants of a run of the graph of src/graph/builder.py, node by node.
use app_generation_microserv.Ownership.{Owner}
use app_generation_microserv.Base.{ℕ, zero, suc, String, Option, none, some}
use app_generation_microserv.Base.Dict.{Dict}
use app_generation_microserv.Graph.State.{BuildState}
use app_generation_microserv.Graph.Nodes.{
  updated, mine, Agents, Plan, planned, planning_node, genui_wrote, genui_node, logic_wrote,
  logic_node,
}
use app_generation_microserv.Graph.Qa.{Project, located, qa_node, assemble, analysed, materialise}
use app_generation_microserv.Graph.Qa.Verdict.{Verdict, Ends, analysed-Verdict}
use app_generation_microserv.Graph.Packaging.{packaging_node}
use app_generation_microserv.Graph.Router.{route_after_qa, route_after_agent}
use app_generation_microserv.Graph.Run.{
  routed, Stage, plan, genui, logic, qa, package_stage, after_qa, go_on, step, ended, Ending,
  raised, recursion_error, finished, run,
}

-- `P` at the stage the run goes on to, `Q` where it ends
abbrev pub At :
    (Stage → BuildState → Type 0) → (BuildState → Type 0) → Option Stage → BuildState → Type 0
At P Q none s = Q s
At P Q (some stage) s = P stage s

module _ (A : Agents) (max_repairs : ℕ) where
  open A use {W}

  -- `P` where the run goes on, `Q` where it ends
  abbrev pub Leads :
      (Stage → BuildState → Type 0)
      → (BuildState → Type 0)
      → Option (Option Stage × BuildState × Dict String × W)
      → Type 0
  Leads P Q none = Unit
  Leads P Q (some (none, s, _, _)) = Q s
  Leads P Q (some (some stage, s, _, _)) = P stage s

  abbrev pub EndsIn : (BuildState → Type 0) → Ending A → Type 0
  EndsIn Q raised = Unit
  EndsIn Q recursion_error = Unit
  EndsIn Q (finished s _ _) = Q s

  -- Each node's update takes `P` to `P'` at the next stage, or to `Q` at the end.
  pub record IsKept (P P' : Stage → BuildState → Type 0) (Q : BuildState → Type 0) : Type 0 where
    pub planning : (s : BuildState) (p : Plan) → P plan s → P' genui (planned A s p)
    pub after_genui :
        (s : BuildState) (files : Dict String) → P genui s → P' logic (genui_wrote A s files)
    pub after_logic :
        (s : BuildState) (files : Dict String) → P logic s → P' qa (logic_wrote A s files)
    pub checked :
        (s : BuildState) (p : Project A) (s' : BuildState)
        → P qa s
        → Verdict A s p s'
        → At P' Q (after_qa (route_after_qa max_repairs s')) s'
    pub packing : (s : BuildState) (w : W) → P package_stage s → Q (packaging_node A s w)

module _ (A : Agents) (max_repairs : ℕ) {P P' : Stage → BuildState → Type 0}
    {Q : BuildState → Type 0} where
  open A use {W, plan as make_plan, build_ui, wire_logic}

  module _ (kept : IsKept A max_repairs P P' Q) where
    -- a node whose every result keeps the invariant
    routed-Leads :
        (next : BuildState → Option Stage) (disk : Dict String) (o : Option (BuildState × W))
        → Ends A (λ s. At P' Q (next s) s) o
        → Leads A max_repairs P' Q (routed next (located disk o))
    routed-Leads next disk none h = tt
    routed-Leads next disk (some (s, w)) h = split (next s) h
      where
        split : (o : Option Stage) → At P' Q o s → Leads A max_repairs P' Q (some (o, s, disk, w))
        split none q = q
        split (some stage) q = q

    updated-Ends :
        {X : Type 0} (R : BuildState → Type 0) (f : X → BuildState) (o : Option (X × W))
        → ((x : X) → R (f x))
        → Ends A R (updated f o)
    updated-Ends R f none h = tt
    updated-Ends R f (some (x, w)) h = h x

    checked-Ends :
        (s : BuildState) (p : Project A) (o : Option (BuildState × W))
        → P qa s
        → Ends A (Verdict A s p) o
        → Ends A (λ s'. At P' Q (after_qa (route_after_qa max_repairs s')) s') o
    checked-Ends s p none h v = tt
    checked-Ends s p (some (s', w)) h v = kept.checked s p s' h v

    pub step-Leads :
        (stage : Stage) (s : BuildState) (disk : Dict String) (w : W)
        → P stage s
        → Leads A max_repairs P' Q (step A max_repairs stage s disk w)
    unfolding step planning_node genui_node logic_node qa_node genui_wrote logic_wrote
        route_after_agent
    step-Leads plan s disk w h =
        routed-Leads (λ _. some genui) disk _
          (updated-Ends (P' genui) (planned A s) (make_plan s.prd w) (λ p. kept.planning s p h))
    step-Leads genui s disk w h = routed-Leads (go_on logic) disk _ (
        updated-Ends (λ s'. At P' Q (go_on logic s') s') (genui_wrote A s)
          (build_ui s.prd s.design_md (mine Owner.genui s) w) (λ files. kept.after_genui s files h))
    step-Leads logic s disk w h = routed-Leads (go_on qa) disk _ (
        updated-Ends (λ s'. At P' Q (go_on qa s') s') (logic_wrote A s)
          (wire_logic s.prd s.design_md s.ui_files (mine Owner.logic s) w)
          (λ files. kept.after_logic s files h))
    step-Leads qa s disk w h =
        routed-Leads (λ s'. after_qa (route_after_qa max_repairs s'))
          (materialise A s (assemble A s) disk)
          (analysed A s (assemble A s) (materialise A s (assemble A s) disk) w)
          (checked-Ends s (assemble A s)
            (analysed A s (assemble A s) (materialise A s (assemble A s) disk) w) h
            (analysed-Verdict A s (assemble A s) (materialise A s (assemble A s) disk) w))
    step-Leads package_stage s disk w h = kept.packing s w h

module _ (A : Agents) (max_repairs : ℕ) {P : Stage → BuildState → Type 0}
    {Q : BuildState → Type 0} where
  open A use {W}

  module _ (kept : IsKept A max_repairs P P Q) where
    pub run-EndsIn :
        (limit : ℕ) (stage : Stage) (s : BuildState) (disk : Dict String) (w : W)
        → P stage s
        → EndsIn A max_repairs Q (run A limit max_repairs stage s disk w)
    unfolding run
    run-EndsIn zero stage s disk w h = tt
    run-EndsIn (suc limit) stage s disk w h =
        go (step A max_repairs stage s disk w) (step-Leads A max_repairs kept stage s disk w h)
          (λ st s' d' w'. run-EndsIn limit st s' d' w')
      where
        go :
            (o : Option (Option Stage × BuildState × Dict String × W))
            → Leads A max_repairs P Q o
            → ((st : Stage) (s' : BuildState) (d' : Dict String) (w' : W)
                → P st s'
                → EndsIn A max_repairs Q (run A limit max_repairs st s' d' w'))
            → EndsIn A max_repairs Q (ended A (run A limit max_repairs) o)
        go none l ih = tt
        go (some (none, s', d', w')) l ih = l
        go (some (some st, s', d', w')) l ih = ih st s' d' w' l
