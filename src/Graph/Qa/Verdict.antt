-- ===== src/Graph/Qa/Verdict.antt =====
-- src/graph/nodes.py: the ways in which a round of `make_qa_node` can end.
use mathlib.Core.List
use app_generation_microserv.Base.{
  String, Bool, true, false, Option, none, some, List, if◌then◌else◌, any, ◌==◌,
}
use app_generation_microserv.Base.Dict.{Dict}
use app_generation_microserv.Analyzer.{Diagnostic}
use app_generation_microserv.Graph.State.{BuildState}
use app_generation_microserv.Graph.Nodes.{Agents, Analysis, found, unavailable}
use app_generation_microserv.Graph.Qa.{
  Project, toolchain_failed, judged, after_tests, own_diagnostics, after_analysis, with_tests,
  analysed,
}

module _ (A : Agents) where
  open A use {W, analyze, run_tests, conformance}

  -- what a round has done to the state
  pub data Verdict (s : BuildState) (p : Project A) : BuildState → Type 0 where
    no_toolchain : (exc : String) → Verdict s p (toolchain_failed A s exc)
    judgement : (ds : List Diagnostic) → Verdict s p (judged A s p ds)

  -- What follows a call: nothing if it raises.
  abbrev pub Ends : (BuildState → Type 0) → Option (BuildState × W) → Type 0
  Ends P none = Unit
  Ends P (some (s', _)) = P s'

  after_tests-Verdict :
      (s : BuildState) (p : Project A) (ds : List Diagnostic) (o : Option (Analysis × W))
      → Ends (Verdict s p) (after_tests A s p ds o)
  unfolding after_tests
  after_tests-Verdict s p ds none = tt
  after_tests-Verdict s p ds (some (found more, w)) = judgement (List.◌++◌ ds more)
  after_tests-Verdict s p ds (some (unavailable exc, w)) = no_toolchain exc

  with_tests-Verdict :
      (s : BuildState) (p : Project A) (ds : List Diagnostic) (disk : Dict String)
      (o : Option (Dict String → W → Option (Analysis × W))) (w : W)
      → Ends (Verdict s p) (with_tests A s p ds disk o w)
  unfolding with_tests
  with_tests-Verdict s p ds disk none w = judgement ds
  with_tests-Verdict s p ds disk (some run) w = after_tests-Verdict s p ds (run disk w)

  after_analysis-Verdict :
      (s : BuildState) (p : Project A) (disk : Dict String) (o : Option (Analysis × W))
      → Ends (Verdict s p) (after_analysis A s p disk o)
  unfolding after_analysis
  after_analysis-Verdict s p disk none = tt
  after_analysis-Verdict s p disk (some (found ds, w)) = with_tests-Verdict s p _ disk run_tests w
  after_analysis-Verdict s p disk (some (unavailable exc, w)) = no_toolchain exc

  pub analysed-Verdict :
      (s : BuildState) (p : Project A) (disk : Dict String) (w : W)
      → Ends (Verdict s p) (analysed A s p disk w)
  unfolding analysed
  analysed-Verdict s p disk w =
      split (any (λ d. d.code == "unparseable_pubspec") (conformance s.prd p.files))
    where
      split :
          (b : Bool)
          → Ends (Verdict s p) (
              if b
              then with_tests A s p (own_diagnostics A s p) disk run_tests w
              else after_analysis A s p disk (analyze disk w))
      split true = with_tests-Verdict s p _ disk run_tests w
      split false = after_analysis-Verdict s p disk (analyze disk w)
