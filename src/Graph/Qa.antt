-- ===== src/Graph/Qa.antt =====
-- src/graph/nodes.py: `make_qa_node`. The build directory is a dict from paths to contents.
pub mod Verdict
use Prim.Native.String.{◌++◌}
use mathlib.Core.List
use app_generation_microserv.Base.{
  ℕ, ◌+◌, ◌-◌, String, ◌==◌, Bool, true, false, not, ◌&&◌, ◌||◌, Option, none, some, List, [], ◌∷◌,
  if◌then◌else◌, eqb, length, keep, any, contains, map,
}
use app_generation_microserv.Base.Dict.{Dict, lookup, insert, erase, keys, update, has}
use app_generation_microserv.Base.Text.{codes, ends_with, decimal, sorted, same_texts}
use app_generation_microserv.Analyzer.{Diagnostic, is_fatal, hallucination_warnings, signature_key}
use app_generation_microserv.Graph.State.{BuildState, all_files}
use app_generation_microserv.Graph.State
use app_generation_microserv.Graph.Nodes.{Agents, Analysis, found, unavailable, repairing}

-- `for stale in sorted(written_files): if stale not in files: unlink(missing_ok=True)`
unfoldable pub unlink_stale : List String → Dict String → Dict String → Dict String
unlink_stale [] files disk = disk
unlink_stale (stale ∷ rest) files disk =
    unlink_stale rest files (if has stale files then disk else erase stale disk)

abbrev pub is_pubspec_broken : List Diagnostic → Bool
is_pubspec_broken ds = any (λ d. d.code == "unparseable_pubspec") ds

abbrev pub is_empty : Dict String → Bool
is_empty [] = true
is_empty (_ ∷ _) = false

abbrev pub matching : String → Dict String → ℕ
matching suffix files = length (keep (λ p. ends_with (codes suffix) (codes p)) (keys files))

abbrev pub escalated : List Diagnostic → ℕ
escalated errors =
    length
      (keep (λ d. not (d.severity == "error") && contains d.code hallucination_warnings) errors)

-- `bool(errors) and signature == state.get("diagnostic_signature")`
unfoldable pub is_stalled : List Diagnostic → List String → Option (List String) → Bool
is_stalled [] signature previous = false
is_stalled (_ ∷ _) signature none = false
is_stalled (_ ∷ _) signature (some previous) = same_texts signature previous

abbrev pub located :
    {W : Type 0} → Dict String → Option (BuildState × W) → Option (BuildState × Dict String × W)
located disk none = none
located disk (some (s, w)) = some (s, disk, w)

module _ (A : Agents) where
  open A use {
    W, analyze, run_tests, with_test_dependencies, smoke_tests, roundtrip_tests, navigation_test,
    conformance,
  }

  -- The project with the generated tests in it: the files, and the three groups of tests.
  pub record Project : Type 0 where
    pub files : Dict String
    pub smoke : Dict String
    pub roundtrip : Dict String
    pub navigation : Dict String

  unfoldable pub declare_tests : Bool → Option String → Dict String → Dict String
  declare_tests false pubspec files = files
  declare_tests true none files = files
  declare_tests true (some pubspec) files =
      if pubspec == "" then files else insert "pubspec.yaml" (with_test_dependencies pubspec) files

  unfoldable pub assemble : BuildState → Project
  unfolding declare_tests
  assemble s =
      let smoke = smoke_tests s.prd (all_files s) in
      let with_smoke = update (all_files s) smoke in
      let roundtrip = roundtrip_tests s.prd with_smoke in
      let with_roundtrip = update with_smoke roundtrip in
      let navigation = navigation_test s.prd with_roundtrip in
      let all = update with_roundtrip navigation in
      record {
        files =
            declare_tests (not (is_empty roundtrip) || not (is_empty navigation))
              (lookup "pubspec.yaml" all) all;
        smoke = smoke;
        roundtrip = roundtrip;
        navigation = navigation;
      }

  -- The build directory after the project is written over it.
  unfoldable pub materialise : BuildState → Project → Dict String → Dict String
  materialise s p disk = update (unlink_stale (sorted s.written_files) p.files disk) p.files

  -- an update that ends the build
  unfoldable pub toolchain_failed : BuildState → String → BuildState
  toolchain_failed s exc = record s {
    phase = State.failed;
    failure = exc;
    log = List.◌++◌ s.log (("qa: " ++ exc) ∷ []);
  }

  unfoldable pub qa_note : Project → List Diagnostic → List Diagnostic → Bool → String
  qa_note p ds errors stalled =
      "qa: "
      ++ decimal (length p.files)
      ++ " file(s) analysed ("
      ++ decimal (length p.smoke)
      ++ " smoke test(s), "
      ++ decimal (matching "_roundtrip_test.dart" p.roundtrip)
      ++ " round-trip test(s), "
      ++ decimal (matching "navigation_test.dart" p.navigation)
      ++ " navigation test(s)), "
      ++ decimal (length errors)
      ++ " error(s), "
      ++ decimal (length ds - length errors)
      ++ " non-fatal"
      ++ (if eqb (escalated errors) 0
          then ""
          else " (" ++ decimal (escalated errors) ++ " escalated as unwired/dead code)")
      ++ (if stalled then " [stalled — escalating to the other agent]" else "")

  -- The update at the end of the node, from all the diagnostics of the round.
  unfoldable pub judged : BuildState → Project → List Diagnostic → BuildState
  unfolding qa_note is_stalled
  judged s p ds =
      let errors = keep is_fatal ds in
      let signature = sorted (map signature_key errors) in
      let stalled = is_stalled errors signature s.diagnostic_signature in
      record s {
        diagnostics = errors;
        written_files = sorted (keys p.files);
        diagnostic_signature = some signature;
        stalled = stalled;
        test_files = p.smoke;
        repair_attempts = s.repair_attempts + (if repairing errors then 1 else 0);
        phase = if repairing errors then State.qa else State.packaging;
        log = List.◌++◌ s.log (qa_note p ds errors stalled ∷ []);
      }

  -- what the widget tests add, if they are run
  unfoldable pub after_tests :
      BuildState → Project → List Diagnostic → Option (Analysis × W) → Option (BuildState × W)
  unfolding toolchain_failed
  after_tests s p ds none = none
  after_tests s p ds (some (found more, w)) = some (judged s p (List.◌++◌ ds more), w)
  after_tests s p ds (some (unavailable exc, w)) = some (toolchain_failed s exc, w)

  unfoldable pub with_tests :
      BuildState
      → Project
      → List Diagnostic
      → Dict String
      → Option (Dict String → W → Option (Analysis × W))
      → W
      → Option (BuildState × W)
  unfolding after_tests
  with_tests s p ds disk none w = some (judged s p ds, w)
  with_tests s p ds disk (some run) w = after_tests s p ds (run disk w)

  -- the diagnostics of the round that do not come from the analyzer
  unfoldable pub own_diagnostics : BuildState → Project → List Diagnostic
  own_diagnostics s p =
      List.◌++◌ (conformance s.prd p.files) (List.◌++◌ s.genui_violations s.logic_violations)

  unfoldable pub after_analysis :
      BuildState → Project → Dict String → Option (Analysis × W) → Option (BuildState × W)
  unfolding with_tests
  after_analysis s p disk none = none
  after_analysis s p disk (some (found ds, w)) =
      with_tests s p (List.◌++◌ ds (own_diagnostics s p)) disk run_tests w
  after_analysis s p disk (some (unavailable exc, w)) = some (toolchain_failed s exc, w)

  -- the analysis, unless the pubspec is known to be broken
  unfoldable pub analysed : BuildState → Project → Dict String → W → Option (BuildState × W)
  unfolding after_analysis own_diagnostics
  analysed s p disk w =
      if is_pubspec_broken (conformance s.prd p.files)
      then with_tests s p (own_diagnostics s p) disk run_tests w
      else after_analysis s p disk (analyze disk w)

  unfoldable pub qa_node : BuildState → Dict String → W → Option (BuildState × Dict String × W)
  unfolding assemble materialise analysed
  qa_node s disk w =
      let p = assemble s in let disk' = materialise s p disk in located disk' (analysed s p disk' w)
