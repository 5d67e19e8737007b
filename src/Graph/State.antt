-- ===== src/Graph/State.antt =====
-- src/graph/state.py: the state that the nodes of the build loop share. A key that the dict does not
-- have yet is "" or [] or false here where the code reads it with that default.
use app_generation_microserv.Base.{
  ℕ, String, ◌==◌, Bool, false, Option, none, List, [], if◌then◌else◌,
}
use app_generation_microserv.Base.Dict.{Dict, insert, update}
use app_generation_microserv.Analyzer.{Diagnostic}
use app_generation_microserv.Prd.{Prd}

pub data Phase : Type 0 where
  planning genui logic qa packaging done failed : Phase

pub record BuildState : Type 0 where
  pub prd : Prd
  pub build_dir : String
  pub design_md : String
  pub pubspec : String
  pub analysis_options : String
  pub ui_files : Dict String
  pub provider_files : Dict String
  pub test_files : Dict String
  pub written_files : List String
  pub genui_violations : List Diagnostic
  pub logic_violations : List Diagnostic
  pub diagnostics : List Diagnostic
  pub repair_attempts : ℕ
  pub diagnostic_signature : Option (List String)
  pub stalled : Bool
  pub x402_payment_verified : Bool
  pub apk_path : String
  pub phase : Phase
  pub failure : String
  pub log : List String

unfoldable pub initial_state : Prd → String → BuildState
initial_state prd build_dir = record {
  prd = prd;
  build_dir = build_dir;
  design_md = "";
  pubspec = "";
  analysis_options = "";
  ui_files = [];
  provider_files = [];
  test_files = [];
  written_files = [];
  genui_violations = [];
  logic_violations = [];
  diagnostics = [];
  repair_attempts = 0;
  diagnostic_signature = none;
  stalled = false;
  x402_payment_verified = prd.x402_payment_verified;
  apk_path = "";
  phase = planning;
  failure = "";
  log = [];
}

-- `if state.get(key): files[path] = state[key]`
abbrev put_if : String → String → Dict String → Dict String
put_if path content files = if content == "" then files else insert path content files

unfoldable pub all_files : BuildState → Dict String
all_files s =
    update
      (update
        (put_if "DESIGN.md" s.design_md
          (put_if "analysis_options.yaml" s.analysis_options (put_if "pubspec.yaml" s.pubspec [])))
        s.ui_files)
      s.provider_files
