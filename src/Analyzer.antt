-- ===== src/Analyzer.antt =====
-- src/ports/analyzer.py: the diagnostics that the analysis reports, and which of them fail a build.
use Prim.Native.String.{◌++◌}
use app_generation_microserv.Base.{ℕ, String, ◌==◌, Bool, ◌||◌, List, [], ◌∷◌, contains}
use app_generation_microserv.Base.Text.{decimal}

pub record Diagnostic : Type 0 where
  pub severity : String
  pub file : String
  pub line : ℕ
  pub code : String
  pub message : String

-- HALLUCINATION_WARNINGS
abbrev pub hallucination_warnings : List String
hallucination_warnings =
    "unused_element" ∷ "unused_field" ∷ "unused_local_variable" ∷ "dead_code" ∷ []

-- ANALYSIS_INTEGRITY_WARNINGS
abbrev pub analysis_integrity_warnings : List String
analysis_integrity_warnings = "include_file_not_found" ∷ "analysis_option_unsupported_option" ∷ []

unfoldable pub is_fatal : Diagnostic → Bool
is_fatal d =
    d.severity == "error"
    || contains d.code hallucination_warnings
    || contains d.code analysis_integrity_warnings

-- The key by which two rounds of diagnostics are compared: f"{d.code}:{d.file}:{d.line}".
unfoldable pub signature_key : Diagnostic → String
signature_key d = d.code ++ ":" ++ d.file ++ ":" ++ decimal d.line

-- `render`; `upper` is Python's
unfoldable pub render : (String → String) → Diagnostic → String
render upper d =
    upper d.severity
    ++ " "
    ++ d.file
    ++ ":"
    ++ decimal d.line
    ++ " ["
    ++ d.code
    ++ "] "
    ++ d.message
