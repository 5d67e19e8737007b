-- ===== src/Ownership.antt =====
-- src/ports/ownership.py: which subagent can act on a diagnostic, and where a batch is sent.
pub mod Routing
use app_generation_microserv.Base.{
  ℕ, String, ◌==◌, Bool, true, false, ◌||◌, Option, none, some, List, [], ◌∷◌, eqb, if◌then◌else◌,
  any, keep,
}
use app_generation_microserv.Base.Dict.{Dict, lookup}
use app_generation_microserv.Base.Text.{codes, starts_with, replace, lstrip, same_codes}
use app_generation_microserv.Analyzer.{Diagnostic}

pub data Owner : Type 0 where
  genui logic fatal : Owner

abbrev pub same_owner : Owner → Owner → Bool
same_owner genui genui = true
same_owner logic logic = true
same_owner fatal fatal = true
same_owner _ _ = false

-- `_EXPLICIT`
abbrev pub explicit : Dict Owner
explicit =
    ("undefined_provider", logic)
    ∷ ("setstate_in_ui", genui)
    ∷ ("logic_in_ui", genui)
    ∷ ("ui_in_logic", logic)
    ∷ ("theme_mismatch", genui)
    ∷ ("missing_screen", genui)
    ∷ ("unreachable_screen", genui)
    ∷ ("missing_form_field", genui)
    ∷ ("smoke_failure", genui)
    ∷ ("misplaced_entrypoint", genui)
    ∷ ("genui_lane_violation", genui)
    ∷ ("logic_lane_violation", logic)
    ∷ ("duplicate_declaration", genui)
    ∷ ("missing_provider", logic)
    ∷ ("wrong_collection", logic)
    ∷ ("missing_pubspec", fatal)
    ∷ ("incomplete_pubspec", fatal)
    ∷ ("unparseable_pubspec", fatal)
    ∷ ("lints_not_installed", fatal)
    ∷ []

-- `diagnostic.file.replace("\\", "/").lstrip("./")`
abbrev pub normalised : String → List ℕ
normalised file = lstrip (λ c. eqb c b'.' || eqb c b'/') (replace 92 b'/' (codes file))

-- the default, by path
unfoldable pub owner_by_path : List ℕ → Owner
owner_by_path path =
    if starts_with (codes "lib/ui/") path
    then genui
    else if starts_with (codes "lib/providers/") path || same_codes path (codes "lib/main.dart")
    then logic
    else fatal

unfoldable pub owner_or : Option Owner → List ℕ → Owner
unfolding owner_by_path
owner_or (some owner) path = owner
owner_or none path = owner_by_path path

unfoldable pub owner_of : Diagnostic → Owner
unfolding owner_or
owner_of d = owner_or (lookup d.code explicit) (normalised d.file)

pub data Route : Type 0 where
  fail repair_ui repair_logic packaging : Route

-- The set `owners` is only asked what it holds.
unfoldable pub owned_by : Owner → List Diagnostic → Bool
owned_by o ds = any (λ d. same_owner (owner_of d) o) ds

unfoldable pub route_for : List Diagnostic → Route
route_for ds =
    if owned_by fatal ds then fail else if owned_by genui ds then repair_ui else repair_logic

unfoldable pub unfixable : List Diagnostic → List Diagnostic
unfixable ds = keep (λ d. same_owner (owner_of d) fatal) ds
