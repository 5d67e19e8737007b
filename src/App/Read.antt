-- ===== src/App/Read.antt =====
-- src/service/app.py: the handlers that change nothing but an abandoned record: `get_build`,
-- `get_apk`, `build_files`, `validate` and `builds_terms`.

pub mod Artifact
pub mod Validity
use Prim.Native.String.{◌++◌}
use mathlib.Core.List
use app_generation_microserv.Base.{
  ℕ, String, ◌==◌, Bool, true, false, not, ◌&&◌, ◌||◌, Option, none, some, List, [], ◌∷◌, length,
  if◌then◌else◌, map, contains, any,
}
use app_generation_microserv.Base.Int.{pos}
use app_generation_microserv.Base.Dict.{Dict, insert}
use app_generation_microserv.Base.Json.{
  Value, null, num, text, bool, arr, obj, Items, nil, cons, Fields, end, field,
}
use app_generation_microserv.Base.Text.{codes, starts_with, sorted}
use app_generation_microserv.Prd.{
  Prd, Screen, DataModel, Action, ScreenKind, listing, form, detail, auth_screen, settings, Theme,
  material, cupertino, is_navigate,
}
use app_generation_microserv.Payments.Eip3009.{TokenConfig}
use app_generation_microserv.Payments.Challenge.{human_amount, challenge, or_null}
use app_generation_microserv.Jobs.{BuildStatus, succeeded, BuildJob, JobStore, get, reap_stale}
use app_generation_microserv.Jobs.Json.{Codec, public, status_value, items}
use app_generation_microserv.App.Documents.{Pydantic, model_validate}
use app_generation_microserv.App.Accept.{Request, Service, public_resource_url}

-- An answer with its status code: a document, a file by its path and name, or a refusal's detail.
pub data Answer : Type 0 where
  json : ℕ → Fields → Answer
  file : String → String → Answer
  http_error : ℕ → String → Answer

-- the record of a build, after the reaper
unfoldable pub get_build : Codec → (String → Bool) → ℕ → String → JobStore → Answer × JobStore
unfolding get reap_stale public
get_build C exists now job_id store = found (get job_id store)
  where
    found : Option BuildJob → Answer × JobStore
    found none = (http_error 404 "no such build", store)
    found (some job) =
        let (job', store') = reap_stale now job store in (json 200 (public C exists job'), store')

abbrev pub is_succeeded : BuildStatus → Bool
is_succeeded succeeded = true
is_succeeded _ = false

abbrev pub no_artifact : Answer
no_artifact = http_error 404 (
    "build succeeded but produced no APK "
    ++ "(packaging is skipped unless the toolchain is present)")

-- of a build that succeeded; `slug` is `app_name.replace(" ", "_").lower()`
unfoldable pub artifact_of : (String → Bool) → (String → String) → BuildJob → Option String → Answer
artifact_of exists slug job none = no_artifact
artifact_of exists slug job (some path) =
    if path == "" || not (exists path) then no_artifact else file path (slug job.app_name ++ ".apk")

-- from the status on
unfoldable pub apk_of : (String → Bool) → (String → String) → BuildJob → Answer
unfolding status_value artifact_of
apk_of exists slug job =
    if not (is_succeeded job.status)
    then http_error 409 ("build is " ++ status_value job.status ++ "; no artifact yet")
    else artifact_of exists slug job job.apk_path

abbrev pub apk_found : (String → Bool) → (String → String) → Option BuildJob → Answer
apk_found exists slug none = http_error 404 "no such build"
apk_found exists slug (some job) = apk_of exists slug job

unfoldable pub get_apk : (String → Bool) → (String → String) → String → JobStore → Answer
unfolding get apk_of
get_apk exists slug job_id store = apk_found exists slug (get job_id store)

-- What `rglob` lists, in order of the paths: `content` is none where the text cannot be read.
pub record Entry : Type 0 where
  pub is_file : Bool
  pub suffix : String
  pub relative : String
  pub content : Option String

unfoldable pub is_source : Entry → Bool
is_source e =
    e.is_file
    && contains e.suffix (".dart" ∷ ".yaml" ∷ ".md" ∷ [])
    && not (
        any (λ p. starts_with (codes p) (codes e.relative))
          (".dart_tool/" ∷ "build/" ∷ "android/" ∷ "ios/" ∷ []))

abbrev pub with_content : String → Option String → Dict String → Dict String
with_content path none files = files
with_content path (some content) files = insert path content files

unfoldable pub sources : List Entry → Dict String → Dict String
unfolding is_source
sources [] files = files
sources (e ∷ es) files =
    sources es (if is_source e then with_content e.relative e.content files else files)

abbrev pub files_value : Dict String → Fields
files_value [] = end
files_value ((path, content) ∷ files) = field path (text content) (files_value files)

unfoldable pub listed : BuildJob → Dict String → Fields
unfolding status_value
listed job files = field "id" (text job.id) (
    field "status" (text (status_value job.status)) (
      field "preview" (bool job.preview) (
        field "file_count" (num (pos (length files)))
          (field "files" (obj (files_value files)) end))))

abbrev pub files_in : (String → Option (List Entry)) → BuildJob → Option String → Answer
files_in rglob job none = http_error 404 "this build has no source on disk"
files_in rglob job (some build_dir) = elim (if build_dir == "" then none else rglob build_dir) [
  | none ↦ http_error 404 "this build has no source on disk"
  | some entries ↦ json 200 (listed job (sources entries []))
]

-- `rglob` is none for what is no directory
abbrev pub files_found : (String → Option (List Entry)) → Option BuildJob → Answer
files_found rglob none = http_error 404 "no such build"
files_found rglob (some job) = files_in rglob job job.build_dir

unfoldable pub build_files : (String → Option (List Entry)) → String → JobStore → Answer
unfolding get sources listed
build_files rglob job_id store = files_found rglob (get job_id store)

-- `kind` and `theme` as the document has them
unfoldable pub screen_kind : ScreenKind → String
screen_kind listing = "list"
screen_kind form = "form"
screen_kind detail = "detail"
screen_kind auth_screen = "auth"
screen_kind settings = "settings"

unfoldable pub theme_name : Theme → String
theme_name material = "material"
theme_name cupertino = "cupertino"

abbrev pub values : List Value → Items
values [] = nil
values (v ∷ vs) = cons v (values vs)

unfoldable pub screen_summary : Screen → Value
unfolding screen_kind
screen_summary s = obj (
    field "id" (text s.id) (
      field "title" (text s.title) (
        field "kind" (text (screen_kind s.kind)) (
          field "fields" (num (pos (length s.fields)))
            (field "actions" (num (pos (length s.actions))) end)))))

unfoldable pub model_summary : DataModel → Value
model_summary m = obj (
    field "name" (text m.name)
      (field "collection" (text m.collection) (field "fields" (num (pos (length m.fields))) end)))

abbrev pub target_of : Option String → List String → List String
target_of none ids = ids
target_of (some t) ids = if t == "" then ids else t ∷ ids

abbrev pub action_targets : List Action → List String → List String
action_targets [] ids = ids
action_targets (a ∷ actions) ids =
    let rest = action_targets actions ids in
    if is_navigate a.kind then target_of a.target rest else rest

-- the targets of all navigations, and each of them once
unfoldable pub navigations : List Screen → List String
navigations [] = []
navigations (s ∷ screens) = action_targets s.actions (navigations screens)

abbrev pub distinct : List String → List String
distinct [] = []
distinct (x ∷ xs) = let rest = distinct xs in if contains x rest then rest else x ∷ rest

unfoldable pub described : Service → Prd → Fields
unfolding theme_name screen_summary model_summary navigations human_amount
described P prd = field "valid" (bool true) (
    field "app_name" (text prd.app_name) (
      field "package_name" (text prd.package_name) (
        field "theme" (text (theme_name prd.theme)) (
          field "would_build"
            (obj (
              field "screens" (arr (values (map screen_summary prd.screens))) (
                field "models" (arr (values (map model_summary prd.models))) (
                  field "firebase_auth" (bool prd.auth) (
                    field "navigation_targets"
                      (arr (items (sorted (distinct (navigations prd.screens))))) end)))))
            (field "price"
              (obj (
                field "amount" (text (human_amount P.price_atomic 6)) (
                  field "currency" (text "USDC") (
                    field "network" (or_null (λ (t : TokenConfig). text t.network) P.token)
                      (field "buy" (text "POST the same document to /builds") end)))))
              end)))))

-- `lines` is `splitlines`
abbrev pub verdict_on : Service → (String → List String) → String → Option Prd → Fields
verdict_on P lines error none =
    field "valid" (bool false)
      (field "errors" (arr (items (lines error))) (field "schema" (text "/schema/prd.json") end))
verdict_on P lines error (some prd) = described P prd

unfoldable pub validate : Service → Pydantic → (String → List String) → Fields → Fields
unfolding model_validate described
validate P D lines body = verdict_on P lines (D.error body) (model_validate D body)

unfoldable pub builds_terms : Service → Request → Answer
unfolding challenge public_resource_url
builds_terms P r = json 402 (
    challenge P.token P.pay_to (some P.price_atomic) (public_resource_url P.spell r)
      (some "POST a PRD with this header to build; GET only quotes the price")
      (some P.output_schema))
