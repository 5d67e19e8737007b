-- ===== src/Build/Pipeline.antt =====
-- src/build/pipeline.py: `run_build`, the packaging step behind the payment gate.
pub mod Gate
use Prim.Native.String.{◌++◌}
use app_generation_microserv.Base.{
  ℕ, String, ◌==◌, Bool, true, false, not, ◌&&◌, ◌||◌, Option, none, some, List, [], ◌∷◌, eqb,
  if◌then◌else◌, map,
}
use app_generation_microserv.Base.Text.{codes, occurs, lower_code, decimal}
use app_generation_microserv.Base.Json.{Value}
use app_generation_microserv.Payments.Gate.{is_verified}
use app_generation_microserv.Build.Signing.{
  Signature, SignatureState, signed, unsigned, unknown, is_unsigned, Gradle, unsign_release, Apk,
  inspect_signature,
}

pub data Status : Type 0 where
  built skipped failed : Status

pub record BuildResult : Type 0 where
  pub status : Status
  pub detail : String
  pub apk_path : Option String
  pub signature : Option SignatureState

-- The call returns a result or raises `PaymentNotVerified`.
pub data Outcome : Type 0 where
  returned : BuildResult → Outcome
  payment_not_verified : Outcome

-- What the call does outside: `flutter create`, the rewrite of the Gradle file, `flutter build`.
pub data Effect : Type 0 where
  scaffold patch_gradle : Effect
  flutter_build : String → Effect

-- What the machine answers: the tool under `--flutter-root` if one is given and found there, the
-- tool on PATH, whether android/ is there already, the exit status of `flutter create` and of
-- `flutter build apk`, the APKs under build/ in sorted order by their paths below it, the size of
-- an APK as printed, and what is found of it.
pub record Machine : Type 0 where
  pub sdk_flutter : Option String
  pub path_flutter : Option String
  pub has_android : Bool
  pub create_code : ℕ
  pub create_error : String
  pub gradle : Option Gradle
  pub build_code : ℕ
  pub build_tail : String
  pub apks : List String
  pub size_mb : String → String
  pub examined : String → Apk
  -- Python's `repr` of a text
  pub repr : String → String

-- `_flutter`
unfoldable pub find_flutter : Machine → Option String
find_flutter m = elim m.sdk_flutter [ some tool ↦ some tool | none ↦ m.path_flutter ]

-- `_artifact`: the first APK whose path below build/ names the mode
unfoldable pub artifact : String → List String → Option String
artifact mode [] = none
artifact mode (apk ∷ apks) =
    if occurs (codes mode) (map lower_code (codes apk)) then some apk else artifact mode apks

abbrev pub fail : String → BuildResult
fail detail = record { status = failed; detail = detail; apk_path = none; signature = none }

abbrev pub skip : String → BuildResult
skip detail = record { status = skipped; detail = detail; apk_path = none; signature = none }

abbrev pub built_with : String → String → Option SignatureState → BuildResult
built_with detail apk state = record {
  status = built;
  detail = detail;
  apk_path = some apk;
  signature = state;
}

abbrev pub state_text : SignatureState → String
state_text signed = "signed"
state_text unsigned = "unsigned"
state_text unknown = "unknown"

abbrev pub signer_text : Option String → String
signer_text none = ""
signer_text (some s) = if s == "" then "" else " (signer: " ++ s ++ ")"

unfoldable pub finish_release : String → String → String → Signature → BuildResult
finish_release summary note apk signature =
    if is_unsigned signature.state
    then built_with (summary ++ ", unsigned (" ++ note ++ ")") apk (some signature.state)
    else record {
      status = failed;
      detail =
          "release APK is not verifiably unsigned — "
          ++ state_text signature.state
          ++ ": "
          ++ signature.detail
          ++ signer_text signature.signer
          ++ ". Refusing to hand over a release build that may carry the debug key.";
      apk_path = none;
      signature = some signature.state;
    }

unfoldable pub finish : Machine → String → Bool → String → Option String → BuildResult
unfolding finish_release
finish m mode created note none = fail "flutter reported success but no .apk was produced"
finish m mode created note (some apk) =
    let summary =
      (if created then "scaffolded android/, " else "")
      ++ mode
      ++ " APK "
      ++ m.size_mb apk
      ++ " MB" in
    if not (mode == "release")
    then built_with summary apk none
    else finish_release summary note apk (inspect_signature (m.examined apk))

-- After the scaffold: strip the signing config of a release, build, and take the artifact.
unfoldable pub compile : Machine → String → Bool → BuildResult × List Effect
unfolding artifact finish
compile m mode created =
    let (note, patched) = unsign_release m.gradle in
    let effects =
      if mode == "release" && patched
      then patch_gradle ∷ flutter_build mode ∷ []
      else flutter_build mode ∷ [] in
    if not (eqb m.build_code 0)
    then (
      fail ("`flutter build apk` exited " ++ decimal m.build_code ++ ": " ++ m.build_tail),
      effects,
    )
    else (finish m mode created note (artifact mode m.apks), effects)

-- `ensure_android_scaffold`, and what follows
unfoldable pub with_scaffold : Machine → String → BuildResult × List Effect
unfolding compile
with_scaffold m mode =
    if m.has_android
    then compile m mode false
    else if eqb m.create_code 0
    then (let (result, effects) = compile m mode true in (result, scaffold ∷ effects))
    else (fail m.create_error, scaffold ∷ [])

unfoldable pub with_flutter : Machine → String → Option String → BuildResult × List Effect
unfolding with_scaffold
with_flutter m mode none =
    (skip "flutter is not on PATH and no --flutter-root was given; cannot package", [])
with_flutter m mode (some flutter) =
    if not (mode == "debug" || mode == "release")
    then (
      fail ("unknown build mode " ++ m.repr mode ++ "; expected one of ('debug', 'release')"),
      [],
    )
    else with_scaffold m mode

-- `run_build`: whether it is a dry run and whether a PRD was given come first after the gate.
unfoldable pub run_build : Machine → Value → Bool → Bool → String → Outcome × List Effect
unfolding find_flutter
run_build m payment_verified has_prd dry_run mode =
    if not (is_verified payment_verified)
    then (payment_not_verified, [])
    else if dry_run
    then (returned (skip "dry-run: no APK built"), [])
    else if not has_prd
    then (returned (skip "no PRD supplied; cannot scaffold the Android project"), [])
    else (let (result, effects) = with_flutter m mode (find_flutter m) in
        (returned result, effects))
