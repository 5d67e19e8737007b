-- ===== src/Build/Signing.antt =====
-- src/build/signing.py: the debug signing config is stripped as well as can be, and the artifact is
-- then examined. What the tools and the file system answer are arguments.
pub mod Evidence
use Prim.Native.String.{◌++◌}
use app_generation_microserv.Base.{
  ℕ, String, Bool, true, false, ◌||◌, Option, none, some, List, [], ◌∷◌, eqb, if◌then◌else◌,
}
use app_generation_microserv.Base.Text.{codes, occurs, decimal}

pub data SignatureState : Type 0 where
  signed unsigned unknown : SignatureState

pub record Signature : Type 0 where
  pub state : SignatureState
  pub detail : String
  pub signer : Option String

-- `Signature.is_unsigned`
abbrev pub is_unsigned : SignatureState → Bool
is_unsigned unsigned = true
is_unsigned _ = false

-- The Gradle file that `_app_gradle` finds, and how many lines of it `_SIGNING_CONFIG_LINE` matches.
pub record Gradle : Type 0 where
  pub name : String
  pub assignments : ℕ

-- The note that `unsign_release` returns, and whether it rewrites the file.
unfoldable pub unsign_release : Option Gradle → String × Bool
unsign_release none = ("no android/app/build.gradle(.kts) to patch", false)
unsign_release (some g) =
    if eqb g.assignments 0
    then (g.name ++ ": no signingConfig assignment found; left as generated", false)
    else (
      g.name
          ++ ": removed "
          ++ decimal g.assignments
          ++ " signingConfig assignment(s) from the release build",
      true,
    )

-- `apksigner verify --print-certs`: its exit status, its output, the first 200 characters of it,
-- and the signer that `_signer` reads out of it.
pub record Verdict : Type 0 where
  pub returncode : ℕ
  pub output : String
  pub head : String
  pub signer : Option String

-- What is found of the APK: whether it is there, what `apksigner` says if there is one, and the zip
-- entries that `_V1_SIGNATURE_ENTRIES` matches, or none where it cannot be read as a zip.
pub record Apk : Type 0 where
  pub path : String
  pub exists : Bool
  pub verdict : Option Verdict
  pub v1_entries : Option (List String)

-- `_v1_signature_entries`
abbrev pub v1_signature_entries : Option (List String) → List String
v1_signature_entries none = []
v1_signature_entries (some entries) = entries

-- the two texts that the code takes for the absence of a signature
abbrev pub says_unsigned : String → Bool
says_unsigned output =
    occurs (codes "Missing META-INF/MANIFEST.MF") (codes output)
    || occurs (codes "DOES NOT VERIFY") (codes output)

-- `_inspect_with_apksigner`
unfoldable pub inspect_with_apksigner : Verdict → List String → Signature
inspect_with_apksigner v entries =
    if eqb v.returncode 0
    then record { state = signed; detail = "apksigner verified a signature"; signer = v.signer }
    else if says_unsigned v.output
    then elim entries [
      | [] ↦ record { state = unsigned; detail = "apksigner reports no signature"; signer = none }
      | _ ∷ _ ↦ record {
        state = signed;
        detail = "signature files present but apksigner rejected them: " ++ v.head;
        signer = none;
      }
    ]
    else record {
      state = unknown;
      detail = "apksigner exited " ++ decimal v.returncode ++ ": " ++ v.head;
      signer = none;
    }

-- ', '.join(found)
join : String → List String → String
join e [] = e
join e (f ∷ fs) = e ++ ", " ++ join f fs

unfoldable pub inspect_without : List String → Signature
unfolding join
inspect_without [] = record {
  state = unknown;
  detail =
      "apksigner was not found, and a zip listing cannot see v2/v3 signatures; install Android build-tools or set ANDROID_SDK_ROOT to decide this";
  signer = none;
}
inspect_without (e ∷ es) = record {
  state = signed;
  detail = "v1 signature files present: " ++ join e es;
  signer = none;
}

unfoldable pub inspect_found : Option Verdict → List String → Signature
unfolding inspect_with_apksigner inspect_without
inspect_found (some v) entries = inspect_with_apksigner v entries
inspect_found none entries = inspect_without entries

unfoldable pub inspect_signature : Apk → Signature
unfolding inspect_found
inspect_signature apk =
    if apk.exists
    then inspect_found apk.verdict (v1_signature_entries apk.v1_entries)
    else record { state = unknown; detail = "no such file: " ++ apk.path; signer = none }
