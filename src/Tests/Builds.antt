-- ===== src/Tests/Builds.antt =====
-- A PRD, diagnostics and a machine, on which the theorems of Prd, Ownership and Build hold.
use app_generation_microserv.Base.{String, ◌≡◌, ◌≢◌, refl, true, false, none, some, [], ◌∷◌}
use app_generation_microserv.Base.Json.{bool}
use app_generation_microserv.Base.Text.{codes, decimal}
use app_generation_microserv.Analyzer.{Diagnostic}
use app_generation_microserv.Ownership.{fail, owner_of, owner_or, owned_by, route_for}
use app_generation_microserv.Ownership.Routing.{
  Suits, in_logic_lane, route_for-Suits, owner_of-models,
}
use app_generation_microserv.Prd.{
  Prd, listing, material, accepts, valid_fields, package_identifier, segments, valid_model,
  valid_screen, valid_field, valid_action, dart_identifier, alphanumerics, pascal_case,
  referential_integrity,
}
use app_generation_microserv.Prd.Integrity.{IsCoherent, accepts-IsCoherent}
use app_generation_microserv.Payments.Gate.{is_verified}
use app_generation_microserv.Build.Signing.{
  inspect_signature, inspect_with_apksigner, inspect_found, unsign_release, unsigned,
}
use app_generation_microserv.Build.Pipeline.{
  Machine, BuildResult, built_with, find_flutter, artifact, finish, finish_release, compile,
  with_scaffold, with_flutter, run_build,
}
use app_generation_microserv.Build.Pipeline.Gate.{run_build_release, Shippable}

abbrev pub shop : Prd
shop = record {
  app_name = "Shop";
  package_name = "com.example.shop";
  description = "";
  theme = material;
  auth = false;
  models = [];
  screens =
      record {
        id = "home";
        title = "Home";
        kind = listing;
        model = none;
        fields = [];
        actions = [];
      }
      ∷ [];
  x402_payment_verified = false;
}

shop_accepted : accepts shop ≡ true
unfolding accepts valid_fields package_identifier segments valid_model valid_screen valid_field
    valid_action dart_identifier alphanumerics pascal_case referential_integrity
shop_accepted = refl

accepts-IsCoherent_example : IsCoherent shop
accepts-IsCoherent_example = accepts-IsCoherent shop shop_accepted

abbrev pub undefined_name : Diagnostic
undefined_name = record {
  severity = "error";
  file = "lib/ui/home_screen.dart";
  line = 3;
  code = "undefined_identifier";
  message = "";
}

abbrev in_model : Diagnostic
in_model = record undefined_name { file = "lib/models/item.dart" }

ui_route : route_for (undefined_name ∷ []) ≢ fail
unfolding route_for owned_by owner_of owner_or
ui_route e = cc

route_for-Suits_example : Suits (route_for (undefined_name ∷ [])) (undefined_name ∷ [])
route_for-Suits_example = route_for-Suits (undefined_name ∷ [])

owner_of-models_example :
    (in_logic_lane (codes in_model.file) ≡ true) × (route_for (in_model ∷ []) ≡ fail)
owner_of-models_example = owner_of-models in_model (codes "item.dart") [] refl refl

abbrev pub apk_path : String
apk_path = "app/outputs/flutter-apk/app-release.apk"

-- the Gradle file had one assignment, and `apksigner` rejects the APK
abbrev pub machine : Machine
machine = record {
  sdk_flutter = none;
  path_flutter = some "/usr/bin/flutter";
  has_android = true;
  create_code = 0;
  create_error = "";
  gradle = some (record { name = "build.gradle.kts"; assignments = 1 });
  build_code = 0;
  build_tail = "";
  apks = apk_path ∷ [];
  size_mb = λ p. "7.1";
  repr = λ s. s;
  examined = λ p. record {
    path = p;
    exists = true;
    verdict = some (record {
      returncode = 1;
      output = "DOES NOT VERIFY ERROR: Missing META-INF/MANIFEST.MF";
      head = "DOES NOT VERIFY";
      signer = none;
    });
    v1_entries = some [];
  };
}

abbrev pub release : String
release = "release"

abbrev delivered : BuildResult
delivered =
    built_with
      "release APK 7.1 MB, unsigned (build.gradle.kts: removed 1 signingConfig assignment(s) from the release build)"
      apk_path (some unsigned)

run_build_release_example :
    (is_verified (bool true) ≡ true) × (false ≡ false) × Shippable machine delivered
unfolding run_build is_verified find_flutter with_flutter with_scaffold compile unsign_release
    artifact finish finish_release inspect_signature inspect_found inspect_with_apksigner decimal
run_build_release_example = run_build_release machine (bool true) true false delivered refl refl
