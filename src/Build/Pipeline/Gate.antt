-- ===== src/Build/Pipeline/Gate.antt =====
-- src/build/pipeline.py: what `run_build` needs before it acts, and what a release build hands over.
use app_generation_microserv.Base.{
  String, ◌≡◌, ◌≢◌, refl, ap, ◌∙◌, subst, eq_iff, ◌⊎◌, inl, inr, Bool, true, false, Option, none,
  some, List, [], ◌∷◌, arith, Bool-cases, eqb, map,
}
use app_generation_microserv.Base.Text.{codes, occurs, lower_code}
use app_generation_microserv.Base.Json.{Value}
use app_generation_microserv.Payments.Gate.{is_verified}
use app_generation_microserv.Build.Signing.{Verdict, inspect_signature, is_unsigned, unsign_release}
use app_generation_microserv.Build.Signing.Evidence.{TakenForUnsigned, inspect_evidence}
use app_generation_microserv.Build.Pipeline.{
  Machine, BuildResult, returned, Effect, built, run_build, with_flutter, with_scaffold, compile,
  finish, artifact, find_flutter,
}

-- `run_build` does something outside only if the payment was verified, it is not a dry run, there
-- is a PRD, a Flutter tool was found and the build mode is one of the two.
pub run_build_effects :
    (m : Machine) (v : Value) (has_prd dry_run : Bool) (mode : String) (e : Effect)
    (es : List Effect)
    → (run_build m v has_prd dry_run mode).1 ≡ e ∷ es
    → (is_verified v ≡ true)
      × (dry_run ≡ false)
      × (has_prd ≡ true)
      × (find_flutter m ≢ none)
      × ((mode ≡ "debug") ⊎ (mode ≡ "release"))
unfolding run_build with_flutter
run_build_effects m v has_prd dry_run mode e es h =
    ground (arith, eq_iff mode "debug", eq_iff mode "release")

-- What a buyer of a release build is handed: an APK whose path names the mode, and that the code has
-- taken for unsigned.
abbrev pub Shippable : Machine → BuildResult → Type 0
Shippable m r =
    (apk : String) × (r.apk_path ≡ some apk)
    × (occurs (codes "release") (map lower_code (codes apk)) ≡ true)
    × (w : Verdict) × TakenForUnsigned (m.examined apk) w

artifact-mode :
    (mode apk : String) (apks : List String)
    → artifact mode apks ≡ some apk
    → occurs (codes mode) (map lower_code (codes apk)) ≡ true
unfolding artifact
artifact-mode mode apk [] h = cc
artifact-mode mode apk (x ∷ xs) h =
    elim (Bool-cases (occurs (codes mode) (map lower_code (codes x)))) [
      | inl yes_mode ↦
          let same : x ≡ apk = cc (h, yes_mode) in
          subst (λ t. occurs (codes mode) (map lower_code (codes t)) ≡ true) same yes_mode
      | inr other ↦ artifact-mode mode apk xs (rw other at h)
    ]

finish_ships :
    (m : Machine) (created : Bool) (note : String) (o : Option String)
    → artifact "release" m.apks ≡ o
    → (finish m "release" created note o).status ≡ built
    → Shippable m (finish m "release" created note o)
unfolding finish
finish_ships m created note none e h = cc
finish_ships m created note (some apk) e h =
    elim (Bool-cases (is_unsigned (inspect_signature (m.examined apk)).state)) [
      | inr other ↦ absurd (ground (arith, other, h))
      | inl clean ↦
          let (w, shown) = inspect_evidence (m.examined apk) clean in
          (apk, rw clean, artifact-mode "release" apk m.apks e, w, shown)
    ]

compile_ships :
    (m : Machine) (created : Bool)
    → (compile m "release" created).0.status ≡ built
    → Shippable m (compile m "release" created).0
unfolding compile
compile_ships m created h = elim (Bool-cases (eqb m.build_code 0)) [
  | inr bad ↦ absurd (ground (arith, bad, h))
  | inl good ↦ rw good (
      finish_ships m created (unsign_release m.gradle).0 (artifact "release" m.apks) refl
        (rw good at h))
]

with_scaffold_ships :
    (m : Machine)
    → (with_scaffold m "release").0.status ≡ built
    → Shippable m (with_scaffold m "release").0
unfolding with_scaffold
with_scaffold_ships m h = elim (Bool-cases m.has_android) [
  | inl there ↦ rw there (compile_ships m false (rw there at h))
  | inr fresh ↦ elim (Bool-cases (eqb m.create_code 0)) [
    | inl good ↦ rw (fresh, good) (compile_ships m true (rw (fresh, good) at h))
    | inr bad ↦ absurd (ground (arith, fresh, bad, h))
  ]
]

with_flutter_ships :
    (m : Machine) (o : Option String)
    → (with_flutter m "release" o).0.status ≡ built
    → Shippable m (with_flutter m "release" o).0
unfolding with_flutter
with_flutter_ships m none h = cc
with_flutter_ships m (some tool) h = with_scaffold_ships m h

-- A release build that `run_build` reports as built was paid for, is not a dry run, and hands over
-- an APK whose path names the mode, that exists, that `apksigner` exited on with an error and with
-- one of the texts `Missing META-INF/MANIFEST.MF` and `DOES NOT VERIFY`, and in which the code found
-- no v1 signature entry, be it that there is none or that the file is no zip.
pub run_build_release :
    (m : Machine) (v : Value) (has_prd dry_run : Bool) (r : BuildResult)
    → (run_build m v has_prd dry_run "release").0 ≡ returned r
    → r.status ≡ built
    → (is_verified v ≡ true) × (dry_run ≡ false) × Shippable m r
unfolding run_build
run_build_release m v has_prd dry_run r h ok = elim (Bool-cases (is_verified v)) [
  | inr unpaid ↦ absurd (ground (arith, unpaid, h))
  | inl paid ↦
      let ran : with_flutter m "release" (find_flutter m)
          ≡ (r, (run_build m v has_prd dry_run "release").1) =
        ground (arith, paid, h, ok) in
      let same : (with_flutter m "release" (find_flutter m)).0 ≡ r =
        ap (λ (p : BuildResult × List Effect). p.0) ran in
      (
        paid,
        ground (arith, h, ok, paid),
        subst (Shippable m) same
            (with_flutter_ships m (find_flutter m) (ap (λ (q : BuildResult). q.status) same ∙ ok)),
      )
]
