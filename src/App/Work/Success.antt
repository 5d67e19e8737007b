-- ===== src/App/Work/Success.antt =====
-- src/service/app.py: what has happened when a build is recorded as succeeded.
use app_generation_microserv.Base.{
  ℕ, String, ◌≡◌, refl, sym, ap, ◌∙◌, inl, inr, Bool, true, false, not, ◌&&◌, Option, none, some,
  List, [], ◌∷◌, ◌/◌, second, arith, Bool-cases, map,
}
use app_generation_microserv.Base.Dict.{Dict}
use app_generation_microserv.Analyzer.{render}
use app_generation_microserv.Prd.{Prd}
use app_generation_microserv.Graph.State.{BuildState}
use app_generation_microserv.Graph.Nodes.{Agents}
use app_generation_microserv.Graph.Run.{Ending, raised, recursion_error, finished, invoke}
use app_generation_microserv.Jobs.{BuildStatus, succeeded, BuildJob}
use app_generation_microserv.Artifacts.{is_text}
use app_generation_microserv.App.Documents.{Pydantic}
use app_generation_microserv.App.Work.{
  Host, Factory, refused, build, build_work, payload, is_failed, logged, judged, undisputed,
  guarded, outcome, caught, is_running, reported, pruned, built_in, after_invoke, closure,
  run_factory, run_thread,
}
use app_generation_microserv.App.Work.Outcome.{stamped_status, pruned-status}

abbrev pub is_succeeded : BuildStatus → Bool
is_succeeded succeeded = true
is_succeeded _ = false

undisputed-succeeded :
    (s : BuildState) (ds : List String) (job : BuildJob)
    → is_succeeded (undisputed s ds job).status ≡ true
    → ds ≡ []
unfolding undisputed
undisputed-succeeded s [] job h = refl
undisputed-succeeded s (d ∷ ds) job h = cc

map-nil : {A : Type 0} (f : A → String) (xs : List A) → map f xs ≡ [] → xs ≡ []
map-nil f [] h = refl
map-nil f (x ∷ xs) h = cc

judged-succeeded :
    (upper : String → String) (s : BuildState) (job : BuildJob)
    → is_succeeded (judged s (logged upper s job)).status ≡ true
    → (is_failed s.phase ≡ false) × (s.diagnostics ≡ [])
unfolding judged logged
judged-succeeded upper s job h = elim (Bool-cases (is_failed s.phase)) [
  | inl broken ↦ absurd (ground (arith, broken, h))
  | inr sound ↦ (
    sound,
    map-nil (render upper) s.diagnostics (
        undisputed-succeeded s (map (render upper) s.diagnostics) (logged upper s job)
          (rw sound at h)),
  )
]

guarded-succeeded :
    (job : BuildJob) → is_succeeded (guarded job).status ≡ true → is_succeeded job.status ≡ true
unfolding guarded
guarded-succeeded job h = elim (Bool-cases (job.preview && is_text job.apk_path)) [
  | inl free ↦ absurd (ground (arith, free, h))
  | inr other ↦ simp other at h
]

reported-succeeded :
    (o : Option String) (job : BuildJob)
    → is_succeeded (reported o job).status ≡ true
    → (o ≡ none) × (is_succeeded job.status ≡ true)
unfolding reported caught
reported-succeeded (some exc) job h = cc
reported-succeeded none job h = elim (Bool-cases (is_running job.status)) [
  | inl still ↦ absurd (ground (arith, still, h))
  | inr ended ↦ (refl, rw ended at h)
]

-- Only one kind of job gets beyond the factory.
build_work-kind :
    (D : Pydantic) (job : BuildJob) (prd : Prd)
    → build_work D job ≡ build prd
    → job.paid ≡ not job.preview
unfolding build_work
build_work-kind D job prd h = elim (Bool-cases job.paid) [
  | inl sold ↦ elim (Bool-cases job.preview) [
    | inl free ↦ absurd (ground (arith, sold, free, h))
    | inr other ↦ rw (sold, other) refl
  ]
  | inr unpaid ↦ elim (Bool-cases job.preview) [
    | inl free ↦ rw (unpaid, free) refl
    | inr other ↦ absurd (ground (arith, unpaid, other, h))
  ]
]

module _ (A : Agents) (H : Host A) where
  open A use {W}
  open H use {usage, upper, files, prune}
  open files use {S}

  -- The build loop came to an end, unfailed and with no diagnostic, on a document that the job
  -- stores, for a job that is either paid for or a preview.
  abbrev pub IsBuilt : Pydantic → ℕ → ℕ → BuildJob → Dict String → W → Type 0
  IsBuilt D recursion_limit max_repairs job disk w =
      (prd : Prd) × (final : BuildState) × (disk' : Dict String) × (w' : W) × (build_work D job
        ≡ build prd)
      × (job.paid ≡ not job.preview)
      × (invoke A recursion_limit max_repairs (payload job prd) (built_in job) disk w
          ≡ finished final disk' w')
      × (is_failed final.phase ≡ false)
      × (final.diagnostics ≡ [])

  after_invoke-succeeded :
      (exc : String) (now : ℕ) (job : BuildJob) (s : S) (e : Ending A)
      → (after_invoke A H exc now job s e).exception ≡ none
      → is_succeeded (after_invoke A H exc now job s e).job.status ≡ true
      → (final : BuildState) × (disk' : Dict String) × (w' : W) × (e ≡ finished final disk' w')
        × (is_failed final.phase ≡ false)
        × (final.diagnostics ≡ [])
  unfolding after_invoke pruned outcome
  after_invoke-succeeded exc now job s raised quiet h = cc
  after_invoke-succeeded exc now job s recursion_error quiet h = cc
  after_invoke-succeeded exc now job s (finished final disk w) quiet h =
      let k = judged final (logged upper final job) in
      let j = outcome upper final (usage w) now job in
      let (sound, clean) = judged-succeeded upper final job (
        guarded-succeeded k (
          sym (ap is_succeeded (stamped_status (usage w) now (guarded k)))
          ∙ sym (ap is_succeeded (pruned-status A H prune j.preview exc (now / second) j s).0)
          ∙ h)) in
      (final, disk, w, refl, sound, clean)

  -- A build is recorded as succeeded only if its job was of one kind, paid for or a preview, and the
  -- build loop ended on the document that the job stores without failing and with no diagnostic left.
  pub run_thread-succeeded :
      (D : Pydantic) (recursion_limit max_repairs : ℕ) (exc : String) (now : ℕ) (job : BuildJob)
      (disk : Dict String) (w : W) (s : S)
      → (run_thread A H D recursion_limit max_repairs exc now job disk w s).status ≡ succeeded
      → IsBuilt D recursion_limit max_repairs job disk w
  unfolding run_thread closure
  run_thread-succeeded D recursion_limit max_repairs exc now job disk w s h =
      go (build_work D job) refl (ap is_succeeded h)
    where
      go :
          (f : Factory)
          → build_work D job ≡ f
          → is_succeeded
              (reported
                (run_factory A H D recursion_limit max_repairs exc now job f disk w s).exception
                (run_factory A H D recursion_limit max_repairs exc now job f disk w s).job).status
            ≡ true
          → IsBuilt D recursion_limit max_repairs job disk w
      go (refused r) e h = cc
      go (build prd) e h =
          let end = invoke A recursion_limit max_repairs (payload job prd) (built_in job) disk w in
          let (quiet, good) =
            reported-succeeded (after_invoke A H exc now job s end).exception
              (after_invoke A H exc now job s end).job h in
          let (final, disk', w', ends, sound, clean) =
            after_invoke-succeeded exc now job s end quiet good in
          (prd, final, disk', w', e, build_work-kind D job prd e, ends, sound, clean)
