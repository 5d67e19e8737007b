-- ===== src/App/Work/Free.antt =====
-- src/service/app.py: builds of jobs that nobody has paid for.
use app_generation_microserv.Base.{
  ℕ, String, ◌≡◌, refl, ap, ◌∙◌, inl, inr, true, false, Option, none, some, List, [], ◌∷◌, ◌/◌,
  second, arith, Bool-cases,
}
use app_generation_microserv.Base.Dict.{Dict}
use app_generation_microserv.Prd.{Prd}
use app_generation_microserv.Graph.State.{BuildState}
use app_generation_microserv.Graph.Nodes.{Agents}
use app_generation_microserv.Graph.Run.{Ending, raised, recursion_error, finished, invoke}
use app_generation_microserv.Graph.Run.Outcome.{invoke-unpaid}
use app_generation_microserv.Jobs.{BuildJob}
use app_generation_microserv.Artifacts.{is_text}
use app_generation_microserv.App.Documents.{Pydantic, preview_prd}
use app_generation_microserv.App.Work.{
  Host, Factory, refused, build, build_work, payload, is_failed, logged, judged, undisputed,
  guarded, outcome, caught, is_running, reported, pruned, pruned_as, built_in, after_invoke,
  closure, run_factory, run_thread,
}
use app_generation_microserv.App.Work.Outcome.{
  stamped_apk, guarded-free, pruned-preview, outcome-preview, judged-preview,
}

-- what is recorded for a failure has no artifact unless the job had one
undisputed-none :
    (s : BuildState) (ds : List String) (job : BuildJob)
    → s.apk_path ≡ ""
    → is_text job.apk_path ≡ false
    → is_text (undisputed s ds job).apk_path ≡ false
unfolding undisputed
undisputed-none s [] job e h = rw e refl
undisputed-none s (d ∷ ds) job e h = h

judged-none :
    (upper : String → String) (s : BuildState) (job : BuildJob)
    → s.apk_path ≡ ""
    → is_text job.apk_path ≡ false
    → is_text (judged s (logged upper s job)).apk_path ≡ false
unfolding judged logged
judged-none upper s job e h = elim (Bool-cases (is_failed s.phase)) [
  | inl broken ↦ rw broken h
  | inr sound ↦ rw sound (undisputed-none s _ (logged upper s job) e h)
]

guarded-none : (job : BuildJob) → is_text job.apk_path ≡ false → guarded job ≡ job
unfolding guarded
guarded-none job h = elim (Bool-cases job.preview) [
  | inl free ↦ simp (free, h)
  | inr sold ↦ simp sold
]

reported-apk : (o : Option String) (job : BuildJob) → (reported o job).apk_path ≡ job.apk_path
unfolding reported caught
reported-apk (some exc) job = refl
reported-apk none job = elim (Bool-cases (is_running job.status)) [
  | inl still ↦ rw still refl
  | inr ended ↦ rw ended refl
]

-- An unpaid job is refused, or it is a preview.
unpaid-refused :
    (D : Pydantic) (job : BuildJob) (prd : Prd)
    → job.paid ≡ false
    → build_work D job ≡ build prd
    → job.preview ≡ true
unfolding build_work
unpaid-refused D job prd unpaid h = elim (Bool-cases job.preview) [
  | inl free ↦ free
  | inr sold ↦ absurd (ground (arith, unpaid, sold, h))
]

module _ (A : Agents) (H : Host A) where
  open A use {W}
  open H use {usage, upper, files, prune}
  open files use {S}

  -- The packaging node never packages a preview: the second check of `build_work`, which would take
  -- an artifact off the record, finds none and changes nothing, whatever the agents answer.
  pub preview-gated :
      (recursion_limit max_repairs : ℕ) (job : BuildJob) (prd : Prd) (disk disk' : Dict String)
      (w w' : W) (final : BuildState)
      → job.preview ≡ true
      → is_text job.apk_path ≡ false
      → invoke A recursion_limit max_repairs (payload job prd) (built_in job) disk w
        ≡ finished final disk' w'
      → guarded (judged final (logged upper final job)) ≡ judged final (logged upper final job)
  unfolding payload preview_prd guarded
  preview-gated recursion_limit max_repairs job prd disk disk' w w' final free fresh ends =
      let unbuilt : final.apk_path ≡ "" =
        invoke-unpaid A max_repairs recursion_limit (payload job prd) (built_in job) disk w final
          disk' w' (rw free refl) ends in
      let empty : is_text (judged final (logged upper final job)).apk_path ≡ false =
        judged-none upper final job unbuilt fresh in
      guarded-none (judged final (logged upper final job)) empty

  after_invoke-free :
      (exc : String) (now : ℕ) (job : BuildJob) (s : S) (e : Ending A)
      → job.preview ≡ true
      → is_text job.apk_path ≡ false
      → is_text (after_invoke A H exc now job s e).job.apk_path ≡ false
  unfolding after_invoke pruned outcome
  after_invoke-free exc now job s raised free fresh = fresh
  after_invoke-free exc now job s recursion_error free fresh = fresh
  after_invoke-free exc now job s (finished final disk w) free fresh =
      let j = outcome upper final (usage w) now job in
      let k = judged final (logged upper final job) in
      ap (λ b. is_text (pruned_as A H prune b exc (now / second) j s).job.apk_path)
        (outcome-preview upper final (usage w) now job ∙ free)
      ∙ ap (λ (i : BuildJob). is_text i.apk_path) (pruned-preview A H prune exc (now / second) j s)
      ∙ ap is_text (stamped_apk (usage w) now (guarded k))
      ∙ guarded-free k (judged-preview final (logged upper final job) ∙ free)

  -- An unpaid job never gets an artifact: it is refused, or it is a preview, whose record has none
  -- at the end, however its build ends and whatever the agents, the toolchain and the files do.
  pub run_thread-unpaid :
      (D : Pydantic) (recursion_limit max_repairs : ℕ) (exc : String) (now : ℕ) (job : BuildJob)
      (disk : Dict String) (w : W) (s : S)
      → job.paid ≡ false
      → is_text job.apk_path ≡ false
      → is_text (run_thread A H D recursion_limit max_repairs exc now job disk w s).apk_path ≡ false
  unfolding run_thread closure
  run_thread-unpaid D recursion_limit max_repairs exc now job disk w s unpaid fresh =
      go (build_work D job) refl
    where
      go :
          (f : Factory)
          → build_work D job ≡ f
          → is_text
              (reported
                (run_factory A H D recursion_limit max_repairs exc now job f disk w s).exception
                (run_factory A H D recursion_limit max_repairs exc now job f disk w s).job).apk_path
            ≡ false
      go (refused r) e = fresh
      go (build prd) e =
          ap is_text (
            reported-apk
              (run_factory A H D recursion_limit max_repairs exc now job (build prd) disk w
                s).exception
              (run_factory A H D recursion_limit max_repairs exc now job (build prd) disk w s).job)
          ∙ after_invoke-free exc now job s
              (invoke A recursion_limit max_repairs (payload job prd) (built_in job) disk w)
              (unpaid-refused D job prd unpaid e) fresh
