-- ===== src/App/Work/Outcome.antt =====
-- src/service/app.py: what a build leaves on its record, by how the graph ended.
use app_generation_microserv.Base.{
  ℕ, String, ◌≡◌, refl, ap, ◌∙◌, inl, inr, Bool, true, false, ◌&&◌, Option, none, some, List, [],
  ◌∷◌, ◌/◌, second, Bool-cases,
}
use app_generation_microserv.Base.Dict.{Dict}
use app_generation_microserv.Base.Json.{Fields}
use app_generation_microserv.Graph.State.{BuildState}
use app_generation_microserv.Graph.Nodes.{Agents}
use app_generation_microserv.Graph.Run.{Ending, raised, recursion_error, finished, invoke}
use app_generation_microserv.Jobs.{BuildJob, is_open}
use app_generation_microserv.Artifacts.{is_text, keep_only_the_artifact}
use app_generation_microserv.App.Documents.{Pydantic}
use app_generation_microserv.App.Work.{
  Host, Factory, refused, build, build_work, payload, is_failed, logged, judged, undisputed,
  guarded, stamped, outcome, caught, is_running, reported, pruned, pruned_as, built_in, kept_of,
  after_invoke, closure, run_factory, run_thread,
}

undisputed-closed :
    (s : BuildState) (ds : List String) (job : BuildJob)
    → is_open (undisputed s ds job).status ≡ false
unfolding undisputed
undisputed-closed s [] job = refl
undisputed-closed s (d ∷ ds) job = refl

judged-closed : (s : BuildState) (job : BuildJob) → is_open (judged s job).status ≡ false
unfolding judged
judged-closed s job = elim (Bool-cases (is_failed s.phase)) [
  | inl broken ↦ rw broken refl
  | inr sound ↦ rw sound (undisputed-closed s job.diagnostics job)
]

guarded-closed :
    (job : BuildJob) → is_open job.status ≡ false → is_open (guarded job).status ≡ false
unfolding guarded
guarded-closed job h = elim (Bool-cases (job.preview && is_text job.apk_path)) [
  | inl free ↦ rw free refl
  | inr other ↦ rw other h
]

pub stamped_status :
    (usage : Option Fields) (now : ℕ) (job : BuildJob) → (stamped usage now job).status ≡ job.status
unfolding stamped
stamped_status none now job = refl
stamped_status (some usage) now job = refl

pub stamped_apk :
    (usage : Option Fields) (now : ℕ) (job : BuildJob)
    → (stamped usage now job).apk_path ≡ job.apk_path
unfolding stamped
stamped_apk none now job = refl
stamped_apk (some usage) now job = refl

pub stamped_diagnostics :
    (usage : Option Fields) (now : ℕ) (job : BuildJob)
    → (stamped usage now job).diagnostics ≡ job.diagnostics
unfolding stamped
stamped_diagnostics none now job = refl
stamped_diagnostics (some usage) now job = refl

stamped-preview :
    (usage : Option Fields) (now : ℕ) (job : BuildJob)
    → (stamped usage now job).preview ≡ job.preview
unfolding stamped
stamped-preview none now job = refl
stamped-preview (some usage) now job = refl

undisputed-preview :
    (s : BuildState) (ds : List String) (job : BuildJob)
    → (undisputed s ds job).preview ≡ job.preview
unfolding undisputed
undisputed-preview s [] job = refl
undisputed-preview s (d ∷ ds) job = refl

pub judged-preview : (s : BuildState) (job : BuildJob) → (judged s job).preview ≡ job.preview
unfolding judged
judged-preview s job = elim (Bool-cases (is_failed s.phase)) [
  | inl broken ↦ rw broken refl
  | inr sound ↦ rw sound (undisputed-preview s job.diagnostics job)
]

guarded-preview : (job : BuildJob) → (guarded job).preview ≡ job.preview
unfolding guarded
guarded-preview job = elim (Bool-cases (job.preview && is_text job.apk_path)) [
  | inl free ↦ rw free refl
  | inr other ↦ rw other refl
]

-- A build does not change what kind of job it is for.
pub outcome-preview :
    (upper : String → String) (s : BuildState) (usage : Option Fields) (now : ℕ) (job : BuildJob)
    → (outcome upper s usage now job).preview ≡ job.preview
unfolding outcome logged
outcome-preview upper s usage now job =
    stamped-preview usage now (guarded (judged s (logged upper s job)))
    ∙ guarded-preview (judged s (logged upper s job))
    ∙ judged-preview s (logged upper s job)

pub outcome-closed :
    (upper : String → String) (s : BuildState) (usage : Option Fields) (now : ℕ) (job : BuildJob)
    → is_open (outcome upper s usage now job).status ≡ false
unfolding outcome
outcome-closed upper s usage now job =
    ap is_open (stamped_status usage now (guarded (judged s (logged upper s job))))
    ∙ guarded-closed (judged s (logged upper s job)) (judged-closed s (logged upper s job))

-- The second check takes every artifact off a preview.
pub guarded-free : (job : BuildJob) → job.preview ≡ true → is_text (guarded job).apk_path ≡ false
unfolding guarded
guarded-free job h = elim (Bool-cases (is_text job.apk_path)) [
  | inl free ↦ rw (h, free) refl
  | inr other ↦ rw (h, other) other
]

reported-closed :
    (o : Option String) (job : BuildJob)
    → (o ≡ none → is_open job.status ≡ false)
    → is_open (reported o job).status ≡ false
unfolding reported caught
reported-closed (some exc) job h = refl
reported-closed none job h = elim (Bool-cases (is_running job.status)) [
  | inl still ↦ rw still refl
  | inr ended ↦ rw ended (h refl)
]

module _ (A : Agents) (H : Host A) where
  open A use {W}
  open H use {usage, upper, files, prune}
  open files use {S}

  kept-status :
      (exc : String) (clock : ℕ) (job : BuildJob) (o : Option (Option String × S))
      → (kept_of A H exc clock job o).job.status ≡ job.status
  kept-status exc clock job none = refl
  kept-status exc clock job (some (p, s')) = refl

  kept-diagnostics :
      (exc : String) (clock : ℕ) (job : BuildJob) (o : Option (Option String × S))
      → (kept_of A H exc clock job o).job.diagnostics ≡ job.diagnostics
  kept-diagnostics exc clock job none = refl
  kept-diagnostics exc clock job (some (p, s')) = refl

  -- Pruning changes the path of the artifact alone.
  pub pruned-status :
      (prunes free : Bool) (exc : String) (clock : ℕ) (job : BuildJob) (s : S)
      → ((pruned_as A H prunes free exc clock job s).job.status ≡ job.status)
        × ((pruned_as A H prunes free exc clock job s).job.diagnostics ≡ job.diagnostics)
  unfolding pruned_as
  pruned-status false free exc clock job s = (refl, refl)
  pruned-status true true exc clock job s = (refl, refl)
  pruned-status true false exc clock job s = (
    kept-status exc clock job (keep_only_the_artifact files (built_in job) job.apk_path s),
    kept-diagnostics exc clock job (keep_only_the_artifact files (built_in job) job.apk_path s),
  )

  pub pruned-preview :
      (prunes : Bool) (exc : String) (clock : ℕ) (job : BuildJob) (s : S)
      → (pruned_as A H prunes true exc clock job s).job ≡ job
  unfolding pruned_as
  pruned-preview false exc clock job s = refl
  pruned-preview true exc clock job s = refl

  after_invoke-closed :
      (exc : String) (now : ℕ) (job : BuildJob) (s : S) (e : Ending A)
      → (after_invoke A H exc now job s e).exception ≡ none
      → is_open (after_invoke A H exc now job s e).job.status ≡ false
  unfolding after_invoke pruned
  after_invoke-closed exc now job s raised h = cc
  after_invoke-closed exc now job s recursion_error h = cc
  after_invoke-closed exc now job s (finished final disk w) h =
      ap is_open
        (pruned-status prune (outcome upper final (usage w) now job).preview exc (now / second)
          (outcome upper final (usage w) now job) s).0
      ∙ outcome-closed upper final (usage w) now job

  -- However a build ends, refused, raising or run to its end, its record is left closed: it never
  -- stays queued or running.
  pub run_thread-closed :
      (D : Pydantic) (recursion_limit max_repairs : ℕ) (exc : String) (now : ℕ) (job : BuildJob)
      (disk : Dict String) (w : W) (s : S)
      → is_open (run_thread A H D recursion_limit max_repairs exc now job disk w s).status ≡ false
  unfolding run_thread closure
  run_thread-closed D recursion_limit max_repairs exc now job disk w s = go (build_work D job)
    where
      go :
          (f : Factory)
          → is_open
              (reported
                (run_factory A H D recursion_limit max_repairs exc now job f disk w s).exception
                (run_factory A H D recursion_limit max_repairs exc now job f disk w s).job).status
            ≡ false
      go (refused r) = refl
      go (build prd) = reported-closed _ _ (
          after_invoke-closed exc now job s
            (invoke A recursion_limit max_repairs (payload job prd) (built_in job) disk w))
