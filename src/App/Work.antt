-- ===== src/App/Work.antt =====
-- src/service/app.py: `build_work`, what building a job means, and the thread of
-- `BuildWorker._execute` in src/service/worker.py that calls it. The build directory is a dict of its
-- sources to the graph, and part of the file system to src/service/artifacts.py.
pub mod Outcome
pub mod Free
pub mod Success
use Prim.Native.String.{◌++◌}
use mathlib.Core.List
use app_generation_microserv.Base.{
  ℕ, String, ◌==◌, Bool, true, false, not, ◌&&◌, Option, none, some, List, [], ◌∷◌, ◌/◌,
  if◌then◌else◌, map, length, second,
}
use app_generation_microserv.Base.Dict.{Dict}
use app_generation_microserv.Base.Json.{Fields, end}
use app_generation_microserv.Base.Text.{decimal}
use app_generation_microserv.Analyzer.{render}
use app_generation_microserv.Prd.{Prd}
use app_generation_microserv.Graph.State.{BuildState, Phase}
use app_generation_microserv.Graph.State
use app_generation_microserv.Graph.Nodes.{Agents}
use app_generation_microserv.Graph.Run.{Ending, raised, recursion_error, finished, invoke}
use app_generation_microserv.Jobs.{BuildStatus, running, succeeded, failed, BuildJob}
use app_generation_microserv.Artifacts.{Files, is_text, keep_only_the_artifact, sweep_expired}
use app_generation_microserv.App.Documents.{Pydantic, model_validate, verified_prd, preview_prd}

-- the exceptions that the factory raises
pub data Refused : Type 0 where
  not_paid ambiguous no_prd invalid_prd : Refused

-- `not job.prd`: there is none, or it is {}
abbrev pub is_empty : Option Fields → Bool
is_empty none = true
is_empty (some end) = true
is_empty (some _) = false

-- `job.prd`, where it is one
abbrev pub fields_of : Option Fields → Fields
fields_of none = end
fields_of (some fs) = fs

pub data Factory : Type 0 where
  refused : Refused → Factory
  build : Prd → Factory

abbrev pub validated : Option Prd → Factory
validated none = refused invalid_prd
validated (some prd) = build prd

-- `build_work`, up to the closure that it returns
unfoldable pub build_work : Pydantic → BuildJob → Factory
unfolding model_validate
build_work D job =
    if not job.paid && not job.preview
    then refused not_paid
    else if job.paid && job.preview
    then refused ambiguous
    else if is_empty job.prd
    then refused no_prd
    else validated (model_validate D (fields_of job.prd))

-- `payload`
unfoldable pub payload : BuildJob → Prd → Prd
unfolding verified_prd preview_prd
payload job prd = if job.preview then preview_prd prd else verified_prd prd

abbrev pub is_failed : Phase → Bool
is_failed State.failed = true
is_failed _ = false

-- `text or None`
abbrev pub some_text : String → Option String
some_text s = if s == "" then none else some s

unfoldable pub logged : (String → String) → BuildState → BuildJob → BuildJob
unfolding render
logged upper s job = record job {
  log = List.◌++◌ job.log s.log;
  diagnostics = map (render upper) s.diagnostics;
}

-- where the graph has not failed, with the diagnostics of the job
unfoldable pub undisputed : BuildState → List String → BuildJob → BuildJob
undisputed s [] job = record job { status = succeeded; apk_path = some_text s.apk_path }
undisputed s (d ∷ ds) job = record job {
  status = failed;
  failure = some (decimal (length (d ∷ ds)) ++ " unresolved diagnostic(s)");
}

unfoldable pub judged : BuildState → BuildJob → BuildJob
unfolding undisputed
judged s job =
    if is_failed s.phase
    then record job {
      status = failed;
      failure = some (if s.failure == "" then "build failed" else s.failure);
    }
    else undisputed s job.diagnostics job

-- the second check on a preview
unfoldable pub guarded : BuildJob → BuildJob
guarded job =
    if job.preview && is_text job.apk_path
    then record job {
      apk_path = none;
      status = failed;
      failure = some "a preview produced an APK; packaging gate did not hold";
    }
    else job

-- What the build calls beside the graph: the token count of the generator, `str.upper`, the files,
-- and the names of the directory of all builds and of the retention.
pub record Host (A : Agents) : Type 1 where
  pub usage : Agents.W A → Option Fields
  pub upper : String → String
  pub files : Files
  pub build_root : String
  pub retention_seconds : ℕ
  pub prune : Bool

unfoldable pub stamped : Option Fields → ℕ → BuildJob → BuildJob
stamped none now job = record job { finished_at = some now }
stamped (some usage) now job = record job { usage = usage; finished_at = some now }

unfoldable pub outcome : (String → String) → BuildState → Option Fields → ℕ → BuildJob → BuildJob
unfolding logged judged guarded stamped
outcome upper s usage now job = stamped usage now (guarded (judged s (logged upper s job)))

abbrev pub built_in : BuildJob → String
built_in job = elim job.build_dir [ none ↦ "" | some d ↦ d ]

-- The record as the closure leaves it, the text of the exception, if any, that it raises, and the
-- files, unless moving the artifact failed half way.
pub record Closed (S : Type 0) : Type 0 where
  pub job : BuildJob
  pub exception : Option String
  pub files : Option S

-- `f"{type(exc).__name__}: {exc}"`
unfoldable pub refusal_text : Pydantic → BuildJob → Refused → String
refusal_text D job not_paid =
    "PermissionError: refusing to build a job that no payment path marked as paid"
refusal_text D job ambiguous = "ValueError: a job cannot be both paid and a free preview"
refusal_text D job no_prd = "ValueError: job has no PRD stored; nothing to build"
refusal_text D job invalid_prd = "ValidationError: " ++ Pydantic.error D (fields_of job.prd)

abbrev pub is_running : BuildStatus → Bool
is_running running = true
is_running _ = false

unfoldable pub caught : String → BuildJob → BuildJob
caught exc job = record job { status = failed; failure = some exc }

-- what `run` of `_execute` does with the exception, or the record, that the closure leaves
unfoldable pub reported : Option String → BuildJob → BuildJob
unfolding caught
reported (some exc) job = caught exc job
reported none job =
    if is_running job.status
    then record job {
      status = failed;
      failure = some "build finished without reporting an outcome";
    }
    else job

module _ (A : Agents) (H : Host A) where
  open A use {W}
  open H use {usage, upper, files, build_root, retention_seconds, prune}
  open files use {S}

  -- `exc` is the text of what is raised, wherever something is.
  abbrev pub kept_of : String → ℕ → BuildJob → Option (Option String × S) → Closed S
  kept_of exc clock job none = record { job = job; exception = some exc; files = none }
  kept_of exc clock job (some (apk_path, s)) = record {
    job = record job { apk_path = apk_path };
    exception = none;
    files = some (sweep_expired files clock build_root retention_seconds s).1;
  }

  -- by `_PRUNE_BUILDS` and `job.preview`
  unfoldable pub pruned_as : Bool → Bool → String → ℕ → BuildJob → S → Closed S
  unfolding keep_only_the_artifact sweep_expired
  pruned_as false preview exc clock job s = record { job = job; exception = none; files = some s }
  pruned_as true true exc clock job s = record {
    job = job;
    exception = none;
    files = some (sweep_expired files clock build_root retention_seconds s).1;
  }
  pruned_as true false exc clock job s =
      kept_of exc clock job (keep_only_the_artifact files (built_in job) job.apk_path s)

  unfoldable pub pruned : String → ℕ → BuildJob → S → Closed S
  unfolding pruned_as
  pruned exc clock job s = pruned_as prune job.preview exc clock job s

  -- from the graph's end on
  unfoldable pub after_invoke : String → ℕ → BuildJob → S → Ending A → Closed S
  unfolding pruned outcome
  after_invoke exc now job s raised = record { job = job; exception = some exc; files = some s }
  after_invoke exc now job s recursion_error = record {
    job = job;
    exception = some exc;
    files = some s;
  }
  after_invoke exc now job s (finished final disk w) =
      pruned exc (now / second) (outcome upper final (usage w) now job) s

  -- the closure
  unfoldable pub closure : ℕ → ℕ → String → ℕ → BuildJob → Prd → Dict String → W → S → Closed S
  unfolding after_invoke payload
  closure recursion_limit max_repairs exc now job prd disk w s =
      after_invoke exc now job s
        (invoke A recursion_limit max_repairs (payload job prd) (built_in job) disk w)

  abbrev pub run_factory :
      Pydantic → ℕ → ℕ → String → ℕ → BuildJob → Factory → Dict String → W → S → Closed S
  run_factory D recursion_limit max_repairs exc now job (refused r) disk w s = record {
    job = job;
    exception = some (refusal_text D job r);
    files = some s;
  }
  run_factory D recursion_limit max_repairs exc now job (build prd) disk w s =
      closure recursion_limit max_repairs exc now job prd disk w s

  -- the thread, which ends at `now`
  unfoldable pub run_thread :
      Pydantic → ℕ → ℕ → String → ℕ → BuildJob → Dict String → W → S → BuildJob
  unfolding build_work reported closure refusal_text
  run_thread D recursion_limit max_repairs exc now job disk w s =
      let c = run_factory D recursion_limit max_repairs exc now job (build_work D job) disk w s in
      reported c.exception c.job
