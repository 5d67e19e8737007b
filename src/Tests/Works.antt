-- ===== src/Tests/Works.antt =====
-- The builds of a paid job and of a preview, on which the theorems of App hold.
use Prim.Native.String.{◌++◌}
use app_generation_microserv.Base.{ℕ, ◌≡◌, ◌≢◌, refl, true, false, none, some, [], ◌∷◌}
use app_generation_microserv.Base.Json.{bool, get}
use app_generation_microserv.Analyzer.{is_fatal, signature_key, render}
use app_generation_microserv.Ownership.{owner_of, owner_or, owned_by, route_for}
use app_generation_microserv.Prd.{
  Prd, accepts, valid_fields, package_identifier, segments, valid_model, valid_screen, valid_field,
  valid_action, dart_identifier, alphanumerics, pascal_case, referential_integrity,
}
use app_generation_microserv.Payments.Gate.{is_verified}
use app_generation_microserv.Payments.Verifier.Once.{memory_nonces}
use app_generation_microserv.RateLimit.{without_redis}
use app_generation_microserv.Build.Pipeline.{run_build}
use app_generation_microserv.Jobs.{running, succeeded, BuildJob, is_open}
use app_generation_microserv.Artifacts.{Files, is_text, keep_only_the_artifact, sweep_expired}
use app_generation_microserv.Graph.State.{initial_state, all_files}
use app_generation_microserv.Graph.Nodes.{
  planned, planning_node, genui_wrote, genui_node, logic_wrote, logic_node,
}
use app_generation_microserv.Graph.Qa.{
  unlink_stale, assemble, materialise, is_stalled, declare_tests, qa_note, judged, with_tests,
  own_diagnostics, after_analysis, analysed, qa_node,
}
use app_generation_microserv.Graph.Packaging.{packaged, packaging_node}
use app_generation_microserv.Graph.Router.{route_diagnostics, route_after_qa, route_after_agent}
use app_generation_microserv.Graph.Run.{Ending, finished, step, run, invoke}
use app_generation_microserv.App.Settings.{generator_unusable, settings, unusable_with}
use app_generation_microserv.App.Documents.{model_validate, preview_prd}
use app_generation_microserv.App.Accept.{Service, accepted, create_build, invalid}
use app_generation_microserv.App.Preview.{create_preview}
use app_generation_microserv.App.Preview.Unlimited.{create_preview-unlimited}
use app_generation_microserv.App.Read.{validate, described}
use app_generation_microserv.App.Read.Validity.{validate-agrees}
use app_generation_microserv.App.Stored.{IsStored, create_build-IsStored}
use app_generation_microserv.App.Work.{
  Host, build_work, payload, run_thread, built_in, closure, reported, after_invoke, pruned,
  pruned_as, outcome, logged, undisputed, guarded, stamped,
}
use app_generation_microserv.App.Work
use app_generation_microserv.App.Work.Outcome.{run_thread-closed}
use app_generation_microserv.App.Work.Free.{preview-gated, run_thread-unpaid}
use app_generation_microserv.App.Work.Success.{IsBuilt, run_thread-succeeded}
use app_generation_microserv.Tests.FakeRedis.{fake}
use app_generation_microserv.Tests.Documents.{pydantic}
use app_generation_microserv.Tests.Builds.{shop}
use app_generation_microserv.Tests.Graphs.{agents, state_of, disk_of, world_of}
use app_generation_microserv.Tests.Payments.{libraries, facilitator}
use app_generation_microserv.Tests.Apps.{
  environment, limiter, deployment, service, moment, request, body, undisturbed, paid_job,
}

-- a disk with nothing on it
abbrev files : Files
files = record {
  S = ℕ;
  is_dir = λ p s. false;
  is_file = λ p s. false;
  is_symlink = λ p s. false;
  exists = λ p s. false;
  resolve = λ p s. p;
  is_relative_to = λ p q. false;
  name = λ p. p;
  join = λ p q. p ++ "/" ++ q;
  iterdir = λ p s. [];
  tree_size = λ p s. 0;
  mtime = λ p s. none;
  unlink = λ p s. some s;
  move = λ p q s. some s;
  discard = λ p s. s;
  rmtree = λ p s. s;
}

abbrev host : Host agents
host = record {
  usage = λ w. none;
  upper = λ s. s;
  files = files;
  build_root = "generated_apps/service";
  retention_seconds = 604800;
  prune = true;
}

abbrev running_job : BuildJob
running_job = record paid_job { status = running }

abbrev running_preview : BuildJob
running_preview = record paid_job { status = running; paid = false; preview = true }

run_thread-closed_example :
    is_open (run_thread agents host pydantic 25 2 "Error" 20000000 running_job [] 0 0).status
    ≡ false
run_thread-closed_example =
    run_thread-closed agents host pydantic 25 2 "Error" 20000000 running_job [] 0 0

run_thread-unpaid_example :
    is_text (run_thread agents host pydantic 25 2 "Error" 20000000 running_preview [] 0 0).apk_path
    ≡ false
run_thread-unpaid_example =
    run_thread-unpaid agents host pydantic 25 2 "Error" 20000000 running_preview [] 0 0 refl refl

previewed_build :
    (run_thread agents host pydantic 25 2 "Error" 20000000 running_preview [] 0 0).status
    ≡ succeeded
unfolding run_thread closure build_work model_validate accepts valid_fields package_identifier
    segments valid_model valid_screen valid_field valid_action dart_identifier alphanumerics
    pascal_case referential_integrity payload preview_prd reported after_invoke pruned pruned_as
    keep_only_the_artifact sweep_expired outcome logged Work.judged undisputed guarded stamped
    render invoke run step planning_node planned genui_node genui_wrote logic_node logic_wrote
    qa_node assemble materialise analysed after_analysis with_tests judged own_diagnostics
    declare_tests qa_note is_stalled all_files unlink_stale packaging_node packaged run_build
    is_verified route_after_qa route_diagnostics route_after_agent route_for owned_by owner_of
    owner_or is_fatal signature_key initial_state
previewed_build = refl

run_thread-succeeded_example : IsBuilt agents host pydantic 25 2 running_preview [] 0
run_thread-succeeded_example =
    run_thread-succeeded agents host pydantic 25 2 "Error" 20000000 running_preview [] 0 0
      previewed_build

abbrev ending : Ending agents
ending =
    unfold payload in
    invoke agents 25 2 (payload running_preview shop) (built_in running_preview) [] 0

ends :
    invoke agents 25 2 (payload running_preview shop) (built_in running_preview) [] 0
    ≡ finished (state_of ending) (disk_of ending) (world_of ending)
unfolding payload preview_prd invoke run step planning_node planned genui_node genui_wrote
    logic_node logic_wrote qa_node assemble materialise analysed after_analysis with_tests judged
    own_diagnostics declare_tests qa_note is_stalled all_files unlink_stale packaging_node packaged
    run_build is_verified route_after_qa route_diagnostics route_after_agent route_for owned_by
    owner_of owner_or is_fatal signature_key initial_state
ends = refl

preview-gated_example :
    guarded (Work.judged (state_of ending) (logged (λ s. s) (state_of ending) running_preview))
    ≡ Work.judged (state_of ending) (logged (λ s. s) (state_of ending) running_preview)
preview-gated_example =
    preview-gated agents host 25 2 running_preview shop [] (disk_of ending) 0 (world_of ending)
      (state_of ending) refl refl ends

abbrev free_job : BuildJob
free_job = record paid_job { paid = false; preview = true; settlement_tx = none }

abbrev unlimited : Service
unlimited = record deployment {
  preview_limiter = limiter "preview-ip" 0;
  preview_budget = limiter "preview-global" 0;
}

usable : generator_unusable environment ≡ some none
unfolding generator_unusable settings unusable_with
usable = refl

valid : model_validate pydantic body ≡ some shop
unfolding model_validate accepts valid_fields package_identifier segments valid_model valid_screen
    valid_field valid_action dart_identifier alphanumerics pascal_case referential_integrity
valid = refl

create_preview-unlimited_example :
    (job : BuildJob) × ((create_preview fake libraries memory_nonces facilitator unlimited
        environment pydantic without_redis moment request body service).0
      ≡ accepted job)
create_preview-unlimited_example =
    create_preview-unlimited fake libraries memory_nonces facilitator unlimited environment pydantic
      without_redis moment request body service shop usable refl refl valid

create_build-IsStored_example :
    IsStored fake libraries memory_nonces facilitator deployment pydantic
      (create_build fake libraries memory_nonces facilitator deployment environment pydantic
        undisturbed without_redis moment request body service).1
create_build-IsStored_example =
    create_build-IsStored fake libraries memory_nonces facilitator deployment pydantic environment
      undisturbed without_redis moment request body service (λ st h. h) refl

found_valid : get "valid" (validate deployment pydantic (λ s. s ∷ []) body) ≡ some (bool true)
unfolding validate model_validate accepts valid_fields package_identifier segments valid_model
    valid_screen valid_field valid_action dart_identifier alphanumerics pascal_case
    referential_integrity described
found_valid = refl

validate-agrees_example :
    (create_build fake libraries memory_nonces facilitator deployment environment pydantic
      undisturbed without_redis moment request body service).0
    ≢ invalid "Field required"
validate-agrees_example =
    validate-agrees fake libraries memory_nonces facilitator deployment environment pydantic
      undisturbed (λ s. s ∷ []) without_redis moment request body service "Field required"
      found_valid
