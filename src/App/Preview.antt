-- ===== src/App/Preview.antt =====
-- src/service/app.py: `create_preview`, the free preview, over the state of `create_build`.
pub mod Unpaid
pub mod Pipeline
pub mod Unlimited
use app_generation_microserv.Base.{ℕ, String, Bool, true, false, Option, none, some, List, [], ◌∷◌}
use app_generation_microserv.Base.Json.{Fields}
use app_generation_microserv.Prd.{Prd}
use app_generation_microserv.Redis.{Redis}
use app_generation_microserv.RateLimit.{Source, check, client_identity}
use app_generation_microserv.Payments.Eip3009.{Libraries}
use app_generation_microserv.Payments.Verifier.{Nonces, Facilitator}
use app_generation_microserv.Jobs.{BuildJob, create}
use app_generation_microserv.App.Settings.{Environment, generator_unusable}
use app_generation_microserv.App.Documents.{Pydantic, model_validate}
use app_generation_microserv.App.Accept.{
  Request, Service, Response, too_many, unusable, invalid, accepted, internal_error, State, Moment,
  marked, enqueued,
}

module _ (R : Redis) (L : Libraries) (N : Nonces) (F : Facilitator L) (P : Service)
    (E : Environment) (D : Pydantic) where
  unfoldable pub previewed : Moment → Fields → Option Prd → State R L N F → Response × State R L N F
  unfolding create marked enqueued
  previewed m body none st = (invalid (D.error body), st)
  previewed m body (some prd) st =
      let (job, jobs) = create m.id m.created prd.app_name (some (D.dump prd)) st.jobs in
      let job' = marked R L N F P none false true job in
      (accepted job', enqueued R L N F P job' (record st { jobs = jobs }))

  -- the second limiter, one bucket for all callers
  unfoldable pub after_budget :
      Moment → Fields → Option ℕ → State R L N F → Response × State R L N F
  unfolding previewed model_validate
  after_budget m body (some retry_after) st = (too_many P.preview_budget retry_after, st)
  after_budget m body none st = previewed m body (model_validate D body) st

  unfoldable pub after_address :
      Source R → Moment → Fields → Option ℕ → State R L N F → Response × State R L N F
  unfolding after_budget check
  after_address source m body (some retry_after) st = (too_many P.preview_limiter retry_after, st)
  after_address source m body none st =
      let (retry_after, windows, shared) =
        check R P.preview_budget source "all" m.arrived (st.preview_all, st.shared) in
      after_budget m body retry_after (record st { preview_all = windows; shared = shared })

  unfoldable pub after_usable :
      Source R
      → Moment
      → Request
      → Fields
      → Option (Option String)
      → State R L N F
      → Response × State R L N F
  unfolding after_address check client_identity
  after_usable source m r body none st = (internal_error, st)
  after_usable source m r body (some (some detail)) st = (unusable detail, st)
  after_usable source m r body (some none) st =
      let (retry_after, windows, shared) =
        check R P.preview_limiter source (P.spell (client_identity r.forwarded_for r.peer))
          m.arrived (st.preview_ips, st.shared) in
      after_address source m body retry_after (record st { preview_ips = windows; shared = shared })

  unfoldable pub create_preview :
      Source R → Moment → Request → Fields → State R L N F → Response × State R L N F
  unfolding after_usable generator_unusable
  create_preview source m r body st = after_usable source m r body (generator_unusable E) st
