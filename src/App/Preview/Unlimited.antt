-- ===== src/App/Preview/Unlimited.antt =====
-- src/service/app.py and ratelimit.py: limits of 0, as PREVIEW_DAILY_LIMIT=0 sets them.
use app_generation_microserv.Base.{ℕ, String, ◌≡◌, refl, none, some}
use app_generation_microserv.Base.Dict.{Dict}
use app_generation_microserv.Base.Json.{Fields}
use app_generation_microserv.Prd.{Prd}
use app_generation_microserv.Redis.{Redis}
use app_generation_microserv.RateLimit.{RateLimiter, Counter, Source, check}
use app_generation_microserv.Payments.Eip3009.{Libraries}
use app_generation_microserv.Payments.Verifier.{Nonces, Facilitator}
use app_generation_microserv.Jobs.{BuildJob}
use app_generation_microserv.App.Settings.{Environment, generator_unusable}
use app_generation_microserv.App.Documents.{Pydantic, model_validate}
use app_generation_microserv.App.Accept.{Request, Service, accepted, State, Moment}
use app_generation_microserv.App.Preview.{
  previewed, after_budget, after_address, after_usable, create_preview,
}

check-unlimited :
    (R : Redis) (l : RateLimiter) (source : Source R) (identity : String) (now : ℕ)
    (d : Dict Counter) (s : Redis.State R)
    → l.limit ≡ 0
    → check R l source identity now (d, s) ≡ (none, d, s)
unfolding check
check-unlimited R l source identity now d s h = rw h refl

module _ (R : Redis) (L : Libraries) (N : Nonces) (F : Facilitator L) (P : Service)
    (E : Environment) (D : Pydantic) where
  previewed-valid :
      (m : Moment) (body : Fields) (prd : Prd) (st : State R L N F)
      → (job : BuildJob) × ((previewed R L N F P E D m body (some prd) st).0 ≡ accepted job)
  unfolding previewed
  previewed-valid m body prd st = (_, refl)

  -- With both limits of previews at 0 a deployment that can build accepts a preview of every valid
  -- document, from every caller and however many it has accepted before.
  pub create_preview-unlimited :
      (source : Source R) (m : Moment) (r : Request) (body : Fields) (st : State R L N F)
      (prd : Prd)
      → generator_unusable E ≡ some none
      → P.preview_limiter.limit ≡ 0
      → P.preview_budget.limit ≡ 0
      → model_validate D body ≡ some prd
      → (job : BuildJob) × ((create_preview R L N F P E D source m r body st).0 ≡ accepted job)
  unfolding create_preview after_usable after_address after_budget
  create_preview-unlimited source m r body st prd usable ips all valid =
      rw
        (
          usable,
          check-unlimited R P.preview_limiter source _ _ _ _ ips,
          check-unlimited R P.preview_budget source _ _ _ _ all,
          valid,
        )
        (previewed-valid m body prd st)
