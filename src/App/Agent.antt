-- ===== src/App/Agent.antt =====
-- src/service/app.py: `_start_build_for_agent`, the purchase over MCP, by the handler of `/builds`.
pub mod Purchase
use Prim.Native.String.{◌++◌}
use app_generation_microserv.Base.{ℕ, ◌+◌, String, Bool, true, false, Option, none, some, List}
use app_generation_microserv.Base.Int.{pos}
use app_generation_microserv.Base.Json.{Value, num, text, bool, obj, Fields, end, field}
use app_generation_microserv.Base.Text.{decimal}
use app_generation_microserv.Redis.{Redis}
use app_generation_microserv.RateLimit.{RateLimiter, Source}
use app_generation_microserv.Payments.Eip3009.{Libraries}
use app_generation_microserv.Payments.Verifier.{Nonces, Facilitator}
use app_generation_microserv.Jobs.{BuildJob}
use app_generation_microserv.Jobs.Json.{status_value}
use app_generation_microserv.Mcp.{Ran, output, exception}
use app_generation_microserv.App.Settings.{Environment}
use app_generation_microserv.App.Documents.{Pydantic}
use app_generation_microserv.App.Accept.{
  Request, Service, Response, too_many, unusable, invalid, payment_required, accepted,
  internal_error, State, Moment, create_build,
}

-- the body of a 429
unfoldable pub rate_body : RateLimiter → ℕ → Fields
rate_body l retry_after = field "error" (text "too many requests") (
    field "detail"
      (text (
        "at most "
        ++ decimal l.limit
        ++ " build requests per "
        ++ decimal l.window_seconds
        ++ "s from one address"))
      (field "retry_after" (num (pos retry_after)) end))

-- the body of a 503
unfoldable pub unusable_body : String → Fields
unusable_body detail =
    field "error" (text "this deployment cannot build") (field "detail" (text detail) end)

unfoldable pub not_paid : Fields → Fields
not_paid rest = field "paid" (bool false) rest

-- `base` is the request's URL up to its last slash; `exc` the text of an exception of the handler
unfoldable pub answered : String → String → Response → Ran
unfolding rate_body unusable_body not_paid status_value
answered base exc (invalid detail) = output (
    obj (
      not_paid (
        field "error" (text "the PRD was rejected before any payment was taken") (
          field "detail" (text detail)
            (field "next" (text "fix the document and retry; prd_schema has the contract") end)))))
answered base exc (payment_required terms) = output (
    obj (
      not_paid (
        field "next"
          (text (
            "sign an EIP-3009 authorization over accepts[0] and call "
            ++ "start_build again with it as x_payment"))
          terms)))
answered base exc (too_many l retry_after) =
    output (obj (not_paid (field "error" (obj (rate_body l retry_after)) end)))
answered base exc (unusable detail) =
    output (obj (not_paid (field "error" (obj (unusable_body detail)) end)))
answered base exc (accepted job) = output (
    obj (
      field "paid" (bool true) (
        field "id" (text job.id) (
          field "status" (text (status_value job.status)) (
            field "poll" (text ("build_status(job_id='" ++ job.id ++ "')"))
              (field "apk_url" (text (base ++ "/builds/" ++ job.id ++ "/apk")) end))))))
answered base exc internal_error = exception exc

module _ (R : Redis) (L : Libraries) (N : Nonces) (F : Facilitator L) (P : Service)
    (E : Environment) (D : Pydantic) (others : State R L N F → State R L N F) where
  -- the request's own headers, with the payment that the agent passes
  unfoldable pub start_build_for_agent :
      Source R
      → Moment
      → Request
      → String
      → String
      → Fields
      → Option String
      → State R L N F
      → Ran × State R L N F
  unfolding answered create_build
  start_build_for_agent source m r base exc prd_body x_payment st =
      let (response, st') =
        create_build R L N F P E D others source m (record r { x_payment = x_payment }) prd_body
          st in
      (answered base exc response, st')
