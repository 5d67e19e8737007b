-- ===== src/App/Health.antt =====
-- src/service/app.py: `healthz`, what a deployment says of itself.
use Prim.Native.String.{◌++◌}
use app_generation_microserv.Base.{
  ℕ, String, ◌==◌, Bool, true, not, ◌&&◌, Option, some, if◌then◌else◌, eqb, is_some,
}
use app_generation_microserv.Base.Int.{pos}
use app_generation_microserv.Base.Json.{Value, num, text, bool, obj, Fields, end, field}
use app_generation_microserv.Base.Text.{decimal}
use app_generation_microserv.RateLimit.{RateLimiter}
use app_generation_microserv.Payments.Eip3009.{TokenConfig}
use app_generation_microserv.Payments.Challenge.{or_null}
use app_generation_microserv.App.Settings.{
  Environment, Settings, settings, unusable_with, truthy, bind, Chosen, x402_eip3009,
  dev_shared_secret, refusing,
}
use app_generation_microserv.App.Accept.{Service}

unfoldable pub payment_mode : Chosen → String
payment_mode (x402_eip3009 s) = "x402-eip3009"
payment_mode (dev_shared_secret secret) = "dev-shared-secret"
payment_mode refusing = "none"

unfoldable pub token_value : TokenConfig → Value
token_value t = obj (
    field "contract" (text t.verifying_contract) (
      field "domain_name" (text t.domain_name) (
        field "domain_version" (text t.domain_version)
          (field "chain_id" (num (pos t.chain_id)) end))))

unfoldable pub rate_text : RateLimiter → String
rate_text l =
    if eqb l.limit 0 then "unlimited" else decimal l.limit ++ "/" ++ decimal l.window_seconds ++ "s"

-- What the handler sees of the wiring: the store's backend, whether the queue is durable and how deep
-- it is (none where that cannot be read), and whether there is a worker in this process.
pub record Backends : Type 0 where
  pub mode : String
  pub store_backend : String
  pub durable_queue : Bool
  pub queue_depth : Option ℕ
  pub embedded_worker : Bool

unfoldable pub health : Environment → Service → Backends → Settings → Fields
unfolding token_value rate_text unusable_with
health E P b s = field "ok" (bool true) (
    field "generator" (text s.generator) (
      field "analyzer" (text s.analyzer) (
        field "build_mode" (text s.build_mode) (
          field "payment_configured" (bool (not (b.mode == "none"))) (
            field "payment_mode" (text b.mode) (
              field "settlement"
                (text (
                  if is_some (truthy (Environment.getenv E "X402_FACILITATOR_URL"))
                  then "on-chain"
                  else "verification-only"))
                (field "network" (or_null (λ (t : TokenConfig). text t.network) P.token) (
                  field "token" (or_null token_value P.token) (
                    field "job_store" (text b.store_backend) (
                      field "multi_process_safe"
                        (bool (
                          b.store_backend == "redis"
                          && is_some (truthy (Environment.getenv E "REDIS_URL"))))
                        (field "durable_execution"
                          (bool (b.durable_queue && b.store_backend == "redis"))
                          (field "queue_depth" (or_null (λ n. num (pos n)) b.queue_depth) (
                            field "embedded_worker" (bool b.embedded_worker) (
                              field "generator_ready" (bool (not (is_some (unusable_with E s)))) (
                                field "builds_rate_limit" (text (rate_text P.limiter))
                                  end)))))))))))))))

-- none where reading the settings raises
unfoldable pub healthz : Environment → Service → Backends → Option Fields
unfolding settings health
healthz E P b = bind (settings E) (λ s. some (health E P b s))
