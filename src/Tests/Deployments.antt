-- ===== src/Tests/Deployments.antt =====
-- Environments of deployments, and a purchase by an agent, on which the theorems of App.Wiring and
-- App.Agent hold.
use app_generation_microserv.Base.{
  String, ◌==◌, ◌≡◌, ◌≢◌, refl, true, Option, none, some, if◌then◌else◌,
}
use app_generation_microserv.Base.Int.{ℤ, pos}
use app_generation_microserv.Base.Json.{bool, end}
use app_generation_microserv.Prd.{
  accepts, valid_fields, package_identifier, segments, valid_model, valid_screen, valid_field,
  valid_action, dart_identifier, alphanumerics, pascal_case, referential_integrity,
}
use app_generation_microserv.Payments.Eip3009.{
  decode_text, decode_header, as_int, as_nonce, read_authorization, parse_authorization, replay_key,
  check_signature, check_terms, verify_payment,
}
use app_generation_microserv.Payments.Replay.{evict_expired, claim}
use app_generation_microserv.Payments.Verifier.{
  Config, conclude, after_claim, spend, ask, after_verify, settle,
}
use app_generation_microserv.Payments.Verifier.Once.{memory_nonces}
use app_generation_microserv.RateLimit.{
  without_redis, check, check_local, current, swept, client_identity, hops, counted,
}
use app_generation_microserv.Jobs.{BuildJob, create, save}
use app_generation_microserv.App.Settings.{
  Environment, generator_unusable, settings, unusable_with, env, x402_from_env, token_from_env,
  verifier_with, verifier_from_env,
}
use app_generation_microserv.App.Documents.{model_validate}
use app_generation_microserv.App.Accept.{
  Service, x402, accepted, marked, enqueued, settle_by, after_settle, after_validation, after_check,
  after_limit, create_build,
}
use app_generation_microserv.App.Accept.Charging.{IsAccepted}
use app_generation_microserv.App.Agent.{answered, start_build_for_agent}
use app_generation_microserv.App.Agent.Purchase.{says, start_build-IsAccepted}
use app_generation_microserv.App.Wiring.{Parts, verifier_of, token_of, number, create_app}
use app_generation_microserv.App.Wiring.Unconfigured.{unconfigured-refuses}
use app_generation_microserv.App.Wiring.Quoted.{wired-quoted}
use app_generation_microserv.Tests.FakeRedis.{fake}
use app_generation_microserv.Tests.Documents.{pydantic}
use app_generation_microserv.Tests.Payments.{libraries, facilitator}
use app_generation_microserv.Tests.Apps.{
  deployment, service, moment, request, body, undisturbed, paid_job, environment,
}

-- `int` of the few texts that stand in the environments
abbrev int_of : String → Option ℤ
int_of s =
    if s == ""
    then none
    else if s == "500000"
    then some (pos 500000)
    else if s == "84532"
    then some (pos 84532)
    else some (pos 3)

abbrev nothing_set : Environment
nothing_set = record { getenv = λ name. none; int = int_of; strip = λ s. s }

abbrev configured : Environment
configured = record {
  getenv = λ name.
      if name == "X402_TOKEN_CONTRACT"
      then some "contract"
      else if name == "X402_CHAIN_ID"
      then some "84532"
      else if name == "X402_PAY_TO"
      then some "seller"
      else none;
  int = int_of;
  strip = λ s. s;
}

abbrev parts : Parts
parts = record {
  digest = record { compare_digest = λ a b. some (a == b) };
  output_schema = end;
  message = λ e. "refused";
  spell = λ s. "somebody";
}

-- what either environment makes of the service
abbrev service_of : Option Service → Service
service_of none = deployment
service_of (some P) = P

abbrev refusing_service : Service
refusing_service = unfold create_app in service_of (create_app nothing_set parts)

abbrev selling_service : Service
selling_service = unfold create_app in service_of (create_app configured parts)

wired_nothing : create_app nothing_set parts ≡ some refusing_service
unfolding create_app verifier_from_env token_from_env env verifier_with verifier_of token_of number
wired_nothing = refl

wired_selling : create_app configured parts ≡ some selling_service
unfolding create_app verifier_from_env token_from_env env verifier_with verifier_of token_of number
    x402_from_env
wired_selling = refl

unconfigured-refuses_example :
    (create_build fake libraries memory_nonces facilitator refusing_service nothing_set pydantic
      undisturbed without_redis moment request body service).0
    ≢ accepted paid_job
unconfigured-refuses_example =
    unconfigured-refuses fake libraries memory_nonces facilitator refusing_service nothing_set parts
      pydantic undisturbed without_redis moment request body service paid_job (refl, refl)
      wired_nothing

abbrev demanded : Config
demanded = record {
  token = record {
    chain_id = 84532;
    verifying_contract = "contract";
    domain_name = "USDC";
    domain_version = "2";
    network = "base-sepolia";
    asset_decimals = 6;
  };
  pay_to = "seller";
  min_value = 500000;
  clock_skew = 3;
}

sold : selling_service.verifier ≡ x402 demanded
unfolding create_app verifier_from_env token_from_env env verifier_with verifier_of token_of number
    x402_from_env
sold = refl

wired-quoted_example :
    (500000 ≡ selling_service.price_atomic) × (selling_service.token ≡ some demanded.token)
wired-quoted_example =
    wired-quoted configured parts selling_service demanded refl wired_selling sold

-- the purchase by an agent that passes the payment
agent_paid :
    says "paid"
      (start_build_for_agent fake libraries memory_nonces facilitator deployment environment
        pydantic undisturbed without_redis moment request "https://x" "Error" body
        (some "{}")
        service).0
    ≡ some (bool true)
unfolding start_build_for_agent answered create_build check check_local current swept counted
    client_identity hops after_limit generator_unusable settings unusable_with after_check
    model_validate accepts valid_fields package_identifier segments valid_model valid_screen
    valid_field valid_action dart_identifier alphanumerics pascal_case referential_integrity
    after_validation settle_by settle after_verify ask spend after_claim conclude claim
    evict_expired replay_key verify_payment decode_header decode_text parse_authorization
    read_authorization as_int as_nonce check_terms check_signature after_settle create marked
    enqueued save
agent_paid = refl

start_build-IsAccepted_example :
    (job : BuildJob) × IsAccepted fake libraries memory_nonces facilitator deployment environment
      pydantic undisturbed without_redis moment
      (record request { x_payment = some "{}" })
      body
      service
      job
      (start_build_for_agent fake libraries memory_nonces facilitator deployment environment
        pydantic undisturbed without_redis moment request "https://x" "Error" body
        (some "{}")
        service).1
start_build-IsAccepted_example =
    start_build-IsAccepted fake libraries memory_nonces facilitator deployment environment pydantic
      undisturbed without_redis moment request "https://x" "Error" body (some "{}") service
      agent_paid
