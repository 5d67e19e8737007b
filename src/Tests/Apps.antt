-- ===== src/Tests/Apps.antt =====
-- A deployment, a request and a build, on which the theorems of App hold.
use app_generation_microserv.Base.{
  ℕ, String, ◌==◌, ◌≡◌, refl, true, false, none, some, [], if◌then◌else◌,
}
use app_generation_microserv.Base.Int.{pos}
use app_generation_microserv.Base.Json.{text, Fields, end}
use app_generation_microserv.Base.Text.{codes}
use app_generation_microserv.Prd.{
  Prd, accepts, valid_fields, package_identifier, segments, valid_model, valid_screen, valid_field,
  valid_action, dart_identifier, alphanumerics, pascal_case, referential_integrity,
}
use app_generation_microserv.Payments.Eip3009.{
  decode_text, decode_header, as_int, as_nonce, read_authorization, parse_authorization, replay_key,
  check_signature, check_terms, verify_payment,
}
use app_generation_microserv.Payments.Replay.{evict_expired, claim}
use app_generation_microserv.Payments.Verifier.{
  conclude, after_claim, spend, ask, after_verify, settle,
}
use app_generation_microserv.Payments.Verifier.Once.{memory_nonces}
use app_generation_microserv.RateLimit.{
  RateLimiter, without_redis, check, check_local, current, swept, client_identity, hops, counted,
}
use app_generation_microserv.Jobs.{queued, BuildJob, create, save}
use app_generation_microserv.App.Settings.{Environment, generator_unusable, settings, unusable_with}
use app_generation_microserv.App.Documents.{Pydantic, model_validate}
use app_generation_microserv.App.Accept.{
  Request, Service, accepted, x402, State, Moment, marked, enqueued, settle_by, after_settle,
  after_validation, after_check, after_limit, create_build,
}
use app_generation_microserv.App.Accept.Charging.{
  IsAccepted, create_build-accepted, IsUntouched, create_build-IsUntouched,
}
use app_generation_microserv.Tests.FakeRedis.{fake, empty_server}
use app_generation_microserv.Tests.Documents.{pydantic}
use app_generation_microserv.Tests.Builds.{shop}
use app_generation_microserv.Tests.Payments.{libraries, token, config, facilitator}

-- nothing is configured but a generator that needs no key
abbrev pub environment : Environment
environment = record {
  getenv = λ name. if name == "SUPERVISOR_GENERATOR" then some "template" else none;
  int = λ s. some (pos 3);
  strip = λ s. s;
}

abbrev pub limiter : String → ℕ → RateLimiter
limiter name limit = record { limit = limit; window_seconds = 60; name = name }

abbrev pub deployment : Service
deployment = record {
  limiter = limiter "builds" 20;
  preview_limiter = limiter "preview-ip" 1;
  preview_budget = limiter "preview-global" 5;
  verifier = x402 config;
  token = some token;
  pay_to = some "seller";
  price_atomic = 500000;
  output_schema = end;
  build_root = "generated_apps/service";
  message = λ e. "refused";
  spell = λ s. "somebody";
}

abbrev pub service : State fake libraries memory_nonces facilitator
service = record {
  builds = [];
  preview_ips = [];
  preview_all = [];
  shared = empty_server;
  last_error = none;
  last_transaction = none;
  nonces = [];
  outside = 0;
  jobs = [];
  queue = record { pending = []; leases = [] };
}

abbrev pub moment : Moment
moment = record {
  arrived = 10000000;
  verified = 10000000;
  claimed = 10000000;
  created = 10000000;
  id = "j1";
}

abbrev pub request : Request
request = record {
  forwarded_for = some (codes "9.9.9.9");
  forwarded_proto = none;
  forwarded_host = none;
  host = none;
  peer = none;
  scheme = codes "http";
  netloc = codes "api:8000";
  path = "/builds";
  x_payment = some "{}";
}

abbrev pub body : Fields
body = Pydantic.dump pydantic shop

abbrev pub undisturbed :
    State fake libraries memory_nonces facilitator → State fake libraries memory_nonces facilitator
undisturbed st = st

abbrev pub paid_job : BuildJob
paid_job = record {
  id = "j1";
  app_name = "Shop";
  status = queued;
  created_at = 10000000;
  finished_at = none;
  log = [];
  diagnostics = [];
  failure = none;
  apk_path = none;
  build_dir = some "generated_apps/service/j1";
  heartbeat_at = none;
  settlement_tx = some (text "0x1");
  usage = end;
  prd = some body;
  paid = true;
  preview = false;
  attempts = 0;
}

bought :
    (create_build fake libraries memory_nonces facilitator deployment environment pydantic
      undisturbed without_redis moment request body service).0
    ≡ accepted paid_job
unfolding create_build check check_local current swept counted client_identity hops after_limit
    generator_unusable settings unusable_with after_check model_validate accepts valid_fields
    package_identifier segments valid_model valid_screen valid_field valid_action dart_identifier
    alphanumerics pascal_case referential_integrity after_validation settle_by settle after_verify
    ask spend after_claim conclude claim evict_expired replay_key verify_payment decode_header
    decode_text parse_authorization read_authorization as_int as_nonce check_terms check_signature
    after_settle create marked enqueued save
bought = refl

create_build-accepted_example :
    IsAccepted fake libraries memory_nonces facilitator deployment environment pydantic undisturbed
      without_redis moment request body service paid_job
      (create_build fake libraries memory_nonces facilitator deployment environment pydantic
        undisturbed without_redis moment request body service).1
create_build-accepted_example =
    create_build-accepted fake libraries memory_nonces facilitator deployment environment pydantic
      undisturbed without_redis moment request body service paid_job bought

create_build-IsUntouched_example :
    IsUntouched fake libraries memory_nonces facilitator deployment environment pydantic undisturbed
      service
      (create_build fake libraries memory_nonces facilitator deployment environment pydantic
        undisturbed without_redis moment request end service).0
      (create_build fake libraries memory_nonces facilitator deployment environment pydantic
        undisturbed without_redis moment request end service).1
create_build-IsUntouched_example =
    create_build-IsUntouched fake libraries memory_nonces facilitator deployment environment
      pydantic undisturbed without_redis moment request end service
