-- ===== src/App/Settings.antt =====
-- src/service/app.py: what the service reads from its environment. `os.getenv` and `int` on a text
-- are fields of `Environment`; what raises at startup is `none`.
use Prim.Native.String.{◌++◌}
use app_generation_microserv.Base.{
  ℕ, String, ◌==◌, Bool, not, ◌||◌, Option, none, some, if◌then◌else◌,
}
use app_generation_microserv.Base.Int.{ℤ, pos_part}
use app_generation_microserv.Payments.Eip3009.{TokenConfig}

pub record Environment : Type 0 where
  pub getenv : String → Option String
  pub int : String → Option ℤ
  pub strip : String → String

-- `value or default`
abbrev pub or_else : Option String → String → String
or_else none default = default
or_else (some value) default = if value == "" then default else value

-- `os.getenv(name, default)`
abbrev pub default_to : Option String → String → String
default_to none default = default
default_to (some value) default = value

-- What is there and not empty.
abbrev pub truthy : Option String → Option String
truthy none = none
truthy (some value) = if value == "" then none else some value

abbrev pub bind : {A B : Type 0} → Option A → (A → Option B) → Option B
bind none f = none
bind (some a) f = f a

pub record Settings : Type 0 where
  pub generator : String
  pub analyzer : String
  pub flutter_root : Option String
  -- a budget below zero repairs as often as one of zero
  pub max_repairs : ℕ
  pub run_tests : Bool
  pub build_mode : String
  pub sdk_root : Option String

-- `X402Verifier`, with what it is constructed from
pub record X402Settings : Type 0 where
  pub token : TokenConfig
  pub pay_to : String
  pub price : ℤ
  pub clock_skew : ℤ
  pub shared_nonces : Bool
  pub facilitator_url : Option String
  pub facilitator_key : Option String
  pub resource : String

pub data Chosen : Type 0 where
  x402_eip3009 : X402Settings → Chosen
  dev_shared_secret : String → Chosen
  refusing : Chosen

-- `first or os.getenv(second)`
abbrev pub first_of : Option String → Option String → Option String
first_of none second = second
first_of (some value) second = if value == "" then second else some value

module _ (E : Environment) where
  open E use {getenv, int, strip}

  unfoldable pub settings : Option Settings
  settings = bind (int (default_to (getenv "SUPERVISOR_MAX_REPAIRS") "3")) (λ max_repairs.
      some (record {
        generator = default_to (getenv "SUPERVISOR_GENERATOR") "claude";
        analyzer = default_to (getenv "SUPERVISOR_ANALYZER") "dart";
        flutter_root = getenv "FLUTTER_ROOT";
        max_repairs = pos_part max_repairs;
        run_tests = not (default_to (getenv "SUPERVISOR_RUN_TESTS") "1" == "0");
        build_mode = default_to (getenv "SUPERVISOR_BUILD_MODE") "debug";
        sdk_root = first_of (getenv "ANDROID_SDK_ROOT") (getenv "ANDROID_HOME");
      }))

  -- from the settings on: why nothing can be built, or `none`
  unfoldable pub unusable_with : Settings → Option String
  unusable_with s =
      if not (s.generator == "claude")
      then none
      else if strip (or_else (getenv "ANTHROPIC_API_KEY") "") == ""
      then some (
          "the claude generator is selected but ANTHROPIC_API_KEY is empty, so "
          ++ "every build would fail after taking payment")
      else none

  unfoldable pub generator_unusable : Option (Option String)
  unfolding settings unusable_with
  generator_unusable = bind settings (λ s. some (unusable_with s))

  -- `_env`
  unfoldable pub env : String → String → String
  env name default = or_else (getenv name) default

  unfoldable pub canonical_resource_url : String
  unfolding env
  canonical_resource_url =
      let host = env "PUBLIC_HOSTNAME" "" in
      if host == "" then "/builds" else "https://" ++ host ++ "/builds"

  -- An id below zero is no chain's; `int` of what is no number raises.
  unfoldable pub token_from_env : Option (Option TokenConfig)
  unfolding env
  token_from_env =
      let contract = env "X402_TOKEN_CONTRACT" "" in
      let chain_id = env "X402_CHAIN_ID" "" in
      if contract == "" || chain_id == ""
      then some none
      else bind (int chain_id) (λ id. some (
          some (record {
            chain_id = pos_part id;
            verifying_contract = contract;
            domain_name = env "X402_DOMAIN_NAME" "USDC";
            domain_version = env "X402_DOMAIN_VERSION" "2";
            network = env "X402_NETWORK" "base-sepolia";
            asset_decimals = 6;
          })))

  abbrev pub or_dev : Option String → Chosen
  or_dev none = refusing
  or_dev (some secret) = dev_shared_secret secret

  unfoldable pub x402_from_env : TokenConfig → String → Option Chosen
  unfolding env canonical_resource_url
  x402_from_env token pay_to = bind (int (env "X402_PRICE_ATOMIC" "500000")) (λ price.
      bind (int (env "X402_CLOCK_SKEW" "0")) (λ clock_skew. some (
        x402_eip3009 (record {
          token = token;
          pay_to = pay_to;
          price = price;
          clock_skew = clock_skew;
          shared_nonces = not (or_else (getenv "REDIS_URL") "" == "");
          facilitator_url = truthy (getenv "X402_FACILITATOR_URL");
          facilitator_key = truthy (getenv "X402_FACILITATOR_KEY");
          resource = canonical_resource_url;
        }))))

  unfoldable pub verifier_with : Option TokenConfig → Option Chosen
  unfolding x402_from_env env
  verifier_with none = some (or_dev (truthy (getenv "X402_SHARED_SECRET")))
  verifier_with (some token) =
      let pay_to = env "X402_PAY_TO" "" in
      if pay_to == ""
      then some (or_dev (truthy (getenv "X402_SHARED_SECRET")))
      else x402_from_env token pay_to

  unfoldable pub verifier_from_env : Option Chosen
  unfolding token_from_env verifier_with
  verifier_from_env = bind token_from_env verifier_with

  pub record WorkerSettings : Type 0 where
    pub lease_seconds : ℤ
    pub heartbeat_seconds : ℤ
    pub max_attempts : ℤ

  unfoldable pub worker_settings : Option WorkerSettings
  worker_settings = bind (int (default_to (getenv "BUILD_LEASE_SECONDS") "300")) (λ lease.
      bind (int (default_to (getenv "BUILD_HEARTBEAT_SECONDS") "30")) (λ heartbeat.
        bind (int (default_to (getenv "BUILD_MAX_ATTEMPTS") "3")) (λ attempts. some (record {
          lease_seconds = lease;
          heartbeat_seconds = heartbeat;
          max_attempts = attempts;
        }))))
