-- ===== src/App/Wiring.antt =====
-- src/service/app.py: `create_app`, from the environment to what the handlers use. An error at
-- startup is none.
pub mod Unconfigured
pub mod Quoted
use app_generation_microserv.Base.{ℕ, String, ◌==◌, Bool, Option, none, some, List, if◌then◌else◌}
use app_generation_microserv.Base.Int.{ℤ, pos_part}
use app_generation_microserv.Base.Json.{Fields}
use app_generation_microserv.RateLimit.{RateLimiter}
use app_generation_microserv.Payments.Eip3009.{TokenConfig}
use app_generation_microserv.Payments.Verifier.{Digest, Config, Refusal}
use app_generation_microserv.App.Settings.{
  Environment, X402Settings, Chosen, x402_eip3009, dev_shared_secret, bind, default_to,
  verifier_from_env,
}
use app_generation_microserv.App.Settings
use app_generation_microserv.App.Accept.{Service, Verifier, x402, dev, refusing}

-- What is not read from the environment: `hmac` and the texts of the service.
pub record Parts : Type 0 where
  pub digest : Digest
  pub output_schema : Fields
  pub message : Refusal → String
  pub spell : List ℕ → String

-- The verifier that was chosen. A negative price or skew is 0.
unfoldable pub verifier_of : Digest → Chosen → Verifier
verifier_of D (x402_eip3009 s) = x402 (record {
  token = s.token;
  pay_to = s.pay_to;
  min_value = pos_part s.price;
  clock_skew = pos_part s.clock_skew;
})
verifier_of D (dev_shared_secret secret) = dev D (some secret)
verifier_of D Settings.refusing = refusing

-- the token that is quoted: none where the deployment does not verify payments on chain
unfoldable pub token_of : Chosen → Option TokenConfig
token_of (x402_eip3009 s) = some s.token
token_of (dev_shared_secret secret) = none
token_of Settings.refusing = none

-- `RateLimiter(limit=int(...), window_seconds=..., name=...)`
abbrev pub limiter_named : String → ℤ → ℕ → RateLimiter
limiter_named name limit window_seconds = record {
  limit = pos_part limit;
  window_seconds = window_seconds;
  name = name;
}

module _ (E : Environment) (B : Parts) where
  open E use {getenv, int}

  -- `int(os.getenv(name, default))`
  unfoldable pub number : String → String → Option ℤ
  number name default = int (default_to (getenv name) default)

  unfoldable pub create_app : Option Service
  unfolding verifier_from_env verifier_of token_of number
  create_app = bind (verifier_from_env E) (λ chosen.
      bind (number "X402_PRICE_ATOMIC" "500000") (λ price.
        bind (number "BUILDS_RATE_LIMIT" "20") (λ builds.
          bind (number "BUILDS_RATE_WINDOW_SECONDS" "60") (λ window.
            bind (number "PREVIEW_PER_IP_DAILY" "1") (λ per_ip.
              bind (number "PREVIEW_DAILY_LIMIT" "5") (λ daily. some (record {
                limiter = limiter_named "builds" builds (pos_part window);
                preview_limiter = limiter_named "preview-ip" per_ip 86_400;
                preview_budget = limiter_named "preview-global" daily 86_400;
                verifier = verifier_of B.digest chosen;
                token = token_of chosen;
                pay_to = getenv "X402_PAY_TO";
                price_atomic = pos_part price;
                output_schema = B.output_schema;
                build_root = default_to (getenv "BUILD_ROOT") "generated_apps/service";
                message = B.message;
                spell = B.spell;
              })))))))
