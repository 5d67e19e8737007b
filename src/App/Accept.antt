-- ===== src/App/Accept.antt =====
-- src/service/app.py: `create_build`, which charges for a document and queues its build. The
-- limiter, the verifier, the job store and the queue of `app.state` are one state that every request
-- goes through; the clocks and the fresh id of a request are arguments.
pub mod Charging
pub mod Buildable
use Prim.Native.String.{◌++◌}
use app_generation_microserv.Base.{
  ℕ, ◌+◌, String, ◌==◌, Bool, true, false, not, ◌||◌, Option, none, some, List, [], ◌∷◌,
  if◌then◌else◌, map,
}
use app_generation_microserv.Base.Dict.{Dict}
use app_generation_microserv.Base.Json.{Value, Fields}
use app_generation_microserv.Prd.{Prd}
use app_generation_microserv.Redis.{Redis}
use app_generation_microserv.RateLimit.{
  RateLimiter, Counter, Source, check, client_identity, split, strip, is_nonempty,
}
use app_generation_microserv.Payments.Eip3009.{Libraries, TokenConfig}
use app_generation_microserv.Payments.Verifier.{
  Nonces, Facilitator, Refusal, Config, Settled, settle, Digest, dev_settle, or_empty,
}
use app_generation_microserv.Payments.Challenge.{challenge}
use app_generation_microserv.Queue.Memory.{MemoryQueue, push}
use app_generation_microserv.Jobs.{BuildJob, JobStore, create, save}
use app_generation_microserv.App.Settings.{Environment, generator_unusable, bind}
use app_generation_microserv.App.Documents.{Pydantic, model_validate}

-- the headers and the URL that the handlers read
pub record Request : Type 0 where
  pub forwarded_for : Option (List ℕ)
  pub forwarded_proto : Option (List ℕ)
  pub forwarded_host : Option (List ℕ)
  pub host : Option (List ℕ)
  pub peer : Option (List ℕ)
  pub scheme : List ℕ
  pub netloc : List ℕ
  pub path : String
  pub x_payment : Option String

abbrev pub first_part : List (List ℕ) → List ℕ
first_part [] = []
first_part (part ∷ parts) = part

-- `headers.get(name, "").split(",")[0].strip()`
abbrev pub first_hop : Option (List ℕ) → List ℕ
first_hop none = []
first_hop (some header) = strip (first_part (split header))

-- `a or b`, for texts
abbrev pub or_codes : List ℕ → List ℕ → List ℕ
or_codes [] b = b
or_codes (c ∷ s) b = c ∷ s

abbrev pub codes_of : Option (List ℕ) → List ℕ
codes_of none = []
codes_of (some s) = s

-- `spell` makes a text of code points.
unfoldable pub public_resource_url : (List ℕ → String) → Request → String
public_resource_url spell r =
    spell (or_codes (first_hop r.forwarded_proto) r.scheme)
    ++ "://"
    ++ spell (or_codes (first_hop r.forwarded_host) (or_codes (codes_of r.host) r.netloc))
    ++ r.path

pub data Verifier : Type 0 where
  x402 : Config → Verifier
  dev : Digest → Option String → Verifier
  refusing : Verifier

-- What `create_app` fixes. `message` is the text of a refusal.
pub record Service : Type 0 where
  pub limiter : RateLimiter
  pub preview_limiter : RateLimiter
  pub preview_budget : RateLimiter
  pub verifier : Verifier
  pub token : Option TokenConfig
  pub pay_to : Option String
  pub price_atomic : ℕ
  pub output_schema : Fields
  pub build_root : String
  pub message : Refusal → String
  pub spell : List ℕ → String

pub data Response : Type 0 where
  too_many : RateLimiter → ℕ → Response
  unusable : String → Response
  invalid : String → Response
  payment_required : Fields → Response
  accepted : BuildJob → Response
  -- an exception that no handler catches
  internal_error : Response

module _ (R : Redis) (L : Libraries) (N : Nonces) (F : Facilitator L) where
  open R use {State as Shared}

  -- The windows of the three limiters, what they share, the verifier's fields, the nonce store, the
  -- facilitator's world, the job store and the queue.
  pub record State : Type 0 where
    pub builds : Dict Counter
    pub preview_ips : Dict Counter
    pub preview_all : Dict Counter
    pub shared : Shared
    pub last_error : Option String
    pub last_transaction : Option Value
    pub nonces : Nonces.S N
    pub outside : Facilitator.W F
    pub jobs : JobStore
    pub queue : MemoryQueue

-- The times of a request: at the limiter, at the two readings of the clock in `settle`, and at the
-- record's creation, with the record's fresh id.
pub record Moment : Type 0 where
  pub arrived : ℕ
  pub verified : ℕ
  pub claimed : ℕ
  pub created : ℕ
  pub id : String

-- `last_error` after `DevPaymentVerifier.settle`
abbrev pub dev_error : Option String → Option String → Option Bool → Option String → Option String
dev_error secret header none old = old
dev_error secret header (some true) old = none
dev_error secret header (some false) old =
    if or_empty secret == "" || or_empty header == ""
    then some "no payment header or no secret configured"
    else some "shared secret mismatch"

abbrev pub told : (Refusal → String) → Option Refusal → Option String
told message none = none
told message (some e) = some (message e)

module _ (R : Redis) (L : Libraries) (N : Nonces) (F : Facilitator L) (P : Service) where
  abbrev pub paid_by :
      Settled (Nonces.S N) (Facilitator.W F) → State R L N F → Option Bool × State R L N F
  paid_by r st = (
    r.answer,
    record st {
      last_error = told P.message r.last_error;
      last_transaction = r.last_transaction;
      nonces = r.nonces;
      outside = r.outside;
    },
  )

  -- `verifier.settle(x_payment)`; `none` is an exception
  unfoldable pub settle_by :
      Verifier → Moment → Option String → State R L N F → Option Bool × State R L N F
  unfolding settle dev_settle
  settle_by (x402 c) m header st =
      paid_by (settle L N F c m.verified m.claimed header st.nonces st.outside) st
  settle_by (dev D secret) m header st =
      let answer = dev_settle D secret header in
      (answer, record st { last_error = dev_error secret header answer st.last_error })
  settle_by refusing m header st = (
    some false,
    record st { last_error = some "no payment method configured on this deployment" },
  )

  -- `verifier.last_transaction if isinstance(verifier, X402Verifier) else None`
  abbrev pub receipt : Verifier → State R L N F → Option Value
  receipt (x402 c) st = st.last_transaction
  receipt _ st = none

  -- what the handlers set on a record that the store has created
  unfoldable pub marked : Option Value → Bool → Bool → BuildJob → BuildJob
  marked settlement_tx paid preview job = record job {
    build_dir = some (P.build_root ++ "/" ++ job.id);
    settlement_tx = settlement_tx;
    paid = paid;
    preview = preview;
  }

  -- `request.app.state.store.save(job)`
  abbrev pub saved : BuildJob → State R L N F → State R L N F
  saved job st = record st { jobs = save job st.jobs }

  -- `request.app.state.queue.push(job_id)`
  abbrev pub pushed : String → State R L N F → State R L N F
  pushed job_id st = record st { queue = push job_id st.queue }

  -- Saved, then pushed. What other threads do between the two is not represented.
  unfoldable pub enqueued : BuildJob → State R L N F → State R L N F
  enqueued job st = pushed job.id (saved job st)

  module _ (E : Environment) (D : Pydantic) (others : State R L N F → State R L N F) where
    -- from `settle`'s answer on; `others` is what other requests do before the receipt is read
    unfoldable pub after_settle :
        Moment → Request → Prd → Option Bool × State R L N F → Response × State R L N F
    unfolding challenge public_resource_url create marked enqueued
    after_settle m r prd (none, st) = (internal_error, st)
    after_settle m r prd (some false, st) = (
      payment_required (
          challenge P.token P.pay_to (some P.price_atomic) (public_resource_url P.spell r)
            st.last_error (some P.output_schema)),
      st,
    )
    after_settle m r prd (some true, st) =
        let st' = others st in
        let (job, jobs) = create m.id m.created prd.app_name (some (D.dump prd)) st'.jobs in
        let job' = marked (receipt P.verifier st') true false job in
        (accepted job', enqueued job' (record st' { jobs = jobs }))

    unfoldable pub after_validation :
        Moment → Request → Fields → Option Prd → State R L N F → Response × State R L N F
    unfolding after_settle settle_by
    after_validation m r body none st = (invalid (D.error body), st)
    after_validation m r body (some prd) st =
        after_settle m r prd (settle_by P.verifier m r.x_payment st)

    unfoldable pub after_check :
        Moment
        → Request
        → Fields
        → Option (Option String)
        → State R L N F
        → Response × State R L N F
    unfolding after_validation model_validate
    after_check m r body none st = (internal_error, st)
    after_check m r body (some (some detail)) st = (unusable detail, st)
    after_check m r body (some none) st = after_validation m r body (model_validate D body) st

    unfoldable pub after_limit :
        Moment → Request → Fields → Option ℕ → State R L N F → Response × State R L N F
    unfolding after_check generator_unusable
    after_limit m r body (some retry_after) st = (too_many P.limiter retry_after, st)
    after_limit m r body none st = after_check m r body (generator_unusable E) st

    -- `source` is where the limiter of this request counts
    unfoldable pub create_build :
        Source R → Moment → Request → Fields → State R L N F → Response × State R L N F
    unfolding after_limit check client_identity
    create_build source m r body st =
        let (retry_after, windows, shared) =
          check R P.limiter source (P.spell (client_identity r.forwarded_for r.peer)) m.arrived
            (st.builds, st.shared) in
        after_limit m r body retry_after (record st { builds = windows; shared = shared })
