-- ===== src/Payments/Verifier.antt =====
-- src/payments/x402.py: `X402Verifier`, `UnsettledFacilitator` and `DevPaymentVerifier`. The nonce
-- store and the facilitator enter as the records `Nonces` and `Facilitator`; src/payments/replay.py
-- and facilitator.py implement them. The clock is read twice: by `verify_payment`, in seconds, and
-- by the nonce store.
pub mod Accepted
pub mod Once
pub mod Again
use Prim.Native.Nat.{◌/◌}
use app_generation_microserv.Base.{
  ℕ, String, ◌==◌, Bool, true, false, not, ◌&&◌, ◌||◌, Option, none, some, List, [], ◌∷◌,
  if◌then◌else◌, second,
}
use app_generation_microserv.Base.Int.{ℤ, pos_part}
use app_generation_microserv.Base.Json.{Value}
use app_generation_microserv.Payments.Eip3009.{
  Libraries, TokenConfig, Authorization, Invalid, Checked, ok, invalid, crashed, VerifiedPayment,
  verify_payment, replay_key,
}
use app_generation_microserv.Payments.Facilitator.{SettlementResult, is_ok, PrecheckResult}

-- `NonceStore.claim(key, expires_at)` at a time. An expiry below zero is 0 here: both have passed.
pub record Nonces : Type 1 where
  pub S : Type 0
  pub claim : String → ℕ → ℕ → S → Bool × S

module _ (L : Libraries) where
  -- A facilitator without the method `precheck` has `none`.
  pub record Facilitator : Type 1 where
    pub W : Type 0
    pub precheck : Option (VerifiedPayment L → W → PrecheckResult × W)
    pub settle : VerifiedPayment L → W → SettlementResult × W

  -- `UnsettledFacilitator`, whose state is `pending`
  unfoldable pub unsettled_facilitator : Facilitator
  unsettled_facilitator = record {
    W = List (VerifiedPayment L);
    precheck = some (λ payment w. (record { valid = true; unknown = false; reason = none }, w));
    settle = λ payment w. (
      record {
        settled = true;
        unknown = false;
        transaction = none;
        reason = some "verification-only: not submitted on-chain";
      },
      mathlib.Core.List.◌++◌ w (payment ∷ []),
    );
  }

-- `last_error`
pub data Refusal : Type 0 where
  no_header : Refusal
  bad_payment : Invalid → Refusal
  not_confirmed unreachable : Option String → Refusal
  already_used : Refusal
  outcome_unknown not_settled : Option String → Refusal

pub record Config : Type 0 where
  pub token : TokenConfig
  pub pay_to : String
  pub min_value : ℕ
  pub clock_skew : ℕ

-- What a call of `settle` leaves: its answer, or an exception (`none`), the verifier's fields, and
-- the states of the store and the facilitator.
pub record Settled (S W : Type 0) : Type 0 where
  pub answer : Option Bool
  pub last_error : Option Refusal
  pub last_transaction : Option Value
  pub last_settlement : Option SettlementResult
  pub nonces : S
  pub outside : W

module _ (L : Libraries) (N : Nonces) (F : Facilitator L) (c : Config) where
  open N use {S, claim}
  open F use {W, precheck, settle as submit}

  abbrev pub refuse : Refusal → S → W → Settled S W
  refuse e n w = record {
    answer = some false;
    last_error = some e;
    last_transaction = none;
    last_settlement = none;
    nonces = n;
    outside = w;
  }

  abbrev pub raise : S → W → Settled S W
  raise n w = record {
    answer = none;
    last_error = none;
    last_transaction = none;
    last_settlement = none;
    nonces = n;
    outside = w;
  }

  -- from the facilitator's result on
  unfoldable pub conclude : SettlementResult → S → W → Settled S W
  conclude result n w =
      if is_ok result
      then record {
        answer = some true;
        last_error = none;
        last_transaction = result.transaction;
        last_settlement = some result;
        nonces = n;
        outside = w;
      }
      else record {
        answer = some false;
        last_error =
            some
              (if result.unknown then outcome_unknown result.reason else not_settled result.reason);
        last_transaction = none;
        last_settlement = some result;
        nonces = n;
        outside = w;
      }

  -- from the claim's answer on
  unfoldable pub after_claim : VerifiedPayment L → Bool × S → W → Settled S W
  unfolding conclude
  after_claim payment (false, n) w = refuse already_used n w
  after_claim payment (true, n) w = let (result, w') = submit payment w in conclude result n w'

  unfoldable pub spend : ℕ → VerifiedPayment L → Checked String → S → W → Settled S W
  unfolding after_claim
  spend later payment (ok key) n w =
      after_claim payment (claim key (pos_part payment.authorization.valid_before) later n) w
  spend later payment (invalid _) n w = raise n w
  spend later payment crashed n w = raise n w

  unfoldable pub after_precheck : ℕ → VerifiedPayment L → PrecheckResult × W → S → Settled S W
  unfolding spend
  after_precheck later payment (advice, w) n =
      if advice.valid
      then spend later payment (replay_key L payment.authorization c.token) n w
      else refuse
          (if advice.unknown then unreachable advice.reason else not_confirmed advice.reason) n w

  unfoldable pub ask :
      ℕ
      → VerifiedPayment L
      → Option (VerifiedPayment L → W → PrecheckResult × W)
      → S
      → W
      → Settled S W
  unfolding after_precheck
  ask later payment none n w = spend later payment (replay_key L payment.authorization c.token) n w
  ask later payment (some check) n w = after_precheck later payment (check payment w) n

  unfoldable pub after_verify : ℕ → Checked (VerifiedPayment L) → S → W → Settled S W
  unfolding ask
  after_verify later (ok payment) n w = ask later payment precheck n w
  after_verify later (invalid e) n w = refuse (bad_payment e) n w
  after_verify later crashed n w = raise n w

  -- `settle`, at `now`; the claim comes at `later`
  unfoldable pub settle : ℕ → ℕ → Option String → S → W → Settled S W
  unfolding after_verify
  settle now later none n w = refuse no_header n w
  settle now later (some header) n w =
      if header == ""
      then refuse no_header n w
      else after_verify later
          (verify_payment L header c.token c.pay_to c.min_value (now / second) c.clock_skew) n w

-- `secrets.compare_digest`, which raises on texts that are not ASCII; that is `none`.
pub record Digest : Type 0 where
  pub compare_digest : String → String → Option Bool

abbrev pub or_empty : Option String → String
or_empty none = ""
or_empty (some s) = s

-- `DevPaymentVerifier.settle`: its answer
unfoldable pub dev_settle : Digest → Option String → Option String → Option Bool
dev_settle D secret header =
    if or_empty secret == "" || or_empty header == ""
    then some false
    else D.compare_digest (or_empty header) (or_empty secret)
