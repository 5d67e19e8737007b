-- ===== src/Payments/Verifier/Again.antt =====
-- src/payments/x402.py over the in-memory store of src/payments/replay.py: a payment that is accepted
-- again after its expiry.
use app_generation_microserv.Base.{ℕ, String, ◌≡◌}
use app_generation_microserv.Base.Int.{pos_part}
use app_generation_microserv.Payments.Eip3009.{Libraries, Checked, ok, VerifiedPayment}
use app_generation_microserv.Payments.Replay.{claim}
use app_generation_microserv.Payments.Verifier.{Nonces, Facilitator, Config, settle}

-- Two stores that answer one claim alike get one answer out of the verifier.
module _ (L : Libraries) (N : Nonces) (F : Facilitator L) (c : Config) where
  open N use {S, claim as claim_in}
  open F use {W, precheck, settle as submit}

  module _ (later : ℕ) (p : VerifiedPayment L) (n n' : S) where
    abbrev AnswersAlike : Checked String → Type 0
    AnswersAlike k =
        (key : String)
        → k ≡ ok key
        → (claim_in key (pos_part p.authorization.valid_before) later n).0
          ≡ (claim_in key (pos_part p.authorization.valid_before) later n').0
