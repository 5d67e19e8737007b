-- ===== src/Payments/Verifier/Once.antt =====
-- src/payments/x402.py over the in-memory store of src/payments/replay.py: two calls with one key.
use Prim.Native.Nat.{◌/◌}
use app_generation_microserv.Base.{
  ℕ, ◌<◌, String, ◌≡◌, ◌≢◌, ap, sym, ◌∙◌, true, false, some, List, second,
}
use app_generation_microserv.Base.Int.{pos_part}
use app_generation_microserv.Base.Dict.{IsDict}
use app_generation_microserv.Payments.Eip3009.{
  Libraries, ok, VerifiedPayment, verify_payment, replay_key,
}
use app_generation_microserv.Payments.Replay.{NonceStore, claim}
use app_generation_microserv.Payments.Replay.Memory.{Call, claims, AllBefore, claim_once}
use app_generation_microserv.Payments.Verifier.{Nonces, Facilitator, Config, settle}
use app_generation_microserv.Payments.Verifier.Accepted.{settle-IsPaid, IsPaid-claim}

abbrev pub memory_nonces : Nonces
memory_nonces = record {
  S = NonceStore;
  claim = λ key expires_at now n. claim key expires_at now n;
}

module _ (L : Libraries) (F : Facilitator L) (c : Config) where
  open F use {W}

  -- After a payment was accepted, no header whose payment has the same replay key is accepted before
  -- the first authorization's expiry, whatever other claims were made in between, whether by this
  -- verifier or another on the same store, and whichever facilitator state it finds.
  pub settle_once :
      (first later now later' : ℕ) (header header' : String) (n : NonceStore) (w w' : W)
      (p p' : VerifiedPayment L) (key : String) (between : List Call)
      → IsDict n
      → verify_payment L header c.token c.pay_to c.min_value (first / second) c.clock_skew ≡ ok p
      → replay_key L p.authorization c.token ≡ ok key
      → (settle L memory_nonces F c first later (some header) n w).answer ≡ some true
      → verify_payment L header' c.token c.pay_to c.min_value (now / second) c.clock_skew ≡ ok p'
      → replay_key L p'.authorization c.token ≡ ok key
      → AllBefore (pos_part p.authorization.valid_before) between
      → later' / second < pos_part p.authorization.valid_before
      → ◌≢◌
          (settle L memory_nonces F c now later'
            (some header')
            (claims between (settle L memory_nonces F c first later (some header) n w).nonces)
            w').answer
          (some true)
  settle_once first later now later' header header' n w w' p p' key between d v k a v' k' bs before
        a' =
      let one = settle-IsPaid L memory_nonces F c first later header n w a in
      let (claimed, kept) = IsPaid-claim L memory_nonces F c _ later n _ p key one v k in
      let again =
        settle-IsPaid L memory_nonces F c now later' header'
          (claims between (settle L memory_nonces F c first later (some header) n w).nonces) w'
          a' in
      let (claimed', _) = IsPaid-claim L memory_nonces F c _ later' _ _ p' key again v' k' in
      let refused =
        claim_once key (pos_part p.authorization.valid_before)
          (pos_part p'.authorization.valid_before) later later' between n d claimed bs before in
      let e : true ≡ false =
        sym claimed'
        ∙ ap (λ m. (claim key (pos_part p'.authorization.valid_before) later' (claims between m)).0)
            kept
        ∙ refused in
      cc
