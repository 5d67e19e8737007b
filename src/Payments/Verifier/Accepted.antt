-- ===== src/Payments/Verifier/Accepted.antt =====
-- src/payments/x402.py: what has happened when `X402Verifier.settle` accepts a header.
use Prim.Native.Nat.{◌/◌}
use app_generation_microserv.Base.{
  ℕ, String, ◌==◌, ◌≡◌, refl, ap, sym, ◌∙◌, inl, inr, Bool, true, false, Option, none, some, second,
  arith, Bool-cases,
}
use app_generation_microserv.Base.Int.{pos_part}
use app_generation_microserv.Payments.Eip3009.{
  Libraries, Checked, ok, invalid, crashed, VerifiedPayment, verify_payment, replay_key,
}
use app_generation_microserv.Payments.Facilitator.{SettlementResult, is_ok, PrecheckResult}
use app_generation_microserv.Payments.Verifier.{
  Nonces, Facilitator, Config, Settled, conclude, after_claim, spend, after_precheck, ask,
  after_verify, settle,
}

module _ (L : Libraries) (N : Nonces) (F : Facilitator L) (c : Config) where
  open N use {S, claim}
  open F use {W, precheck, settle as submit}

  -- The payment whose nonce the call has claimed, at `later`, from the store it was given, and that
  -- the facilitator has then settled.
  pub record IsPaid (verified : Checked (VerifiedPayment L)) (later : ℕ) (n : S) (r : Settled S W)
      : Type 0 where
    pub payment : VerifiedPayment L
    pub key : String
    pub before : W
    pub is_verified : verified ≡ ok payment
    pub key_is : replay_key L payment.authorization c.token ≡ ok key
    pub claimed : (claim key (pos_part payment.authorization.valid_before) later n).0 ≡ true
    pub nonces_after :
        r.nonces ≡ (claim key (pos_part payment.authorization.valid_before) later n).1
    pub settled : is_ok (submit payment before).0 ≡ true
    pub receipt : r.last_transaction ≡ (submit payment before).0.transaction

  ok_injective : {A : Type 0} (a b : A) → ok a ≡ ok b → a ≡ b
  ok_injective a b h = cc

  -- the claim, for the payment that was verified and its key
  pub IsPaid-claim :
      (v : Checked (VerifiedPayment L)) (later : ℕ) (n : S) (r : Settled S W)
      (p : VerifiedPayment L) (key : String)
      → IsPaid v later n r
      → v ≡ ok p
      → replay_key L p.authorization c.token ≡ ok key
      → ((claim key (pos_part p.authorization.valid_before) later n).0 ≡ true)
        × (r.nonces ≡ (claim key (pos_part p.authorization.valid_before) later n).1)
  IsPaid-claim v later n r p key paid is k =
      let same : paid.payment ≡ p = ok_injective paid.payment p (sym paid.is_verified ∙ is) in
      let same_key : paid.key ≡ key = ok_injective paid.key key (
        sym paid.key_is
        ∙ ap (λ (q : VerifiedPayment L). replay_key L q.authorization c.token) same
        ∙ k) in
      let e : claim paid.key (pos_part paid.payment.authorization.valid_before) later n
          ≡ claim key (pos_part p.authorization.valid_before) later n =
        ap (λ j. claim j (pos_part paid.payment.authorization.valid_before) later n) same_key
        ∙ ap (λ (q : VerifiedPayment L). claim key (pos_part q.authorization.valid_before) later n)
            same in
      (
        sym (ap (λ (a : Bool × S). a.0) e) ∙ paid.claimed,
        paid.nonces_after ∙ ap (λ (a : Bool × S). a.1) e,
      )

  conclude-ok :
      (result : SettlementResult) (n : S) (w : W)
      → (conclude L N F c result n w).answer ≡ some true
      → (is_ok result ≡ true)
        × ((conclude L N F c result n w).last_transaction ≡ result.transaction)
        × ((conclude L N F c result n w).nonces ≡ n)
  unfolding conclude
  conclude-ok result n w h = elim (Bool-cases (is_ok result)) [
    | inl good ↦ rw good (refl, refl, refl)
    | inr bad ↦ absurd (ground (arith, bad, h))
  ]

  spend-IsPaid :
      (later : ℕ) (payment : VerifiedPayment L) (key : Checked String) (n : S) (w : W)
      → replay_key L payment.authorization c.token ≡ key
      → (spend L N F c later payment key n w).answer ≡ some true
      → IsPaid (ok payment) later n (spend L N F c later payment key n w)
  unfolding spend
  spend-IsPaid later payment (ok key) n w e h =
      go (claim key (pos_part payment.authorization.valid_before) later n) refl h
    where
      go :
          (o : Bool × S)
          → claim key (pos_part payment.authorization.valid_before) later n ≡ o
          → (after_claim L N F c payment o w).answer ≡ some true
          → IsPaid (ok payment) later n (after_claim L N F c payment o w)
      go (true, n') o h =
          let (good, receipt, kept) = conclude-ok (submit payment w).0 n' (submit payment w).1 h in
          record {
            payment = payment;
            key = key;
            before = w;
            is_verified = refl;
            key_is = e;
            claimed = ap (λ (p : Bool × S). p.0) o;
            nonces_after = kept ∙ sym (ap (λ (p : Bool × S). p.1) o);
            settled = good;
            receipt = receipt;
          }
      go (false, n') o h = cc
  spend-IsPaid later payment (invalid _) n w e h = cc
  spend-IsPaid later payment crashed n w e h = cc

  ask-IsPaid :
      (later : ℕ) (payment : VerifiedPayment L)
      (check : Option (VerifiedPayment L → W → PrecheckResult × W)) (n : S) (w : W)
      → (ask L N F c later payment check n w).answer ≡ some true
      → IsPaid (ok payment) later n (ask L N F c later payment check n w)
  unfolding ask
  ask-IsPaid later payment none n w h = spend-IsPaid later payment _ n w refl h
  ask-IsPaid later payment (some check) n w h = go (check payment w) h
    where
      go :
          (a : PrecheckResult × W)
          → (after_precheck L N F c later payment a n).answer ≡ some true
          → IsPaid (ok payment) later n (after_precheck L N F c later payment a n)
      go (advice, w') h = elim (Bool-cases advice.valid) [
        | inl good ↦ rw good (spend-IsPaid later payment _ n w' refl (rw good at h))
        | inr bad ↦ absurd (ground (arith, bad, h))
      ]

  after_verify-IsPaid :
      (later : ℕ) (v : Checked (VerifiedPayment L)) (n : S) (w : W)
      → (after_verify L N F c later v n w).answer ≡ some true
      → IsPaid v later n (after_verify L N F c later v n w)
  unfolding after_verify
  after_verify-IsPaid later (ok payment) n w h = ask-IsPaid later payment precheck n w h
  after_verify-IsPaid later (invalid e) n w h = cc
  after_verify-IsPaid later crashed n w h = cc

  -- A header that is accepted is a payment that was verified at the moment of the call, whose nonce
  -- this call claimed, and that the facilitator has settled; the receipt is the facilitator's.
  pub settle-IsPaid :
      (now later : ℕ) (header : String) (n : S) (w : W)
      → (settle L N F c now later (some header) n w).answer ≡ some true
      → IsPaid
          (verify_payment L header c.token c.pay_to c.min_value (now / second) c.clock_skew)
          later
          n
          (settle L N F c now later (some header) n w)
  unfolding settle
  settle-IsPaid now later header n w h = elim (Bool-cases (header == "")) [
    | inl empty ↦ absurd (ground (arith, empty, h))
    | inr full ↦ rw full (after_verify-IsPaid later _ n w (rw full at h))
  ]
