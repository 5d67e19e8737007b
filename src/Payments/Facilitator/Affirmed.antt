-- ===== src/Payments/Facilitator/Affirmed.antt =====
-- src/payments/facilitator.py: what stands behind a settlement that counts as paid.
use app_generation_microserv.Base.{
  ℕ, zero, suc, ◌+◌, ◌<◌, String, ◌≡◌, refl, ◌⊎◌, inl, inr, Bool, true, not, Option, none, some,
  leb, arith, Bool-cases,
}
use app_generation_microserv.Base.Json.{Value, bool, obj, Fields, get}
use app_generation_microserv.Payments.Facilitator.{
  SettlementResult, is_ok, Response, Post, answered, timeout, transport, read_success, read_body,
  read, attempt, settle_loop, settle,
}

-- The response is not an error, and its body says that the payment succeeded.
pub record Affirms (r : Response) : Type 0 where
  pub body : Fields
  pub no_error : r.status_code < 400
  pub an_object : r.json ≡ some (obj body)
  pub says_so : get "success" body ≡ some (bool true)

-- nothing that counts as paid has been kept so far
abbrev failing : Option SettlementResult → Bool
failing none = true
failing (some last) = not (is_ok last)

module _ (str : Value → String) where
  read_success-ok :
      (body : Fields) (o : Option Value)
      → is_ok (read_success str body o) ≡ true
      → o ≡ some (bool true)
  unfolding read_success
  read_success-ok body (some (bool true)) h = refl
  read_success-ok body _ h = cc

  read_body-ok :
      (r : Response) (o : Option Value)
      → r.json ≡ o
      → is_ok (read_body str r.status_code o) ≡ true
      → Affirms r
  unfolding read_body
  read_body-ok r (some (obj body)) e h = elim (Bool-cases (leb 400 r.status_code)) [
    | inl bad ↦ absurd (ground (arith, bad, h))
    | inr good ↦ record {
      body = body;
      no_error = ground (arith, good);
      an_object = e;
      says_so = read_success-ok body (get "success" body) (rw good at h);
    }
  ]
  read_body-ok r none e h = cc
  read_body-ok r (some _) e h = cc

  read-ok : (r : Response) → is_ok (read str r) ≡ true → Affirms r
  unfolding read
  read-ok r h = elim (Bool-cases (leb 500 r.status_code)) [
    | inl bad ↦ absurd (ground (arith, bad, h))
    | inr good ↦ read_body-ok r r.json refl (rw good at h)
  ]

  attempt-ok :
      (p : Post) → is_ok (attempt str p) ≡ true → (r : Response) × (p ≡ answered r) × Affirms r
  unfolding attempt
  attempt-ok (answered r) h = (r, refl, read-ok r h)
  attempt-ok (timeout exc) h = cc
  attempt-ok (transport exc) h = cc

  module _ {W : Type 0} (post : W → Post × W) where
    -- after so many posts from the first world, a response affirms
    abbrev pub Affirmed : ℕ → W → Type 0
    Affirmed zero w = ⊥
    Affirmed (suc n) w =
        ((r : Response) × ((post w).0 ≡ answered r) × Affirms r) ⊎ Affirmed n (post w).1

    settle_loop-Affirmed :
        (n : ℕ) (last : Option SettlementResult) (w : W)
        → failing last ≡ true
        → is_ok (settle_loop str post n last w).0 ≡ true
        → Affirmed n w
    unfolding settle_loop
    settle_loop-Affirmed zero none w f h = cc
    settle_loop-Affirmed zero (some last) w f h = absurd (ground (arith, f, h))
    settle_loop-Affirmed (suc n) last w f h = elim (Bool-cases (is_ok (attempt str (post w).0))) [
      | inl good ↦ inl (attempt-ok (post w).0 good)
      | inr bad ↦ elim (Bool-cases (not ((attempt str (post w).0).unknown))) [
        | inl over ↦ absurd (ground (arith, bad, over, h))
        | inr on ↦ inr (
            settle_loop-Affirmed n (some (attempt str (post w).0)) (post w).1 (ground (arith, bad))
              (ground (arith, bad, on, h)))
      ]
    ]

    -- If a settlement counts as paid, then one of its at most `retries + 1` posts was answered by
    -- a response below 400 whose body is an object with the Boolean `success` true.
    pub settle-Affirmed :
        (retries : ℕ) (w : W)
        → is_ok (settle str post retries w).0 ≡ true
        → Affirmed (retries + 1) w
    unfolding settle
    settle-Affirmed retries w h = settle_loop-Affirmed (retries + 1) none w refl h
