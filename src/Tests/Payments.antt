-- ===== src/Tests/Payments.antt =====
-- A payment, nonce stores and a facilitator, on which the theorems of Payments hold.
use app_generation_microserv.Base.{
  ℕ, ◌+◌, String, ◌==◌, ◌≡◌, ◌≢◌, refl, true, false, Option, none, some, List, [], ◌∷◌, arith,
  if◌then◌else◌, eqb,
}
use app_generation_microserv.Base.Int.{ℤ, pos}
use app_generation_microserv.Base.Text.{decimal}
use app_generation_microserv.Base.Json.{Value, num, text, bool, obj, Fields, end, field}
use app_generation_microserv.Payments.Eip3009.{
  TokenConfig, Address, address, other_error, signer, Libraries, ok, VerifiedPayment, decode_text,
  decode_header, as_int, as_nonce, read_authorization, parse_authorization, replay_key,
  check_signature, check_terms, verify_payment,
}
use app_generation_microserv.Payments.Eip3009.Verified.{IsAcceptable, verify_payment-IsAcceptable}
use app_generation_microserv.Payments.Facilitator.{
  Response, Post, answered, timeout, settle_loop, attempt, read, read_body, read_success,
  settle as submit,
}
use app_generation_microserv.Payments.Facilitator.Affirmed.{Affirmed, settle-Affirmed}
use app_generation_microserv.Payments.Replay.{
  evict_expired, claim, RedisNonceStore, answers, raises, sent, remaining, claim_shared,
}
use app_generation_microserv.Payments.Replay.Memory.{Call, claims}
use app_generation_microserv.Payments.Replay.Shared.{SharedCall, shared_claims, claim_shared_once}
use app_generation_microserv.Payments.Verifier.{
  Facilitator, Config, conclude, after_claim, spend, ask, after_verify, settle,
}
use app_generation_microserv.Payments.Verifier.Accepted.{IsPaid, settle-IsPaid}
use app_generation_microserv.Payments.Verifier.Once.{memory_nonces, settle_once}
use app_generation_microserv.Tests.FakeRedis.{fake, empty_server}

-- "other" is claimed in between; the clock is at 10 to 12 seconds
abbrev between : List Call
between = record { key = "other"; expires_at = 30; now = 11000000 } ∷ []

abbrev shared_store : RedisNonceStore
shared_store = record { key_prefix = "x402:nonce:"; grace = 60 }

abbrev shared_between : List (SharedCall fake shared_store)
shared_between =
    record { line = raises true; key = "other"; expires_at = 30; now = 11000000 }
    ∷ record { line = raises false; key = "key"; expires_at = 20; now = 11000000 }
    ∷ []

claim_shared_once_example :
    (claim_shared fake shared_store answers "key" 20 12000000 (
      shared_claims fake shared_store shared_between
        (claim_shared fake shared_store answers "key" 20 10000000 empty_server).1)).0
    ≡ false
unfolding claim_shared sent remaining
claim_shared_once_example =
    claim_shared_once fake shared_store answers answers "key" 20 20 10000000 12000000 shared_between
      empty_server (omega arith) refl (omega arith, (omega arith, omega arith)) (omega arith)

abbrev affirmed : Response
affirmed = record {
  status_code = 200;
  json = some (obj (field "success" (bool true) (field "transaction" (text "0x1") end)));
}

-- the first post times out, and the second is answered
abbrev second_time : ℕ → Post × ℕ
second_time w = (if eqb w 0 then timeout "slow" else answered affirmed, w + 1)

abbrev any_text : Value → String
any_text v = "text"

settle-Affirmed_example : Affirmed any_text second_time 3 0
unfolding submit settle_loop attempt read read_body read_success
settle-Affirmed_example = settle-Affirmed any_text second_time 2 0 refl

abbrev pub zeros : List ℕ
zeros =
    0 ∷ 0 ∷ 0 ∷ 0 ∷ 0 ∷ 0 ∷ 0 ∷ 0 ∷ 0 ∷ 0 ∷ 0 ∷ 0 ∷ 0 ∷ 0 ∷ 0 ∷ 0 ∷ 0 ∷ 0 ∷ 0 ∷ 0 ∷ 0 ∷ 0 ∷ 0 ∷ 0
    ∷ 0 ∷ 0 ∷ 0 ∷ 0 ∷ 0 ∷ 0 ∷ 0 ∷ 0 ∷ []

abbrev pub payload : Fields
payload = field "x402Version" (num (pos 1)) (
    field "scheme" (text "exact") (
      field "network" (text "base-sepolia") (
        field "payload"
          (obj (
            field "signature" (text "0xsigned") (
              field "authorization"
                (obj (
                  field "from" (text "payer") (
                    field "to" (text "seller") (
                      field "value" (text "500000")
                        (field "validBefore" (text "100") (field "nonce" (text "00") end))))))
                end)))
          end)))

abbrev pub text_of : Value → String
text_of (text s) = s
text_of _ = "0"

abbrev pub number_of : String → Option ℤ
number_of s =
    if s == "500000" then some (pos 500000) else if s == "100" then some (pos 100) else some (pos 0)

abbrev pub address_of : Value → Address
address_of (text s) = address s
address_of _ = other_error

abbrev pub libraries : Libraries
libraries = record {
  strip = λ s. s;
  b64decode = λ s. none;
  loads = λ s. some (obj payload);
  str = text_of;
  int_of = number_of;
  int_of_prefixed = λ s. none;
  fromhex = λ s. some zeros;
  hex = λ b. "00";
  to_checksum_address = address_of;
  recover = λ auth token signature. signer "payer";
}

abbrev pub token : TokenConfig
token = record {
  chain_id = 84532;
  verifying_contract = "contract";
  domain_name = "USDC";
  domain_version = "2";
  network = "base-sepolia";
  asset_decimals = 6;
}

abbrev pub config : Config
config = record { token = token; pay_to = "seller"; min_value = 500000; clock_skew = 0 }

abbrev payment : VerifiedPayment libraries
payment = record {
  authorization = record {
    sender = "payer";
    recipient = "seller";
    value = pos 500000;
    valid_after = pos 0;
    valid_before = pos 100;
    nonce = zeros;
  };
  token = token;
  raw_header = "{}";
  payload = payload;
}

verified : verify_payment libraries "{}" token "seller" 500000 10 0 ≡ ok payment
unfolding verify_payment decode_header decode_text parse_authorization read_authorization as_int
    as_nonce check_terms check_signature
verified = refl

verified_later : verify_payment libraries "{}" token "seller" 500000 12 0 ≡ ok payment
unfolding verify_payment decode_header decode_text parse_authorization read_authorization as_int
    as_nonce check_terms check_signature
verified_later = refl

abbrev key : String
key = "84532:contract:payer:0x00"

keyed : replay_key libraries payment.authorization token ≡ ok key
unfolding replay_key decimal
keyed = refl

verify_payment-IsAcceptable_example : IsAcceptable libraries token "seller" 500000 10 0 payment
verify_payment-IsAcceptable_example =
    verify_payment-IsAcceptable libraries "{}" "seller" token 500000 10 0 payment verified

abbrev pub facilitator : Facilitator libraries
facilitator = record {
  W = ℕ;
  precheck = none;
  settle = λ payment w. (
    record { settled = true; unknown = false; transaction = some (text "0x1"); reason = none },
    w + 1,
  );
}

accepted :
    (settle libraries memory_nonces facilitator config 10000000 10000000 (some "{}") [] 0).answer
    ≡ some true
unfolding settle after_verify ask spend after_claim conclude claim evict_expired replay_key
    verify_payment decode_header decode_text parse_authorization read_authorization as_int as_nonce
    check_terms check_signature
accepted = refl

settle-IsPaid_example :
    IsPaid libraries memory_nonces facilitator config
      (verify_payment libraries "{}" token "seller" 500000 10 0)
      10000000
      []
      (settle libraries memory_nonces facilitator config 10000000 10000000 (some "{}") [] 0)
settle-IsPaid_example =
    settle-IsPaid libraries memory_nonces facilitator config 10000000 10000000 "{}" [] 0 accepted

settle_once_example :
    ◌≢◌
      (settle libraries memory_nonces facilitator config 12000000 12000000
        (some "{}")
        (claims between
          (settle libraries memory_nonces facilitator config 10000000 10000000
            (some "{}")
            []
            0).nonces)
        1).answer
      (some true)
settle_once_example =
    settle_once libraries facilitator config 10000000 10000000 12000000 12000000 "{}" "{}" [] 0 1
      payment payment key between tt verified keyed accepted verified_later keyed (omega arith, tt)
      (omega arith)

-- A verifier with a skew of five seconds, and a payment that expires at 100 seconds.
abbrev lenient : Config
lenient = record config { clock_skew = 5 }
