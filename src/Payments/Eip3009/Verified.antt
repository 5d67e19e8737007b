-- ===== src/Payments/Eip3009/Verified.antt =====
-- src/payments/eip3009.py: what a payment that `verify_payment` returns satisfies.
use app_generation_microserv.Base.{
  ℕ, ◌+◌, String, ◌==◌, ◌≡◌, refl, sym, ap, subst, ◌∙◌, Bool, true, false, not, Option, none, some,
  arith, eq_iff,
}
use app_generation_microserv.Base.Int.{pos, leb_ℤ, ltb_ℤ, sub_ℕ, ◌≤ℤ◌, ◌<ℤ◌}
use app_generation_microserv.Base.Json.{text, Fields, get, as_object}
use app_generation_microserv.Payments.Eip3009.{
  TokenConfig, Authorization, Address, address, Recovered, signer, not_recovered, not_encoded,
  Libraries, Invalid, misaddressed, underpaid, expired, not_valid_yet, wrong_network, Checked, ok,
  invalid, crashed, and_then, unless, required, certain, nonempty_text, or_null, is_other_network,
  from_signer, decode_header, parse_authorization, check_signature, check_terms, VerifiedPayment,
  verify_payment,
}

and_then-ok :
    {A B : Type 0} (m : Checked A) (f : A → Checked B) (b : B)
    → and_then m f ≡ ok b
    → (a : A) × (m ≡ ok a) × (f a ≡ ok b)
and_then-ok (ok a) f b h = (a, refl, h)
and_then-ok (invalid e) f b h = cc
and_then-ok crashed f b h = cc

unless-ok :
    {A : Type 0} (t : Bool) (e : Invalid) (m : Checked A) (a : A)
    → unless t e m ≡ ok a
    → (t ≡ false) × (m ≡ ok a)
unless-ok false e m a h = (refl, h)
unless-ok true e m a h = cc

required-ok : {A : Type 0} (e : Invalid) (o : Option A) (a : A) → required e o ≡ ok a → o ≡ some a
required-ok e (some b) a h = cc
required-ok e none a h = cc

certain-ok : (o : Address) (a : String) → certain o ≡ ok a → o ≡ address a
certain-ok (address b) a h = cc
certain-ok _ a h = cc

ok_injective : {A : Type 0} (a b : A) → ok a ≡ ok b → a ≡ b
ok_injective a b h = cc

module _ (L : Libraries) where
  open L use {to_checksum_address, recover}

  -- The payer's signature in the payload is over the authorization.
  pub record IsSigned (token : TokenConfig) (auth : Authorization) (payload : Fields) : Type 0 where
    pub inner : Fields
    pub signature : String
    pub inner_there : as_object (get "payload" payload) ≡ some inner
    pub signature_there : nonempty_text (get "signature" inner) ≡ some signature
    pub by_sender : recover auth token signature ≡ signer auth.sender

  -- What the service asks of a payment.
  pub record IsAcceptable (token : TokenConfig) (pay_to : String) (min_value moment clock_skew : ℕ)
      (p : VerifiedPayment L) : Type 0 where
    pub same_token : p.token ≡ token
    pub on_network : is_other_network L (or_null (get "network" p.payload)) token.network ≡ false
    pub parsed : parse_authorization L p.payload ≡ ok p.authorization
    pub to_service : to_checksum_address (text pay_to) ≡ address p.authorization.recipient
    pub paid_enough : pos min_value ≤ℤ p.authorization.value
    pub not_lapsed : sub_ℕ moment clock_skew <ℤ p.authorization.valid_before
    pub started : p.authorization.valid_after ≤ℤ pos (moment + clock_skew)
    pub signed : IsSigned token p.authorization p.payload

  from_signer-ok :
      (auth : Authorization) (r : Recovered) (a : Authorization)
      → from_signer L auth r ≡ ok a
      → (a ≡ auth) × (r ≡ signer auth.sender)
  from_signer-ok auth (signer s) a h =
      let (same, e) = unless-ok (not (s == auth.sender)) _ (ok auth) a h in
      let s≡ : s ≡ auth.sender = ground (arith, eq_iff s auth.sender, same) in
      (sym (ok_injective auth a e), ap signer s≡)
  from_signer-ok auth not_recovered a h = cc
  from_signer-ok auth not_encoded a h = cc

  check_signature-ok :
      (token : TokenConfig) (auth : Authorization) (payload : Fields) (a : Authorization)
      → check_signature L token auth payload ≡ ok a
      → (a ≡ auth) × IsSigned token auth payload
  unfolding check_signature
  check_signature-ok token auth payload a h =
      let (inner, h1, h2) = and_then-ok (required _ (as_object (get "payload" payload))) _ a h in
      let (signature, h3, h4) =
        and_then-ok (required _ (nonempty_text (get "signature" inner))) _ a h2 in
      let (same, by) = from_signer-ok auth (recover auth token signature) a h4 in
      (
        same,
        record {
          inner = inner;
          signature = signature;
          inner_there = required-ok _ _ inner h1;
          signature_there = required-ok _ _ signature h3;
          by_sender = by;
        },
      )

  -- the terms of the authorization alone
  record HasTerms (pay_to : String) (min_value moment clock_skew : ℕ) (auth : Authorization)
      : Type 0 where
    to_service : to_checksum_address (text pay_to) ≡ address auth.recipient
    paid_enough : pos min_value ≤ℤ auth.value
    not_lapsed : sub_ℕ moment clock_skew <ℤ auth.valid_before
    started : auth.valid_after ≤ℤ pos (moment + clock_skew)

  check_terms-ok :
      (token : TokenConfig) (pay_to : String) (min_value moment clock_skew : ℕ) (payload : Fields)
      (auth a : Authorization)
      → check_terms L token pay_to min_value moment clock_skew payload auth ≡ ok a
      → (a ≡ auth) × HasTerms pay_to min_value moment clock_skew auth × IsSigned token auth payload
  unfolding check_terms
  check_terms-ok token pay_to min_value moment clock_skew payload auth a h =
      let (expected, h7, h8) = and_then-ok (certain (to_checksum_address (text pay_to))) _ a h in
      go expected h7 h8
    where
      go :
          (expected : String)
          → certain (to_checksum_address (text pay_to)) ≡ ok expected
          → unless (not (auth.recipient == expected)) (misaddressed auth.recipient expected) (
              unless (ltb_ℤ auth.value (pos min_value)) (underpaid auth.value min_value) (
                unless (leb_ℤ auth.valid_before (sub_ℕ moment clock_skew)) expired (
                  unless
                    (ltb_ℤ (pos (moment + clock_skew)) auth.valid_after)
                    not_valid_yet
                    (check_signature L token auth payload))))
            ≡ ok a
          → (a ≡ auth)
            × HasTerms pay_to min_value moment clock_skew auth
            × IsSigned token auth payload
      go expected h7 h8 =
          let (rcpt, h9) =
            unless-ok (not (auth.recipient == expected)) (misaddressed auth.recipient expected) _ a
              h8 in
          let (enough, h10) =
            unless-ok (ltb_ℤ auth.value (pos min_value)) (underpaid auth.value min_value) _ a h9 in
          let (live, h11) =
            unless-ok (leb_ℤ auth.valid_before (sub_ℕ moment clock_skew)) expired _ a h10 in
          let (on, h12) =
            unless-ok (ltb_ℤ (pos (moment + clock_skew)) auth.valid_after) not_valid_yet _ a h11 in
          let (same, sg) = check_signature-ok token auth payload a h12 in
          let e : auth.recipient ≡ expected =
            ground (arith, eq_iff auth.recipient expected, rcpt) in
          (
            same,
            record {
              to_service = certain-ok _ expected h7 ∙ ap address (sym e);
              paid_enough = ground (arith, enough);
              not_lapsed = ground (arith, live);
              started = ground (arith, on);
            },
            sg,
          )

  parsed-ok :
      (header pay_to : String) (token : TokenConfig) (min_value moment clock_skew : ℕ)
      (payload : Fields) (auth a : Authorization) (p : VerifiedPayment L)
      → is_other_network L (or_null (get "network" payload)) token.network ≡ false
      → parse_authorization L payload ≡ ok auth
      → check_terms L token pay_to min_value moment clock_skew payload auth ≡ ok a
      → ◌≡◌ {A = Checked (VerifiedPayment L)}
          (ok (record { authorization = a; token = token; raw_header = header; payload = payload }))
          (ok p)
      → IsAcceptable token pay_to min_value moment clock_skew p
  parsed-ok header pay_to token min_value moment clock_skew payload auth a p net parsed h same =
      let (a≡, terms, sg) =
        check_terms-ok token pay_to min_value moment clock_skew payload auth a h in
      subst (IsAcceptable token pay_to min_value moment clock_skew) (ok_injective _ p same)
        (record {
          same_token = refl;
          on_network = net;
          parsed = parsed ∙ ap ok (sym a≡);
          to_service = (of_a a≡ terms).to_service;
          paid_enough = (of_a a≡ terms).paid_enough;
          not_lapsed = (of_a a≡ terms).not_lapsed;
          started = (of_a a≡ terms).started;
          signed = subst (λ x. IsSigned token x payload) (sym a≡) sg;
        })
    where
      of_a :
          a ≡ auth
          → HasTerms pay_to min_value moment clock_skew auth
          → HasTerms pay_to min_value moment clock_skew a
      of_a e = subst (HasTerms pay_to min_value moment clock_skew) (sym e)

  -- Every payment that is verified is for the service's network and address, pays at least the
  -- price, is valid at the moment up to the clock skew, and is signed by the payer it names.
  pub verify_payment-IsAcceptable :
      (header pay_to : String) (token : TokenConfig) (min_value moment clock_skew : ℕ)
      (p : VerifiedPayment L)
      → verify_payment L header token pay_to min_value moment clock_skew ≡ ok p
      → IsAcceptable token pay_to min_value moment clock_skew p
  unfolding verify_payment
  verify_payment-IsAcceptable header pay_to token min_value moment clock_skew p h =
      let (payload, h0, h1) = and_then-ok (decode_header L header) _ p h in go payload h1
    where
      go :
          (payload : Fields)
          → unless
              (is_other_network L (or_null (get "network" payload)) token.network)
              (wrong_network (or_null (get "network" payload)))
              (and_then (parse_authorization L payload) (λ auth.
                and_then
                  (check_terms L token pay_to min_value moment clock_skew payload auth)
                  (λ auth'. ok (record {
                    authorization = auth';
                    token = token;
                    raw_header = header;
                    payload = payload;
                  }))))
            ≡ ok p
          → IsAcceptable token pay_to min_value moment clock_skew p
      go payload h1 =
          let (net, h2) =
            unless-ok (is_other_network L (or_null (get "network" payload)) token.network) _ _ p
              h1 in
          let (auth, h3, h4) = and_then-ok (parse_authorization L payload) _ p h2 in
          let (a, h5, h6) =
            and_then-ok (check_terms L token pay_to min_value moment clock_skew payload auth) _ p
              h4 in
          parsed-ok header pay_to token min_value moment clock_skew payload auth a p net h3 h5 h6
