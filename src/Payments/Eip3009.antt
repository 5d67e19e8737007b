-- ===== src/Payments/Eip3009.antt =====
-- src/payments/eip3009.py: the check of a payment header. What the code calls in Python and in
-- eth_utils and eth_account is a field of `Libraries`; `recover` is `encode_typed_data` and
-- `Account.recover_message` on the typed data of an authorization and a token. The message of a
-- `PaymentInvalid` is a constructor of `Invalid` with the values that the text names.
pub mod Verified
use Prim.Native.String.{◌++◌}
use app_generation_microserv.Base.{
  ℕ, ◌+◌, String, ◌==◌, Bool, true, false, not, ◌&&◌, Option, none, some, List, [], ◌∷◌,
  if◌then◌else◌, eqb, length,
}
use app_generation_microserv.Base.Int.{ℤ, pos, negsuc, leb_ℤ, ltb_ℤ, sub_ℕ}
use app_generation_microserv.Base.Json.{
  Value, null, bool, num, real, text, arr, obj, Fields, get, as_object,
}
use app_generation_microserv.Base.Text.{codes, starts_with, decimal}

pub record TokenConfig : Type 0 where
  pub chain_id : ℕ
  pub verifying_contract : String
  pub domain_name : String
  pub domain_version : String
  pub network : String
  pub asset_decimals : ℕ

pub record Authorization : Type 0 where
  pub sender : String
  pub recipient : String
  pub value : ℤ
  pub valid_after : ℤ
  pub valid_before : ℤ
  pub nonce : List ℕ

-- `to_checksum_address`: the address, a `ValueError`, or another exception
pub data Address : Type 0 where
  address : String → Address
  value_error : Address
  other_error : Address

-- `recover_signer`: the signer, an exception from the recovery, or one from the encoding, which is
-- not under the `try`
pub data Recovered : Type 0 where
  signer : String → Recovered
  not_recovered : Recovered
  not_encoded : Recovered

pub record Libraries : Type 0 where
  pub strip : String → String
  -- `base64.b64decode(text, validate=True).decode("utf-8")`
  pub b64decode : String → Option String
  -- `json.loads`
  pub loads : String → Option Value
  -- `str(value)`
  pub str : Value → String
  -- `int(text)`, and `int(text, 0)`
  pub int_of : String → Option ℤ
  pub int_of_prefixed : String → Option ℤ
  -- `bytes.fromhex(text.removeprefix("0x"))`, and `.hex()`
  pub fromhex : String → Option (List ℕ)
  pub hex : List ℕ → String
  pub to_checksum_address : Value → Address
  pub recover : Authorization → TokenConfig → String → Recovered

pub data Invalid : Type 0 where
  empty_header not_base64 not_json not_an_object : Invalid
  wrong_network : Value → Invalid
  unsupported_version unsupported_scheme : Option Value → Invalid
  payload_missing authorization_missing addresses_invalid : Invalid
  not_an_integer : String → Invalid
  nonce_not_hex : Invalid
  nonce_length : ℕ → Invalid
  misaddressed : String → String → Invalid
  underpaid : ℤ → ℕ → Invalid
  expired not_valid_yet signature_missing not_recoverable : Invalid
  wrong_signer : String → String → Invalid

-- A call returns, raises `PaymentInvalid`, or raises something else.
pub data Checked (A : Type 0) : Type 0 where
  ok : A → Checked A
  invalid : Invalid → Checked A
  crashed : Checked A

abbrev pub and_then : {A B : Type 0} → Checked A → (A → Checked B) → Checked B
and_then (ok a) f = f a
and_then (invalid e) f = invalid e
and_then crashed f = crashed

abbrev pub unless : {A : Type 0} → Bool → Invalid → Checked A → Checked A
unless true e r = invalid e
unless false e r = r

abbrev pub required : {A : Type 0} → Invalid → Option A → Checked A
required e none = invalid e
required e (some a) = ok a

-- `x != X402_VERSION`, where Python's `True` and `1.0` equal `1`
abbrev pub is_version : Option Value → Bool
is_version (some (num (pos n))) = eqb n 1
is_version (some (bool b)) = b
is_version (some (real r)) = r == "1.0"
is_version _ = false

abbrev pub is_text : String → Option Value → Bool
is_text s (some (text t)) = s == t
is_text s _ = false

abbrev pub or_null : Option Value → Value
or_null none = null
or_null (some v) = v

abbrev pub or_zero : Option Value → Value
or_zero none = num (pos 0)
or_zero (some v) = v

abbrev pub is_null : Value → Bool
is_null null = true
is_null _ = false

abbrev pub nonempty_text : Option Value → Option String
nonempty_text (some (text s)) = if s == "" then none else some s
nonempty_text _ = none

abbrev pub checksummed : Address → Checked String
checksummed (address a) = ok a
checksummed value_error = invalid addresses_invalid
checksummed other_error = crashed

-- outside the `try` of `parse_authorization`
abbrev pub certain : Address → Checked String
certain (address a) = ok a
certain _ = crashed

module _ (L : Libraries) where
  open L use {
    strip, b64decode, loads, str, int_of, int_of_prefixed, fromhex, hex, to_checksum_address,
    recover,
  }

  unfoldable pub decode_text : String → Checked Fields
  decode_text t =
      and_then (required not_json (loads t)) (λ v. required not_an_object (as_object (some v)))

  unfoldable pub decode_header : String → Checked Fields
  unfolding decode_text
  decode_header header_value =
      let t = strip header_value in
      if t == ""
      then invalid empty_header
      else if starts_with (codes "{") (codes t)
      then decode_text t
      else and_then (required not_base64 (b64decode t)) decode_text

  unfoldable pub as_int : Value → String → Checked ℤ
  as_int value field = required (not_an_integer field) (
      if starts_with (codes "0x") (codes (str value))
      then int_of_prefixed (str value)
      else int_of (str value))

  unfoldable pub as_nonce : Value → Checked (List ℕ)
  as_nonce value =
      and_then (required nonce_not_hex (fromhex (str value)))
        (λ raw. unless (not (eqb (length raw) 32)) (nonce_length (length raw)) (ok raw))

  -- the addresses come first, then the numbers and the nonce in the order of the fields
  unfoldable pub read_authorization : Fields → Checked Authorization
  unfolding as_int as_nonce
  read_authorization auth = and_then (required addresses_invalid (get "from" auth)) (λ from.
      and_then (checksummed (to_checksum_address from)) (λ sender.
        and_then (required addresses_invalid (get "to" auth)) (λ to.
          and_then (checksummed (to_checksum_address to)) (λ recipient.
            and_then (as_int (or_null (get "value" auth)) "value") (λ value.
              and_then (as_int (or_zero (get "validAfter" auth)) "validAfter") (λ valid_after.
                and_then (as_int (or_null (get "validBefore" auth)) "validBefore") (λ valid_before.
                  and_then (as_nonce (or_null (get "nonce" auth))) (λ nonce. ok (record {
                    sender = sender;
                    recipient = recipient;
                    value = value;
                    valid_after = valid_after;
                    valid_before = valid_before;
                    nonce = nonce;
                  })))))))))

  unfoldable pub parse_authorization : Fields → Checked Authorization
  unfolding read_authorization
  parse_authorization payload =
      unless (not (is_version (get "x402Version" payload)))
        (unsupported_version (get "x402Version" payload))
        (unless (not (is_text "exact" (get "scheme" payload)))
          (unsupported_scheme (get "scheme" payload))
          (and_then (required payload_missing (as_object (get "payload" payload))) (λ inner.
            and_then (required authorization_missing (as_object (get "authorization" inner)))
              read_authorization)))

  unfoldable pub replay_key : Authorization → TokenConfig → Checked String
  replay_key auth token =
      and_then (certain (to_checksum_address (text token.verifying_contract))) (λ contract.
        and_then (certain (to_checksum_address (text auth.sender))) (λ sender.
          ok (
            decimal token.chain_id ++ ":" ++ contract ++ ":" ++ sender ++ ":0x" ++ hex auth.nonce)))

  -- `network is not None and network != token.network`
  abbrev pub is_other_network : Value → String → Bool
  is_other_network network expected = not (is_null network) && not (is_text expected (some network))

  abbrev pub from_signer : Authorization → Recovered → Checked Authorization
  from_signer auth (signer s) =
      unless (not (s == auth.sender)) (wrong_signer s auth.sender) (ok auth)
  from_signer auth not_recovered = invalid not_recoverable
  from_signer auth not_encoded = crashed

  unfoldable pub check_signature : TokenConfig → Authorization → Fields → Checked Authorization
  check_signature token auth payload =
      and_then (required payload_missing (as_object (get "payload" payload))) (λ inner.
        and_then (required signature_missing (nonempty_text (get "signature" inner)))
          (λ signature. from_signer auth (recover auth token signature)))

  unfoldable pub check_terms :
      TokenConfig → String → ℕ → ℕ → ℕ → Fields → Authorization → Checked Authorization
  unfolding check_signature
  check_terms token pay_to min_value moment clock_skew payload auth =
      and_then (certain (to_checksum_address (text pay_to))) (λ expected.
        unless (not (auth.recipient == expected)) (misaddressed auth.recipient expected) (
          unless (ltb_ℤ auth.value (pos min_value)) (underpaid auth.value min_value) (
            unless (leb_ℤ auth.valid_before (sub_ℕ moment clock_skew)) expired (
              unless (ltb_ℤ (pos (moment + clock_skew)) auth.valid_after) not_valid_yet
                (check_signature token auth payload)))))

  pub record VerifiedPayment : Type 0 where
    pub authorization : Authorization
    pub token : TokenConfig
    pub raw_header : String
    pub payload : Fields

  unfoldable pub verify_payment :
      String → TokenConfig → String → ℕ → ℕ → ℕ → Checked VerifiedPayment
  unfolding decode_header parse_authorization check_terms
  verify_payment header_value token pay_to min_value moment clock_skew =
      and_then (decode_header header_value) (λ payload.
        unless (is_other_network (or_null (get "network" payload)) token.network)
          (wrong_network (or_null (get "network" payload)))
          (and_then (parse_authorization payload) (λ auth.
            and_then (check_terms token pay_to min_value moment clock_skew payload auth) (λ auth'.
              ok (record {
                authorization = auth';
                token = token;
                raw_header = header_value;
                payload = payload;
              })))))
