-- ===== src/Payments/Facilitator.antt =====
-- src/payments/facilitator.py: the client of an x402 facilitator. The HTTP client is a parameter:
-- a post answers, times out or fails in another way that httpx names, with the text of the exception.
pub mod Affirmed
use Prim.Native.String.{◌++◌}
use app_generation_microserv.Base.{
  ℕ, zero, suc, ◌+◌, String, ◌==◌, Bool, true, false, not, ◌&&◌, ◌||◌, Option, none, some,
  if◌then◌else◌, eqb, leb, ltb,
}
use app_generation_microserv.Base.Int.{ℤ, pos, negsuc}
use app_generation_microserv.Base.Json.{
  Value, null, bool, num, real, text, arr, obj, Items, nil, cons, Fields, end, field, get,
}
use app_generation_microserv.Base.Text.{decimal}
use app_generation_microserv.Payments.Eip3009.{or_null}

pub record SettlementResult : Type 0 where
  pub settled : Bool
  pub unknown : Bool
  pub transaction : Option Value
  pub reason : Option String

-- the property `ok`
abbrev pub is_ok : SettlementResult → Bool
is_ok r = r.settled && not r.unknown

pub record PrecheckResult : Type 0 where
  pub valid : Bool
  pub unknown : Bool
  pub reason : Option String

-- `response.json()` is `none` where it raises `ValueError`
pub record Response : Type 0 where
  pub status_code : ℕ
  pub json : Option Value

pub data Post : Type 0 where
  answered : Response → Post
  timeout : String → Post
  transport : String → Post

-- Python's truth of a JSON value
abbrev pub is_truthy : Value → Bool
is_truthy null = false
is_truthy (bool b) = b
is_truthy (num (pos n)) = not (eqb n 0)
is_truthy (num (negsuc n)) = true
is_truthy (real r) = not (r == "0.0" || r == "-0.0")
is_truthy (text s) = not (s == "")
is_truthy (arr nil) = false
is_truthy (arr (cons _ _)) = true
is_truthy (obj end) = false
is_truthy (obj (field _ _ _)) = true

-- `a or b`
abbrev pub or_else : Option Value → Option Value → Option Value
or_else a b = if is_truthy (or_null a) then a else b

abbrev pub unknown_for : String → SettlementResult
unknown_for reason = record {
  settled = false;
  unknown = true;
  transaction = none;
  reason = some reason;
}

abbrev pub refused_for : String → SettlementResult
refused_for reason = record {
  settled = false;
  unknown = false;
  transaction = none;
  reason = some reason;
}

-- `str(a or default)`, and what a body says of its success
module _ (str : Value → String) where
  abbrev pub text_or : Option Value → String → String
  text_or a default = if is_truthy (or_null a) then str (or_null a) else default

  unfoldable pub read_success : Fields → Option Value → SettlementResult
  read_success body (some (bool true)) = record {
    settled = true;
    unknown = false;
    transaction = or_else (get "transaction" body) (get "txHash" body);
    reason = none;
  }
  read_success body (some (bool false)) =
      refused_for (text_or (get "errorReason" body) "facilitator refused")
  read_success body _ = unknown_for "response did not state success either way"

  unfoldable pub read_body : ℕ → Option Value → SettlementResult
  unfolding read_success
  read_body status none = unknown_for ("unreadable response (" ++ decimal status ++ ")")
  read_body status (some (obj body)) =
      if leb 400 status
      then refused_for (
          text_or (or_else (get "errorReason" body) (get "error" body))
            ("facilitator " ++ decimal status))
      else read_success body (get "success" body)
  read_body status (some _) = unknown_for "response was not an object"

  -- `_read`
  unfoldable pub read : Response → SettlementResult
  unfolding read_body
  read r =
      if leb 500 r.status_code
      then unknown_for ("facilitator " ++ decimal r.status_code)
      else read_body r.status_code r.json

  unfoldable pub read_validity : Fields → Option Value → PrecheckResult
  read_validity body (some (bool true)) = record { valid = true; unknown = false; reason = none }
  read_validity body (some (bool false)) = record {
    valid = false;
    unknown = false;
    reason = some (text_or (get "invalidReason" body) "facilitator refused");
  }
  read_validity body _ = record {
    valid = false;
    unknown = true;
    reason = some "response did not state validity";
  }

  abbrev pub cannot_tell : String → PrecheckResult
  cannot_tell reason = record { valid = false; unknown = true; reason = some reason }

  unfoldable pub precheck_body : Option Value → PrecheckResult
  unfolding read_validity
  precheck_body none = cannot_tell "unreadable response"
  precheck_body (some (obj body)) = read_validity body (get "isValid" body)
  precheck_body (some _) = cannot_tell "response was not an object"

  -- `precheck`, from the outcome of the post to /verify
  unfoldable pub precheck : Post → PrecheckResult
  unfolding precheck_body
  precheck (timeout exc) = cannot_tell ("transport: " ++ exc)
  precheck (transport exc) = cannot_tell ("transport: " ++ exc)
  precheck (answered r) =
      if leb 400 r.status_code
      then cannot_tell ("facilitator " ++ decimal r.status_code)
      else precheck_body r.json

  -- a post's result, and whether the loop returns it
  unfoldable pub attempt : Post → SettlementResult
  unfolding read
  attempt (timeout exc) = unknown_for ("timeout: " ++ exc)
  attempt (transport exc) = unknown_for ("transport: " ++ exc)
  attempt (answered r) = read r

  -- `for attempt in range(n)`; the client and the outside are `post` and `W`
  unfoldable pub settle_loop :
      {W : Type 0} → (W → Post × W) → ℕ → Option SettlementResult → W → SettlementResult × W
  unfolding attempt
  settle_loop post zero none w = (unknown_for "no attempt completed", w)
  settle_loop post zero (some last) w = (last, w)
  settle_loop post (suc n) last w =
      let (p, w') = post w in
      let rest = settle_loop post n (some (attempt p)) w' in
      if is_ok (attempt p) || not ((attempt p).unknown) then (attempt p, w') else rest

  unfoldable pub settle : {W : Type 0} → (W → Post × W) → ℕ → W → SettlementResult × W
  unfolding settle_loop
  settle post retries w = settle_loop post (retries + 1) none w
