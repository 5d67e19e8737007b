-- ===== src/Payments/Challenge.antt =====
-- src/payments/x402.py and facilitator.py: the documents that state the price. `human_amount` goes
-- through Python's Decimal, whose division is exact for amounts below 10 ^ 28; the digits of the
-- fraction are listed from the last one on.
pub mod Amount
use Prim.Native.String.{◌++◌}
use app_generation_microserv.Base.{
  ℕ, zero, suc, ◌+◌, ◌-◌, ◌*◌, ◌/◌, ◌%◌, ◌^◌, String, ◌==◌, Bool, true, false, Option, none, some,
  List, [], ◌∷◌, if◌then◌else◌, eqb, is_some,
}
use app_generation_microserv.Base.Int.{ℤ, pos}
use app_generation_microserv.Base.Json.{
  Value, null, num, text, arr, obj, Items, nil, cons, Fields, end, field,
}
use app_generation_microserv.Base.Text.{decimal, digit}
use app_generation_microserv.Payments.Eip3009.{TokenConfig}

-- the last `d` digits of a number
unfoldable pub low_digits : ℕ → ℕ → List ℕ
low_digits zero r = []
low_digits (suc d) r = r % 10 ∷ low_digits d (r / 10)

-- `.rstrip("0")`
unfoldable pub rstrip_zeros : List ℕ → List ℕ
rstrip_zeros [] = []
rstrip_zeros (zero ∷ ds) = rstrip_zeros ds
rstrip_zeros (suc n ∷ ds) = suc n ∷ ds

-- `.ljust(2, "0")`
unfoldable pub ljust_two : List ℕ → List ℕ
ljust_two [] = 0 ∷ 0 ∷ []
ljust_two (d ∷ []) = 0 ∷ d ∷ []
ljust_two (d ∷ e ∷ ds) = d ∷ e ∷ ds

-- The whole part, and the digits of the fraction that are shown. Without decimals Python prints no
-- point, and there is no fraction.
unfoldable pub shown : ℕ → ℕ → ℕ × List ℕ
unfolding low_digits rstrip_zeros ljust_two
shown atomic zero = (atomic, [])
shown atomic (suc d) =
    (atomic / 10 ^ suc d, ljust_two (rstrip_zeros (low_digits (suc d) (atomic % 10 ^ suc d))))

-- digits, listed from the last one on, before a text
unfoldable pub spelled : List ℕ → String → String
spelled [] acc = acc
spelled (d ∷ ds) acc = spelled ds (digit d ++ acc)

unfoldable pub with_point : String → List ℕ → String
unfolding spelled
with_point whole [] = whole
with_point whole (d ∷ ds) = whole ++ "." ++ spelled (d ∷ ds) ""

unfoldable pub human_amount : ℕ → ℕ → String
unfolding shown with_point
human_amount atomic decimals =
    let (whole, ds) = shown atomic decimals in with_point (decimal whole) ds

-- A member that is there only where the value is, and what follows it.
abbrev pub field_if : {A : Type 0} → String → (A → Value) → Option A → Fields → Fields
field_if k f none fs = fs
field_if k f (some a) fs = field k (f a) fs

abbrev pub or_null : {A : Type 0} → (A → Value) → Option A → Value
or_null f none = null
or_null f (some a) = f a

-- " ($3.00 USDC)", where price and token are known
unfoldable pub price_note : Option ℕ → Option TokenConfig → String
unfolding human_amount
price_note (some amount) (some token) =
    " ($" ++ human_amount amount token.asset_decimals ++ " USDC)"
price_note _ _ = ""

unfoldable pub domain_extra : TokenConfig → Value
domain_extra t =
    obj (field "name" (text t.domain_name) (field "version" (text t.domain_version) end))

-- `accepts`
unfoldable pub terms :
    Option TokenConfig → Option String → Option ℕ → String → Option Fields → Fields
unfolding price_note domain_extra
terms token pay_to amount resource output_schema = field "scheme" (text "exact") (
    field_if "network" (λ (t : TokenConfig). text t.network) token
      (field_if "maxAmountRequired" (λ n. text (decimal n)) amount
        (field_if "asset" (λ (t : TokenConfig). text t.verifying_contract) token
          (field_if "payTo" text pay_to (
            field "resource" (text resource) (
              field "description"
                (text ("One PRD compiled to a Flutter APK" ++ price_note amount token))
                (field "mimeType" (text "application/json") (
                  field "outputSchema" (or_null obj output_schema) (
                    field "maxTimeoutSeconds" (num (pos 300))
                      (field_if "extra" domain_extra token end))))))))))

-- `if error: body["error"] = error`
abbrev pub error_field : Option String → Fields
error_field none = end
error_field (some e) = if e == "" then end else field "error" (text e) end

unfoldable pub challenge :
    Option TokenConfig → Option String → Option ℕ → String → Option String → Option Fields → Fields
unfolding terms
challenge token pay_to amount resource error output_schema = field "x402Version" (num (pos 1)) (
    field "accepts" (arr (cons (obj (terms token pay_to amount resource output_schema)) nil))
      (field "hint" (text "retry with the X-Payment header") (error_field error)))

-- `payment_requirements`, which takes the terms out of a challenge
unfoldable pub payment_requirements : TokenConfig → String → ℕ → String → Option Fields → Fields
unfolding terms
payment_requirements token pay_to price resource output_schema =
    terms (some token) (some pay_to) (some price) resource output_schema
