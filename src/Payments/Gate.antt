-- ===== src/Payments/Gate.antt =====
-- src/payments/x402.py: `is_verified` and `require_verified`, the gate before packaging.
use app_generation_microserv.Base.{◌≡◌, refl, ◌⊎◌, inl, inr, Bool, true, false, Option, none, some}
use app_generation_microserv.Base.Json.{Value, Fields, bool, obj, get}

abbrev pub is_true : Value → Bool
is_true (bool true) = true
is_true _ = false

-- `payload.get("x402_payment_verified", False) is True`
abbrev pub flag_of : Option Value → Bool
flag_of none = false
flag_of (some v) = is_true v

unfoldable pub is_verified : Value → Bool
is_verified (obj fs) = flag_of (get "x402_payment_verified" fs)
is_verified v = is_true v

-- Only the Boolean True opens the gate, by itself or as the field of an object.
pub is_verified_only :
    (v : Value)
    → is_verified v ≡ true
    → (v ≡ bool true)
      ⊎ ((fs : Fields) × (v ≡ obj fs) × (get "x402_payment_verified" fs ≡ some (bool true)))
unfolding is_verified
is_verified_only (bool true) h = inl refl
is_verified_only (obj fs) h = inr (fs, refl, opened (get "x402_payment_verified" fs) h)
  where
    opened : (o : Option Value) → flag_of o ≡ true → o ≡ some (bool true)
    opened (some (bool true)) e = refl
    opened none e = cc
    opened (some _) e = cc
is_verified_only _ h = cc
