-- ===== src/Payments/Challenge/Amount.antt =====
-- src/payments/x402.py: the price as it is shown, against the price that is charged.
use app_generation_microserv.Base.{
  ℕ, ◌+◌, ◌*◌, ◌^◌, ◌≤◌, ◌<◌, ◌≡◌, List, [], ◌∷◌, length, ◌⊎◌, String,
}
use Prim.Native.String.{◌++◌}
use app_generation_microserv.Payments.Challenge.{spelled}
use app_generation_microserv.Base.Text.{decimal}

-- the number that digits stand for, the last digit first
abbrev pub value : List ℕ → ℕ
value [] = 0
value (d ∷ ds) = d + 10 * value ds

-- The text is a whole part and, after a point, digits, last to first; without digits there is no
-- point.
pub record Reads (price : String) (atomic decimals : ℕ) : Type 0 where
  pub whole : ℕ
  pub digits : List ℕ
  pub printed :
      ((digits ≡ []) × (decimals ≡ 0) × (price ≡ decimal whole))
      ⊎ ((2 ≤ length digits) × (0 < decimals) × (price ≡ decimal whole ++ "." ++ spelled digits ""))
  pub exact :
      (whole * 10 ^ length digits + value digits) * 10 ^ decimals ≡ atomic * 10 ^ length digits
